-- ===== src/Traversal.antt =====
-- include/graph_canon/tree_traversal: how the nodes of the search tree are visited. The state `S` holds
-- the nodes of the tree and the data of the visitors, and a node is a number; what the traversals call
-- of the canonicalisation state and of the nodes is a record of operations.
pub mod Dfs
use graph_canon.Base.{ℕ, Bool, Option}

-- `children_size` is `children.size()`; `create_child` takes the position of the child in `children`
-- and returns a null pointer as `none`.
pub record Operations (S : Type 0) : Type 0 where
  pub tree_before_descend : ℕ → S → S
  pub get_is_pruned : ℕ → S → Bool
  pub children_size : ℕ → S → ℕ
  pub child_pruned : ℕ → ℕ → S → Bool
  pub create_child : ℕ → ℕ → S → S × Option ℕ
  pub report_leaf : ℕ → S → S
