-- ===== src/Traversal/Dfs.antt =====
-- include/graph_canon/tree_traversal/dfs.hpp: the traversal with an explicit stack, and the recursion
-- that it stands for.
pub mod Recursion
use graph_canon.Base.{
  ℕ, zero, suc, ◌+◌, ◌-◌, Bool, Option, none, some, ◌>>=◌, List, [], ◌∷◌, ltb, ◌==◌, ◌&&◌,
  if◌then◌else◌,
}
use graph_canon.Traversal.{Operations}

-- An element of the stack: the node, and the first of its children that is not visited yet.
pub record Elem : Type 0 where
  pub node : ℕ
  pub next_child : ℕ

module _ {S : Type 0} (ops : Operations S) where
  -- The inner loop from `next_child_index`, where `rounds` is how many positions are left.
  unfoldable pub skip_pruned : S → ℕ → ℕ → ℕ → ℕ
  skip_pruned s parent next_child_index zero = next_child_index
  skip_pruned s parent next_child_index (suc rounds) =
      let rest = skip_pruned s parent (next_child_index + 1) rounds in
      if ops.child_pruned parent next_child_index s then rest else next_child_index

  -- One round of the loop for the element taken off the stack, the top of the stack being the head of
  -- the list.
  unfoldable pub visit_elem : Elem → List Elem → S → S × List Elem
  unfolding skip_pruned
  visit_elem top work_stack s =
      let parent = top.node in
      let t = ops.tree_before_descend parent s in
      let size = ops.children_size parent t in
      let next = skip_pruned t parent top.next_child (size - top.next_child) in
      let created = ops.create_child parent next t in
      let waiting : List Elem = record { node = parent; next_child = next + 1 } ∷ work_stack in
      let below : List Elem = elim created.1 [
        | none ↦ waiting
        | some child ↦ record { node = child; next_child = 0 } ∷ waiting
      ] in
      let leaf = if next == 0 then (ops.report_leaf parent t, work_stack) else (t, work_stack) in
      if ops.get_is_pruned parent t
      then (t, work_stack)
      else if ltb next size
      then (created.0, below)
      else leaf

  -- The loop, where `none` is the lack of fuel.
  unfoldable pub traverse_loop : ℕ → List Elem → S → Option S
  unfolding visit_elem
  traverse_loop zero work_stack s = none
  traverse_loop (suc fuel) [] s = some s
  traverse_loop (suc fuel) (top ∷ work_stack) s =
      let step = visit_elem top work_stack s in traverse_loop fuel step.1 step.0

  unfoldable pub traverse : ℕ → ℕ → S → Option S
  unfolding traverse_loop
  traverse fuel t_ptr s = traverse_loop fuel (record { node = t_ptr; next_child = 0 } ∷ []) s
