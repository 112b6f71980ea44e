-- ===== src/Canonicalization.antt =====
-- include/graph_canon/canonicalization.hpp: the part of `canon_state` that keeps the best leaf. What
-- the visitor is told is the list of events that an operation returns, in order.
pub mod Leaves
use graph_canon.Base.{
  ℕ, Option, none, some, List, [], ◌∷◌, ◌++◌, Bool, not, ◌==◌, if◌then◌else◌, copy, Array,
}
use graph_canon.Base.Int.{ℤ, IntType, is_negative, is_zero}
use graph_canon.Partition.{Partition}
use graph_canon.PermutedGraph.{Graph, Adj, View, make_view, repermute, compare_views}
use graph_canon.PermutedGraph.Automorphism.{explicit_automorphism}

-- A leaf of the search tree: the address of its node and the partition of the node.
pub record Leaf : Type 0 where
  pub address : ℕ
  pub pi : Partition

-- A `PermutedGraph` with the node that it was made or last repermuted for.
pub record LeafView (E : Type 0) : Type 0 where
  pub node : Leaf
  pub view : View E

pub data Event : Type 0 where
  tree_leaf : Leaf → Event
  canon_new_best : Option Leaf → Event
  automorphism_leaf : Leaf → (ℕ → ℕ) → Event
  canon_worse : Leaf → Event
  canon_prune : Event

-- The private members of `canon_state`.
pub record LeafState (E : Type 0) : Type 0 where
  pub canon_leaf : Option Leaf
  pub canon_permuted_graph : Option (LeafView E)
  pub extra_permuted_graph : Option (LeafView E)

-- `raw` is what `new Adj[n]` returns.
module _ {E : Type 0} (g : Graph E) (edge_compare : E → E → ℤ)
    (sort : (E → E → Bool) → List E → List E) (t : IntType) (raw : ℕ → Adj E) where
  -- `new PermutedGraph(*this, node)`
  abbrev pub new_view : Leaf → LeafView E
  new_view node = record { node = node; view = make_view g edge_compare sort node.pi raw }

  abbrev pub repermute_view : LeafView E → Leaf → LeafView E
  repermute_view v node = record {
    node = node;
    view = repermute g edge_compare sort node.pi raw v.view;
  }

  -- The view of the best leaf, made at the second leaf and again after the best leaf was pruned.
  unfoldable pub canon_view : Option (LeafView E) → Leaf → LeafView E
  canon_view none best = new_view best
  canon_view (some v) best =
      if not (v.node.address == best.address) then repermute_view v best else v

  -- The view of the new leaf. At the second leaf it is made and then repermuted for the same leaf.
  unfoldable pub extra_view : Option (LeafView E) → Option (LeafView E) → Leaf → LeafView E
  extra_view none extra node = repermute_view (new_view node) node
  extra_view (some v) none node = new_view node
  extra_view (some v) (some extra) node = repermute_view extra node

  -- The comparison and what follows it.
  unfoldable pub judge : Leaf → Leaf → LeafView E → LeafView E → LeafState E × List Event
  judge best node canon extra =
      let cmp = compare_views g edge_compare sort t extra.view canon.view in
      let kept : LeafState E = record {
        canon_leaf = some best;
        canon_permuted_graph = some canon;
        extra_permuted_graph = some extra;
      } in
      if is_negative cmp
      then (
        record {
          canon_leaf = some node;
          canon_permuted_graph = some extra;
          extra_permuted_graph = some canon;
        },
        canon_new_best (some best) ∷ [],
      )
      else if is_zero cmp
      then (kept, automorphism_leaf node (explicit_automorphism best.pi node.pi) ∷ [])
      else (kept, canon_worse node ∷ [])

  unfoldable pub report_leaf : LeafState E → Leaf → LeafState E × List Event
  unfolding judge canon_view extra_view
  report_leaf st node = elim st.canon_leaf [
    | none ↦ (record st { canon_leaf = some node }, tree_leaf node ∷ canon_new_best none ∷ [])
    | some best ↦
        let (st', events) =
          judge best node (canon_view st.canon_permuted_graph best)
            (extra_view st.canon_permuted_graph st.extra_permuted_graph node) in
        (st', tree_leaf node ∷ events)
  ]

module _ {E : Type 0} where
  unfoldable pub prune_canon_leaf : LeafState E → LeafState E × List Event
  prune_canon_leaf st = elim st.canon_leaf [
    | none ↦ (st, [])
    | some best ↦ (record st { canon_leaf = none }, canon_prune ∷ [])
  ]

-- `get_canonical_permutation()` for the best leaf; `p` is the new vector of `n` entries.
unfoldable pub get_canonical_permutation : Leaf → ℕ → Array → Array
get_canonical_permutation best n p = copy n best.pi.inverse p
