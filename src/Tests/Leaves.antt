-- ===== src/Tests/Leaves.antt =====
-- detail/permuted_graph_view.hpp and the leaves of canonicalization.hpp at small inputs.
use mathlib.Core.List.{Perm, Memᴰ}
use mathlib.Core.List.Perm
use mathlib.Core.Logic.{∥∥₁_elim}
use native.Mathlib.Bridge.{le_prop}
use graph_canon.Base.{
  ℕ, zero, suc, ◌^◌, ◌<◌, ◌≡◌, refl, arith, List, [], ◌∷◌, ◌==◌, if◌then◌else◌, inr, some, none,
  Bool, true, false, length,
}
use graph_canon.Base.Int.{pos, IntType, is_negative}
use graph_canon.EdgeHandler.{all_equal_compare}
use graph_canon.Partition.{Partition, Storage, unit_partition, swap_elements}
use graph_canon.Partition.Cells.{IsInverse}
use graph_canon.Partition.Constructors.{unit_partition-IsPartition}
use graph_canon.Partition.Inverse.{swap_elements-IsInverse}
use graph_canon.PermutedGraph.{Graph, Adj, View, make_view, repermute, compare_views}
use graph_canon.PermutedGraph.Describes.{IsViewOf, make_view-IsViewOf, repermute-IsViewOf}
use graph_canon.PermutedGraph.Automorphism.{
  IsGraph, IsAutomorphism, explicit_automorphism, compare_views-IsAutomorphism,
}
use graph_canon.PermutedGraph.Order.{
  AreOpposite, compare_views-opposite, compare_views-not_negative,
}
use graph_canon.Canonicalization.{Leaf, LeafState, report_leaf}
use graph_canon.Canonicalization.Leaves.{IsLeafState, AreAutomorphisms, report_leaf-IsLeafState}

-- Insertion sort, an instance of what is asked of `std::sort`.
insert : {E : Type 0} → (E → E → Bool) → E → List E → List E
insert less x [] = x ∷ []
insert less x (y ∷ ys) = if less y x then y ∷ insert less x ys else x ∷ y ∷ ys

sort : {E : Type 0} → (E → E → Bool) → List E → List E
unfolding insert
sort less [] = []
sort less (x ∷ xs) = insert less x (sort less xs)

insert_step :
    {E : Type 0} (b : Bool) (x y : E) (ys : List E) {zs : List E}
    → Perm zs (x ∷ ys)
    → Perm (if b then y ∷ zs else x ∷ y ∷ ys) (x ∷ y ∷ ys)
insert_step true x y ys p = Perm.trans (Perm.cons y p) (Perm.swap x y ys)
insert_step false x y ys p = Perm.refl (x ∷ y ∷ ys)

insert-perm :
    {E : Type 0} (less : E → E → Bool) (x : E) (xs : List E) → Perm (insert less x xs) (x ∷ xs)
unfolding insert
insert-perm less x [] = Perm.refl (x ∷ [])
insert-perm less x (y ∷ ys) = insert_step (less y x) x y ys (insert-perm less x ys)

sort-IsSort : {E : Type 0} (less : E → E → Bool) (xs : List E) → Perm (sort less xs) xs
unfolding sort
sort-IsSort less [] = Perm.refl []
sort-IsSort less (x ∷ xs) =
    Perm.trans (insert-perm less x (sort less xs)) (Perm.cons x (sort-IsSort less xs))

-- The path 0 - 1 - 2. An edge descriptor seen from a vertex is the vertex that it leads to.
abbrev neighbours : ℕ → List ℕ
neighbours zero = 1 ∷ []
neighbours (suc zero) = 0 ∷ 2 ∷ []
neighbours (suc (suc v)) = 1 ∷ []

abbrev path : Graph ℕ
path = record { n = 3; out_edges = neighbours; target = λ e. e }

abbrev AllBelow : List ℕ → Type 0
AllBelow [] = Unit {0}
AllBelow (x ∷ xs) = (x < 3) × AllBelow xs

below : {e : ℕ} {xs : List ℕ} → Memᴰ e xs → AllBelow xs → e < 3
below (Memᴰ.head p) h = omega arith
below (Memᴰ.tail m) h = below m h.1

path-IsGraph : IsGraph path
path-IsGraph zero e l m = ∥∥₁_elim m le_prop (λ d. below d (omega arith))
path-IsGraph (suc zero) e l m = ∥∥₁_elim m le_prop (λ d. below d (omega arith))
path-IsGraph (suc (suc v)) e l m = ∥∥₁_elim m le_prop (λ d. below d (omega arith))

abbrev storage : Storage
storage = record {
  elements = λ i. 5;
  inverse = λ i. 5;
  next_cell_begin = λ i. 5;
  cell_from_v_idx = λ i. 5;
}

abbrev raw : ℕ → Adj ℕ
raw i = record { v = 5; out_degree = 5; out_edges = [] }

-- `size_t`
abbrev size_t : IntType
size_t = record { bits = 64; is_signed = false }

-- Two discrete partitions: the identity, and the one that exchanges the ends of the path.
abbrev first_leaf : Leaf
first_leaf = record { address = 1; pi = unit_partition 3 storage }

abbrev second_leaf : Leaf
second_leaf = record { address = 2; pi = swap_elements 0 2 (unit_partition 3 storage) }

first-IsInverse : IsInverse first_leaf.pi
first-IsInverse = (unit_partition-IsPartition 3 storage).inverse

second-IsInverse : IsInverse second_leaf.pi
unfolding unit_partition
second-IsInverse =
    (swap_elements-IsInverse 0 2 first_leaf.pi (omega arith) (omega arith) first-IsInverse).0

abbrev first_view : View ℕ
first_view = make_view path all_equal_compare sort first_leaf.pi raw

abbrev second_view : View ℕ
second_view = repermute path all_equal_compare sort second_leaf.pi raw first_view

make_view-IsViewOf_example : IsViewOf path first_view
unfolding unit_partition
make_view-IsViewOf_example =
    make_view-IsViewOf path all_equal_compare sort sort-IsSort first_leaf.pi raw refl
      first-IsInverse

repermute-IsViewOf_example : IsViewOf path second_view × (second_view.leaf ≡ second_leaf.pi)
unfolding unit_partition make_view swap_elements
repermute-IsViewOf_example =
    repermute-IsViewOf path all_equal_compare sort sort-IsSort second_leaf.pi raw first_view refl
      refl first-IsInverse second-IsInverse make_view-IsViewOf_example

compare_views_run : compare_views path all_equal_compare sort size_t second_view first_view ≡ pos 0
unfolding unit_partition make_view repermute swap_elements compare_views all_equal_compare sort
compare_views_run = refl

degrees_fit : (v : ℕ) → v < 3 → length (neighbours v) < 2 ^ 64
degrees_fit zero l = omega arith
degrees_fit (suc zero) l = omega arith
degrees_fit (suc (suc v)) l = omega arith

compare_views-IsAutomorphism_example :
    IsAutomorphism path all_equal_compare (explicit_automorphism first_view.leaf second_view.leaf)
unfolding unit_partition make_view repermute swap_elements
compare_views-IsAutomorphism_example =
    compare_views-IsAutomorphism path all_equal_compare sort size_t second_view first_view
      path-IsGraph
      (record {
        represents = repermute-IsViewOf_example.0;
        order = refl;
        inverse = second-IsInverse;
      })
      (record { represents = make_view-IsViewOf_example; order = refl; inverse = first-IsInverse })
      (omega arith) degrees_fit compare_views_run

automorphism_run : explicit_automorphism first_leaf.pi second_leaf.pi 0 ≡ 2
unfolding unit_partition swap_elements explicit_automorphism
automorphism_run = refl

index_bound : (e : ℕ) → first_view.leaf.inverse e < 2 ^ 63
unfolding unit_partition make_view
index_bound e = ground arith

index_bound' : (e : ℕ) → second_view.leaf.inverse e < 2 ^ 63
unfolding unit_partition make_view repermute swap_elements
index_bound' e = ground arith

degree_bound :
    (j : ℕ)
    → j < 3
    → ((first_view.repr j).out_degree < 2 ^ 63) × ((second_view.repr j).out_degree < 2 ^ 63)
unfolding unit_partition make_view repermute swap_elements
degree_bound zero l = (omega arith, omega arith)
degree_bound (suc zero) l = (omega arith, omega arith)
degree_bound (suc (suc zero)) l = (omega arith, omega arith)
degree_bound (suc (suc (suc j))) l = absurd (omega arith)

compare_views-opposite_example :
    AreOpposite
      (compare_views path all_equal_compare sort size_t first_view second_view)
      (compare_views path all_equal_compare sort size_t second_view first_view)
unfolding make_view repermute all_equal_compare
compare_views-opposite_example =
    compare_views-opposite path all_equal_compare sort size_t (inr (inr refl)) (λ a b. (refl, refl))
      first_view second_view refl index_bound index_bound' degree_bound

-- `unsigned int`
abbrev unsigned_int : IntType
unsigned_int = record { bits = 32; is_signed = false }

compare_views-not_negative_example :
    is_negative (compare_views path all_equal_compare sort unsigned_int first_view second_view)
    ≡ false
compare_views-not_negative_example =
    compare_views-not_negative path sort unsigned_int first_view second_view refl (omega arith)
      (omega arith)

abbrev nodes : ℕ → Partition
nodes a = if a == 1 then first_leaf.pi else second_leaf.pi

abbrev one_leaf : LeafState ℕ
one_leaf = record {
  canon_leaf = some first_leaf;
  canon_permuted_graph = none;
  extra_permuted_graph = none;
}

report_leaf-IsLeafState_example :
    IsLeafState path nodes
      (report_leaf path all_equal_compare sort size_t raw one_leaf second_leaf).0
    × AreAutomorphisms path all_equal_compare
        (report_leaf path all_equal_compare sort size_t raw one_leaf second_leaf).1
unfolding unit_partition swap_elements
report_leaf-IsLeafState_example =
    report_leaf-IsLeafState path all_equal_compare sort size_t raw nodes sort-IsSort path-IsGraph
      (omega arith) degrees_fit one_leaf second_leaf
      (record {
        best = record { lives = refl; order = refl; inverse = first-IsInverse };
        canon = tt;
        extra = tt;
      })
      (record { lives = refl; order = refl; inverse = second-IsInverse })
