-- ===== src/Refine/Neighbours.antt =====
-- WL_1.hpp: count_neighbours_from_singleton collects the neighbours at the end of their cells.
use mathlib.Core.List.{map}
use graph_canon.Base.{
  ℕ, ◌+◌, ◌<◌, ◌≡◌, ◌⊎◌, ◌↔◌, inl, inr, refl, ap, subst, arith, List, [], ◌∷◌, IsIn, All, true,
  false, eq-cases, if◌then◌else◌, ◌==◌,
}
use graph_canon.EdgeHandler.{EdgeHandler}
use graph_canon.Partition.{Partition}
use graph_canon.Partition.Cells.{IsPartition}
use graph_canon.PermutedGraph.{Graph}
use graph_canon.Refine.{RefineState}
use graph_canon.Refine.Count.{
  for_each_neighbour, hit_from_singleton, count_neighbours_from_singleton,
}
use graph_canon.Refine.Pending.{AreDifferent}
use graph_canon.Refine.Hits.{IsHit, hit_from_singleton-IsHit}

-- A vertex with a cell of its own is passed over.
singleton-IsHit :
    {H : Type 0} (seen : List ℕ) (pi : Partition) (s : RefineState H) (v : ℕ)
    → v < pi.n
    → s.pi.cell_from_v_idx v + 1 ≡ s.pi.next_cell_begin (s.pi.cell_from_v_idx v)
    → IsHit seen pi s
    → IsHit (v ∷ seen) pi s
singleton-IsHit seen pi s v l single h =
    let p = h.parts in
    record {
      parts = h.parts;
      bounded = h.bounded;
      placed = λ c i a b two lo hi. ground (
        arith,
        h.placed c i,
        p.valid.membership c i,
        p.size,
        p.next c,
        single,
        ap (λ x. s.pi.cell_from_v_idx x + 1),
      );
      listed = h.listed;
      whole = h.whole;
      apart = h.apart;
    }

IsHit-seen :
    {H : Type 0} (seen all : List ℕ) (pi : Partition) (s : RefineState H)
    → ((v : ℕ) → IsIn v seen ↔ IsIn v all)
    → IsHit seen pi s
    → IsHit all pi s
IsHit-seen seen all pi s same h = record {
  parts = h.parts;
  bounded = h.bounded;
  placed = λ c i a b two lo hi. ground (arith, h.placed c i, same (s.pi.elements i));
  listed = h.listed;
  whole = h.whole;
  apart = h.apart;
}

module _ {E H : Type 0} (g : Graph E) (sorter : EdgeHandler E H) where
  for_each_neighbour-IsHit :
      (edges : List E) (seen : List ℕ) (pi : Partition) (s : RefineState H)
      → All (λ e. g.target e < pi.n) edges
      → AreDifferent (map g.target edges)
      → ((v : ℕ) → IsIn v seen → ¬ IsIn v (map g.target edges))
      → IsHit seen pi s
      → (all : List ℕ) × ((v : ℕ) → IsIn v all ↔ (IsIn v seen ⊎ IsIn v (map g.target edges)))
        × IsHit all pi (for_each_neighbour g (λ t. t.pi) (hit_from_singleton g sorter) edges s)
  unfolding for_each_neighbour
  for_each_neighbour-IsHit [] seen pi s below distinct apart h = (seen, λ v. ground arith, h)
  for_each_neighbour-IsHit (e ∷ edges) seen pi s below distinct apart h =
      let v = g.target e in
      let cell = s.pi.cell_from_v_idx v in
      let cell_end = s.pi.next_cell_begin cell in
      let new : ¬ IsIn v seen = λ i. apart v i (inl refl) in
      let later : (u : ℕ) → IsIn u (v ∷ seen) → ¬ IsIn u (map g.target edges) = λ u i j. elim i [
        | inl same ↦ distinct.0 (subst (λ z. IsIn z (map g.target edges)) same j)
        | inr old ↦ apart u old (inr j)
      ] in
      let after =
        if cell + 1 == cell_end then s else hit_from_singleton g sorter e v cell cell_end s in
      let step : IsHit (v ∷ seen) pi after = elim (eq-cases (cell + 1) cell_end) [
        | inl single ↦
            let test : (cell + 1 == cell_end) ≡ true = ground arith in
            rw test (singleton-IsHit seen pi s v below.0 single h)
        | inr large ↦
            let test : (cell + 1 == cell_end) ≡ false = ground arith in
            rw test (hit_from_singleton-IsHit g sorter seen pi s e v below.0 new large h)
      ] in
      let (all, same, hit) =
        for_each_neighbour-IsHit edges (v ∷ seen) pi after below.1 distinct.1 later step in
      (all, λ u. ground (arith, same u), hit)

  -- For a valid partition, a vertex with different neighbours in the graph, and no refinees and hits at the
  -- start, the neighbours that are not alone in their cell end up as the last `hit_count` vertices of their cells. The cells keep their
  -- vertices, the partition stays valid, and the refinees are the cells that were hit.
  pub count_neighbours_from_singleton-IsHit :
      (refiner_begin : ℕ) (s : RefineState H)
      → IsPartition s.pi
      → All (λ e. g.target e < s.pi.n) (g.out_edges (s.pi.elements refiner_begin))
      → AreDifferent (map g.target (g.out_edges (s.pi.elements refiner_begin)))
      → s.i_data.refinee_cells ≡ []
      → ((c : ℕ) → (s.i_data.cell_data c).hit_count ≡ 0)
      → IsHit
          (map g.target (g.out_edges (s.pi.elements refiner_begin)))
          s.pi
          (count_neighbours_from_singleton g sorter refiner_begin s)
  unfolding count_neighbours_from_singleton
  count_neighbours_from_singleton-IsHit refiner_begin s valid below distinct empty zeros =
      let edges = g.out_edges (s.pi.elements refiner_begin) in
      let start : IsHit [] s.pi s = record {
        parts = record {
          valid = valid;
          size = refl;
          count = refl;
          next = λ i. refl;
          cell_of = λ v. refl;
        };
        bounded = λ c a b. ground (arith, zeros c, valid.cells.after c);
        placed = λ c i a b two lo hi. ground (arith, zeros c);
        listed = λ c. rw empty (ground (arith, zeros c));
        whole = rw empty tt;
        apart = rw empty tt;
      } in
      let (all, same, hit) =
        for_each_neighbour-IsHit edges [] s.pi s below distinct (λ v i j. i) start in
      IsHit-seen all (map g.target edges) s.pi
        (count_neighbours_from_singleton g sorter refiner_begin s) (λ v. ground (arith, same v)) hit
