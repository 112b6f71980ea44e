-- ===== src/Refine/Hits.antt =====
-- WL_1.hpp: what one hit of a single vertex changes.
use graph_canon.Base.{
  ℕ, ◌+◌, ◌-◌, ◌≤◌, ◌<◌, ◌≡◌, ◌≢◌, ◌↔◌, inl, inr, refl, ◌∙◌, arith, List, [], ◌∷◌, IsIn, All,
  All-append, true, false, eq-cases, if◌then◌else◌, ◌==◌,
}
use graph_canon.EdgeHandler.{EdgeHandler}
use graph_canon.Partition.{Partition}
use graph_canon.Partition.Cells.{same_cell}
use graph_canon.Partition.Position.{IsWithin, vertex-IsWithin}
use graph_canon.PermutedGraph.{Graph}
use graph_canon.Refine.{RefineState}
use graph_canon.Refine.Count.{hit_from_singleton}
use graph_canon.Refine.Rearranged.{IsRearranged, move_element-IsRearranged}
use graph_canon.Refine.RefineeCells.{
  IsRefinee, IsRefinee-append, AreApart, AreApart-append, IsWholeCell,
}

-- The vertices `seen` have been counted: in a cell of more than one vertex those are exactly the last
-- `hit_count` ones.
pub record IsHit {H : Type 0} (seen : List ℕ) (pi : Partition) (s : RefineState H) : Type 0 where
  pub parts : IsRearranged pi s.pi
  pub bounded :
      (c : ℕ)
      → c < pi.n
      → pi.next_cell_begin c ≢ 0
      → c + (s.i_data.cell_data c).hit_count ≤ pi.next_cell_begin c
  pub placed :
      (c i : ℕ)
      → c < pi.n
      → pi.next_cell_begin c ≢ 0
      → c + 1 < pi.next_cell_begin c
      → c ≤ i
      → i < pi.next_cell_begin c
      → (pi.next_cell_begin c ≤ i + (s.i_data.cell_data c).hit_count) ↔ IsIn (s.pi.elements i) seen
  pub listed : (c : ℕ) → IsRefinee c s.i_data.refinee_cells ↔ ((s.i_data.cell_data c).hit_count ≢ 0)
  pub whole : All (IsWholeCell pi) s.i_data.refinee_cells
  pub apart : AreApart s.i_data.refinee_cells

module _ {E H : Type 0} (g : Graph E) (sorter : EdgeHandler E H) where
  pub hit_from_singleton-IsHit :
      (seen : List ℕ) (pi : Partition) (s : RefineState H) (e : E) (v : ℕ)
      → v < pi.n
      → ¬ IsIn v seen
      → s.pi.cell_from_v_idx v + 1 ≢ s.pi.next_cell_begin (s.pi.cell_from_v_idx v)
      → IsHit seen pi s
      → IsHit (v ∷ seen) pi (
          hit_from_singleton g sorter e v
            (s.pi.cell_from_v_idx v)
            (s.pi.next_cell_begin (s.pi.cell_from_v_idx v))
            s)
  unfolding hit_from_singleton
  hit_from_singleton-IsHit seen pi s e v l new large h =
      let p = h.parts in
      let cell = s.pi.cell_from_v_idx v in
      let w = vertex-IsWithin s.pi v p.valid (omega (arith, p.size)) in
      let v_pos = s.pi.inverse v in
      let cell_end = s.pi.next_cell_begin cell in
      let hit_count = (s.i_data.cell_data cell).hit_count in
      let target_pos = cell_end - (hit_count + 1) in
      let here : s.pi.elements v_pos ≡ v =
        p.valid.inverse.element-inverse v (omega (arith, p.size)) in
      let before : v_pos + hit_count < cell_end = ground (
        arith,
        h.placed cell v_pos,
        p.size,
        p.next cell,
        w.below,
        w.begins,
        w.lower,
        w.upper,
        large,
      ) in
      let target : IsWithin s.pi cell target_pos = record {
        below = w.below;
        begins = w.begins;
        lower = omega (arith, before, w.lower);
        upper = omega (arith, before);
      } in
      let (moved, values) = move_element-IsRearranged v_pos target_pos cell s.pi p.valid w target in
      let after = hit_from_singleton g sorter e v cell cell_end s in
      let hits : (c : ℕ)
          → (after.i_data.cell_data c).hit_count
            ≡ (if cell == c then hit_count + 1 else (s.i_data.cell_data c).hit_count) =
        λ c. elim (eq-cases cell c) [
          | inl same ↦ let test : (cell == c) ≡ true = ground arith in rw test refl
          | inr other ↦ let test : (cell == c) ≡ false = ground arith in rw test refl
        ] in
      record {
        parts = record {
          valid = moved.valid;
          size = moved.size ∙ p.size;
          count = moved.count ∙ p.count;
          next = λ i. moved.next i ∙ p.next i;
          cell_of = λ u. moved.cell_of u ∙ p.cell_of u;
        };
        bounded = λ c a b. ground (arith, hits c, h.bounded c, before, w.lower, p.next c);
        placed = λ c i a b two lo hi. ground (
          arith,
          hits c,
          p.valid.cells.inside c,
          values i,
          h.placed c i,
          h.placed c v_pos,
          h.placed c target_pos,
          p.next c,
          p.size,
          p.valid.inverse.inverse-element i,
          p.valid.inverse.inverse-element target_pos,
          same_cell s.pi c cell i p.valid.cells,
          p.valid.cells.inside cell,
          w.below,
          w.begins,
          w.lower,
          w.upper,
          target.lower,
          target.upper,
          here,
          before,
        );
        listed = λ c. elim (eq-cases hit_count 0) [
          | inl none_yet ↦
              let test : (hit_count == 0) ≡ true = ground arith in
              rw test (
                ground (
                  arith,
                  hits c,
                  h.listed c,
                  IsRefinee-append c s.i_data.refinee_cells
                      (record { first = cell; last = cell_end } ∷ []),
                ))
          | inr some_hit ↦
              let test : (hit_count == 0) ≡ false = ground arith in
              rw test (ground (arith, hits c, h.listed c, h.listed cell))
        ];
        whole = elim (eq-cases hit_count 0) [
          | inl none_yet ↦
              let test : (hit_count == 0) ≡ true = ground arith in
              rw test (
                All-append (IsWholeCell pi) s.i_data.refinee_cells
                  (record { first = cell; last = cell_end } ∷ []) h.whole
                  (
                    (
                      omega (arith, w.below, p.size),
                      ground (arith, w.begins, p.next cell),
                      p.next cell,
                    ),
                    tt,
                  ))
          | inr some_hit ↦ let test : (hit_count == 0) ≡ false = ground arith in rw test h.whole
        ];
        apart = elim (eq-cases hit_count 0) [
          | inl none_yet ↦
              let test : (hit_count == 0) ≡ true = ground arith in
              let absent : ¬ IsRefinee cell s.i_data.refinee_cells =
                λ i. (h.listed cell).0 i none_yet in
              rw test (
                AreApart-append s.i_data.refinee_cells (record { first = cell; last = cell_end })
                  absent h.apart)
          | inr some_hit ↦ let test : (hit_count == 0) ≡ false = ground arith in rw test h.apart
        ];
      }
