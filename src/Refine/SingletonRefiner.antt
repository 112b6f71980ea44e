-- ===== src/Refine/SingletonRefiner.antt =====
-- WL_1.hpp: refine_with_singleton_cell makes the partition equitable with respect to the refiner vertex.
use mathlib.Core.List.{map}
use graph_canon.Base.{
  ℕ, ◌+◌, ◌-◌, ◌^◌, ◌≤◌, ◌<◌, ◌≡◌, ◌≢◌, ◌↔◌, inl, inr, refl, sym, ap, ◌∙◌, subst, arith, List, [],
  Bool, true, false, some, ◌>>=◌, lt-cases, Bool-cases, All, All-map, IsIn,
}
use graph_canon.Base.Int.{IntType}
use graph_canon.EdgeHandler.{EdgeHandler}
use graph_canon.Partition.{Partition}
use graph_canon.Partition.Cells.{IsPartition}
use graph_canon.Partition.Membership.{IsSameCells, IsSameParts-IsInverse}
use graph_canon.Partition.Position.{index-IsWithin}
use graph_canon.PermutedGraph.{Graph}
use graph_canon.Refine.{RefineState, RefineeCell}
use graph_canon.Refine.Count.{count_neighbours_from_singleton}
use graph_canon.Refine.Enqueue.{HoldsMinusOne}
use graph_canon.Refine.Equitable.{
  refinees-AreOld, separated-IsMembershipOn, separated-same_side, new_cell-le,
}
use graph_canon.Refine.Handle.{refine_with_singleton_cell, sort_refinees, finish_refiner}
use graph_canon.Refine.RefineeCells.{IsRefinee, IsWholeCell}
use graph_canon.Refine.Hits.{IsHit}
use graph_canon.Refine.Neighbours.{count_neighbours_from_singleton-IsHit}
use graph_canon.Refine.Ordering.{sort-All, sort-IsRefinee, sort-AreApart, refinees-All}
use graph_canon.Refine.Pending.{AreDifferent}
use graph_canon.Refine.Refinee.{Visitor, RunState}
use graph_canon.Refine.Reset.{reset_cell_beginnings-IsPartition, reset_cell_beginnings}
use graph_canon.Refine.Separation.{IsSeparating, IsSeparated, handle_refinees-IsSeparated}
use graph_canon.Refine.Singleton.{IsSilent, IsContinued}

-- `t` refines `base` so that the vertices of a cell are alike: all are in `nbrs` or none is.
pub record IsEquitable (nbrs : List ℕ) (base t : Partition) : Type 0 where
  pub partition : IsPartition t
  pub size : t.n ≡ base.n
  pub finer : (j : ℕ) → base.next_cell_begin j ≢ 0 → t.next_cell_begin j ≢ 0
  pub within :
      (c i : ℕ)
      → c < base.n
      → base.next_cell_begin c ≢ 0
      → c ≤ i
      → i < base.next_cell_begin c
      → base.cell_from_v_idx (t.elements i) ≡ c
  pub alike :
      (c i j : ℕ)
      → c < t.n
      → t.next_cell_begin c ≢ 0
      → c ≤ i
      → i < t.next_cell_begin c
      → c ≤ j
      → j < t.next_cell_begin c
      → IsIn (t.elements i) nbrs
      → IsIn (t.elements j) nbrs

-- The partition after the loop, with `cell_from_v_idx` set right.
separated-IsEquitable :
    {H : Type 0} (nbrs : List ℕ) (base t : Partition) (s w : RefineState H) (rs : List RefineeCell)
    → IsHit nbrs base s
    → IsSeparating s.pi (λ c. (s.i_data.cell_data c).hit_count) rs [] w
    → IsPartition t
    → IsSameCells w.pi t
    → IsEquitable nbrs base t
separated-IsEquitable nbrs base t s w rs hit sep valid same =
    let p = hit.parts in
    let hits : ℕ → ℕ = λ c. (s.i_data.cell_data c).hit_count in
    record {
      partition = valid;
      size = same.size ∙ sep.size ∙ p.size;
      finer = λ j ne. ground (arith, same.next j, sep.old j, p.next j);
      within = λ c i l ne lo hi. ground (
        arith,
        p.cell_of (s.pi.elements i),
        same.element i,
        sep.element i,
        ap (λ x. base.cell_from_v_idx x) (same.element i ∙ sep.element i),
        p.valid.membership c i,
        p.size,
        p.next c,
      );
      alike = λ c i j l ne li ui lj uj member.
          let below : c < s.pi.n = omega (arith, same.size, sep.size) in
          let (home, h) = index-IsWithin s.pi c p.valid.cells below in
          let begins : w.pi.next_cell_begin c ≢ 0 = ground (arith, same.next c, ne) in
          let le = new_cell-le s.pi hits rs w p.valid sep c home below begins h in
          let fits =
            hit.bounded home (omega (arith, p.size, h.below))
              (ground (arith, p.next home, h.begins)) in
          let end = p.next home in
          let moved : (k : ℕ) → t.elements k ≡ s.pi.elements k =
            λ k. same.element k ∙ sep.element k in
          let ends = same.next c in
          elim (lt-cases (home + 1) (s.pi.next_cell_begin home)) [
            | inr single ↦
                let one : i ≡ j = omega (arith, h.lower) in
                subst (λ k. IsIn (t.elements k) nbrs) one member
            | inl large ↦
                let placed : (k : ℕ)
                    → c ≤ k
                    → k < t.next_cell_begin c
                    → (s.pi.next_cell_begin home ≤ k + hits home) ↔ IsIn (s.pi.elements k) nbrs =
                  λ k lo hi.
                    ground (arith, hit.placed home k, end, p.size, h.below, h.begins, h.lower) in
                let before : s.pi.next_cell_begin home ≤ i + hits home =
                  (placed i li ui).1 (subst (λ x. IsIn x nbrs) (moved i) member) in
                let after =
                  separated-same_side s.pi hits rs w p.valid sep c i j home below begins li
                    (omega (arith, ends)) lj (omega (arith, ends)) h (omega (arith, fits, end))
                    before in
                subst (λ x. IsIn x nbrs) (sym (moved j)) ((placed j lj uj).0 after)
          ];
    }

module _ {E H V : Type 0} (g : Graph E) (sorter : EdgeHandler E H) (visitor : Visitor V)
    (t : IntType) (holds : HoldsMinusOne t) (wide : 1 < 2 ^ t.bits - 1)
    (silent : IsSilent sorter) where
  -- What the rest of the call does when the loop has ended.
  finish-IsEquitable :
      (nbrs : List ℕ) (base : Partition) (s : RefineState H) (rs : List RefineeCell)
      (refiner_begin refiner_end : ℕ) (b : Bool) (r : RunState H V)
      → IsHit nbrs base s
      → All (IsWholeCell s.pi) rs
      → ((c : ℕ) → (s.i_data.cell_data c).hit_count ≢ 0 → IsRefinee c rs)
      → (b ≡ true → IsSeparated s.pi (λ c. (s.i_data.cell_data c).hit_count) rs r.state)
      → IsContinued
          (λ u.
            IsEquitable nbrs base u.state.pi
            × ((c : ℕ) → (u.state.i_data.cell_data c).hit_count ≡ 0))
          (finish_refiner g sorter visitor t refiner_begin refiner_end (b, r))
  finish-IsEquitable nbrs base s rs refiner_begin refiner_end false r hit whole listed sep =
      (false, r, refl, λ c. absurd (ground (arith, c)))
  finish-IsEquitable nbrs base s rs refiner_begin refiner_end true r hit whole listed sep =
      let z = sep refl in
      let w = z.before in
      let told = visitor.refine_refiner_done r.state.pi refiner_begin refiner_end r.visitor in
      let q = z.separating in
      let valid = hit.parts.valid in
      let hits : ℕ → ℕ = λ c. (s.i_data.cell_data c).hit_count in
      let (p, e, good, same) =
        reset_cell_beginnings-IsPartition rs w.pi q.cells
          (IsSameParts-IsInverse s.pi w.pi q.size q.element q.inverse valid.inverse)
          (refinees-AreOld s.pi hits rs w valid q rs whole)
          (separated-IsMembershipOn s.pi hits rs w valid q whole listed) in
      let reset : reset_cell_beginnings r.state.i_data.refinee_cells r.state.pi ≡ some p =
        rw (z.refinees, z.same) e in
      elim (Bool-cases told.0) [
        | inl continues ↦
            let u : RunState H V = record r {
              state = record (r.state) { pi = p };
              visitor = told.1;
            } in
            (
              true,
              u,
              rw continues (rw reset refl),
              λ c. (separated-IsEquitable nbrs base p s w rs hit q good same, z.cleared listed),
            )
        | inr stops ↦
            let u : RunState H V = record r { visitor = told.1 } in
            (false, u, rw stops refl, λ c. absurd (ground (arith, c)))
      ]

  -- With an integer type of more than one bit that is signed or has at least 32 bits, for a valid
  -- partition, a refiner vertex with different neighbours in the graph, an edge handler that adds no
  -- splits for a single vertex and counts of hits that are reset, the call returns for every visitor. If
  -- it does not stop early, the partition is valid and refines the one before: the range of each old cell
  -- holds the same vertices, and the vertices of each new cell are all neighbours of the refiner or none
  -- is. The counts are reset again.
  pub refine_with_singleton_cell-IsEquitable :
      (refiner_begin refiner_end : ℕ) (r : RunState H V)
      → IsPartition r.state.pi
      → All (λ e. g.target e < r.state.pi.n) (g.out_edges (r.state.pi.elements refiner_begin))
      → AreDifferent (map g.target (g.out_edges (r.state.pi.elements refiner_begin)))
      → ((c : ℕ) → (r.state.i_data.cell_data c).hit_count ≡ 0)
      → IsContinued
          (λ u.
            IsEquitable
              (map g.target (g.out_edges (r.state.pi.elements refiner_begin)))
              r.state.pi
              u.state.pi
            × ((c : ℕ) → (u.state.i_data.cell_data c).hit_count ≡ 0))
          (refine_with_singleton_cell g sorter visitor t refiner_begin refiner_end r)
  unfolding refine_with_singleton_cell
  refine_with_singleton_cell-IsEquitable refiner_begin refiner_end r valid below distinct zeros =
      let nbrs = map g.target (g.out_edges (r.state.pi.elements refiner_begin)) in
      let cleared : RefineState H = record (r.state) {
        i_data = record (r.state.i_data) { refinee_cells = [] };
      } in
      let counted = count_neighbours_from_singleton g sorter refiner_begin cleared in
      let hit : IsHit nbrs r.state.pi counted =
        count_neighbours_from_singleton-IsHit g sorter refiner_begin cleared valid below distinct
          refl zeros in
      let rs = sort_refinees counted.i_data.refinee_cells in
      let sorted : RefineState H = record counted {
        i_data = record (counted.i_data) { refinee_cells = rs };
      } in
      let hits : ℕ → ℕ = λ c. (counted.i_data.cell_data c).hit_count in
      let listed : (c : ℕ) → IsRefinee c rs ↔ (hits c ≢ 0) =
        λ c. ground (arith, sort-IsRefinee c counted.i_data.refinee_cells, hit.listed c) in
      let start : IsSeparating counted.pi hits rs rs sorted = record {
        cells = hit.parts.valid.cells;
        size = refl;
        element = λ i. refl;
        inverse = λ v. refl;
        cell_of = λ v. refl;
        old = λ j ne. ne;
        done = λ c l ne some away. absurd (away ((listed c).1 some));
        untouched = λ c j l ne which lo hi. refl;
        refinees = refl;
        hits = λ c. refl;
      } in
      let p = hit.parts in
      let whole : All (IsWholeCell counted.pi) rs =
        sort-All (IsWholeCell counted.pi) counted.i_data.refinee_cells (
          All-map (IsWholeCell r.state.pi) (IsWholeCell counted.pi) counted.i_data.refinee_cells
            (λ q a. (
              omega (arith, a.0, p.size),
              ground (arith, a.1, p.next q.first),
              a.2 ∙ sym (p.next q.first),
            ))
            hit.whole) in
      let fits =
        All-map (IsWholeCell counted.pi)
          (λ q. q.first + hits q.first ≤ counted.pi.next_cell_begin q.first) rs
          (λ q a. ground (arith, hit.bounded q.first, a.0, a.1, p.size, p.next q.first)) whole in
      let (b, u, e, after) =
        handle_refinees-IsSeparated g sorter visitor t holds wide silent counted.pi hits rs [] rs
          refiner_begin (record r { state = sorted }) p.valid.cells whole
          (refinees-All (λ c. hits c ≢ 0) rs (λ c. (listed c).0)) fits
          (sort-AreApart counted.i_data.refinee_cells hit.apart) start in
      let (c, w, f, done) =
        finish-IsEquitable nbrs r.state.pi counted rs refiner_begin refiner_end b u hit whole
          (λ d. (listed d).1) after in
      (
        c,
        w,
        ap (λ x. x >>= finish_refiner g sorter visitor t refiner_begin refiner_end) e ∙ f,
        done,
      )
