-- ===== src/Refine/Singleton.antt =====
-- WL_1.hpp: what handle_refinee does when the refiner is a single vertex.
use graph_canon.Base.{
  ℕ, ◌+◌, ◌-◌, ◌^◌, ◌≤◌, ◌<◌, ◌≡◌, ◌≢◌, ◌⊎◌, inl, inr, refl, sym, ap, ◌∙◌, subst, arith, List, [],
  ◌∷◌, Bool, true, false, Option, some, ◌==◌, eq-cases, length,
}
use graph_canon.Base.Int.{IntType}
use graph_canon.EdgeHandler.{EdgeHandler, Sorted}
use graph_canon.Partition.{Partition}
use graph_canon.Partition.Cells.{IsCells}
use graph_canon.Partition.Split.{AreSplits, IsSplit, split_at-IsCells, split_at-IsSplit}
use graph_canon.Partition.Splitter.{split_at}
use graph_canon.PermutedGraph.{Graph}
use graph_canon.Refine.{RefineState}
use graph_canon.Refine.Enqueue.{HoldsMinusOne, add_refiner_cells-IsQueued}
use graph_canon.Refine.Handle.{handle_refinee, split_refinee, queue_parts, report_new_cells}
use graph_canon.Refine.Refinee.{RefinementResult, Visitor, RunState, get_cell_data, first_split}

-- The edge handler adds no splits for a single vertex as the refiner.
abbrev pub IsSilent : {E H : Type 0} → EdgeHandler E H → Type 0
IsSilent {E} {H} sorter =
    (cell cell_mid cell_end : ℕ) (s : Sorted H)
    → sorter.sort_singleton_refiner cell cell_mid cell_end s ≡ s

-- The cell has been split at the first neighbour, if that is not the first vertex; the refinees and the
-- counts of hits are as before.
pub record IsHandled {H : Type 0} (cell : ℕ) (splits : List ℕ) (s u : RefineState H) : Type 0 where
  pub cells : IsCells u.pi
  pub split : IsSplit cell splits s.pi u.pi
  pub refinees : u.i_data.refinee_cells ≡ s.i_data.refinee_cells
  pub hits : (c : ℕ) → (u.i_data.cell_data c).hit_count ≡ (s.i_data.cell_data c).hit_count

-- A call that returned, and what holds if it is to continue.
abbrev pub IsContinued : {A : Type 0} → (A → Type 0) → Option (Bool × A) → Type 0
IsContinued {A} P result = (b : Bool) × (r : A) × (result ≡ some (b, r)) × (b ≡ true → P r)

IsSplit-refl : (cell : ℕ) (pi : Partition) → IsSplit cell [] pi pi
IsSplit-refl cell pi = record {
  size = refl;
  count = omega arith;
  element = λ i. refl;
  inverse = λ v. refl;
  cell_of = λ v. refl;
  begins = λ j. ground arith;
  outside = λ j o. refl;
}

module _ {E H V : Type 0} (g : Graph E) (sorter : EdgeHandler E H) (visitor : Visitor V)
    (t : IntType) (holds : HoldsMinusOne t) (wide : 1 < 2 ^ t.bits - 1) where
  queue_parts-IsHandled :
      (cell cell_end refiner_begin x : ℕ) (s : RefineState H) (told : Bool × V)
      → s.i_data.refined_beginnings ≡ x ∷ []
      → IsContinued
          (λ r.
            (r.state.pi ≡ s.pi)
            × (r.state.i_data.refinee_cells ≡ s.i_data.refinee_cells)
            × ((c : ℕ) → (r.state.i_data.cell_data c).hit_count ≡ (s.i_data.cell_data c).hit_count))
          (queue_parts g sorter visitor t cell cell_end refiner_begin s told)
  queue_parts-IsHandled cell cell_end refiner_begin x s (false, v) e =
      (false, _, refl, λ c. absurd (ground (arith, c)))
  queue_parts-IsHandled cell cell_end refiner_begin x s (true, v) e =
      let few : length s.i_data.refined_beginnings < 2 ^ t.bits - 1 =
        omega (arith, ap length e, wide) in
      let (new, d, eq, q, enough) = add_refiner_cells-IsQueued t s.pi cell s.i_data holds few in
      let r : RunState H V = record {
        state = record s { i_data = d };
        visitor = visitor.refine_cell_split_end s.pi refiner_begin cell cell_end v;
        result = RefinementResult.changed;
      } in
      (true, r, rw eq refl, λ c. (refl, q.refinees, q.hits))

  -- What is done with at most one split position.
  split_refinee-IsHandled :
      (cell cell_end refiner_begin x : ℕ) (splits : List ℕ) (s : RefineState H) (r : RunState H V)
      → (splits ≡ []) ⊎ (splits ≡ x ∷ [])
      → s.i_data.refined_beginnings ≡ splits
      → IsCells s.pi
      → cell < s.pi.n
      → s.pi.next_cell_begin cell ≢ 0
      → AreSplits cell (s.pi.next_cell_begin cell) splits
      → IsContinued
          (λ u. IsHandled cell splits s u.state)
          (split_refinee g sorter visitor t cell cell_end refiner_begin splits s r)
  split_refinee-IsHandled cell cell_end refiner_begin x splits s r (inl e) f h below begins inside =
      rw e (
        _,
        _,
        refl,
        λ c. record {
          cells = h;
          split = IsSplit-refl cell s.pi;
          refinees = refl;
          hits = λ d. refl;
        },
      )
  split_refinee-IsHandled cell cell_end refiner_begin x splits s r (inr e) f h below begins inside =
      let pi = split_at cell (x ∷ []) s.pi in
      let inside : AreSplits cell (s.pi.next_cell_begin cell) (x ∷ []) =
        subst (AreSplits cell (s.pi.next_cell_begin cell)) e inside in
      let told =
        report_new_cells visitor (x ∷ []) pi
          (visitor.refine_cell_split_begin s.pi refiner_begin cell cell_end r.visitor) in
      let (b, u, eq, after) =
        queue_parts-IsHandled cell cell_end refiner_begin x (record s { pi = pi }) told (f ∙ e) in
      let lt = h.after cell below begins in
      rw e (
        b,
        u,
        eq,
        λ c.
            let (p, q, k) = after c in
            record {
              cells = rw p (split_at-IsCells cell (x ∷ []) s.pi h below begins inside);
              split = rw p (split_at-IsSplit cell (x ∷ []) s.pi lt inside);
              refinees = q;
              hits = k;
            },
      )

  -- With an integer type of more than one bit that is signed or has at least 32 bits, for valid cells, a
  -- refiner vertex, an edge handler that adds no splits for it and hits that are not none and fit the
  -- cell, `handle_refinee` returns. If it does not stop early the cell was split at the first of its last
  -- `hit_count` vertices.
  pub handle_refinee-IsHandled :
      (cell refiner_begin : ℕ) (r : RunState H V)
      → IsSilent sorter
      → IsCells r.state.pi
      → cell < r.state.pi.n
      → r.state.pi.next_cell_begin cell ≢ 0
      → (get_cell_data r.state cell).hit_count ≢ 0
      → cell + (get_cell_data r.state cell).hit_count ≤ r.state.pi.next_cell_begin cell
      → IsContinued
          (λ u.
            IsHandled cell
              (first_split cell
                (r.state.pi.next_cell_begin cell - (get_cell_data r.state cell).hit_count))
              r.state
              u.state)
          (handle_refinee g sorter visitor t cell
            (r.state.pi.next_cell_begin cell)
            refiner_begin
            true
            r)
  unfolding handle_refinee
  handle_refinee-IsHandled cell refiner_begin r silent h below begins some_hit fits =
      let cell_end = r.state.pi.next_cell_begin cell in
      let cell_mid = cell_end - (get_cell_data r.state cell).hit_count in
      let splits = first_split cell cell_mid in
      let input : Sorted H = record {
        pi = r.state.pi;
        splits = splits;
        handler = r.state.handler;
      } in
      let state_of : Sorted H → RefineState H = λ z. record {
        pi = z.pi;
        i_data = record (r.state.i_data) { refined_beginnings = z.splits };
        handler = z.handler;
      } in
      let shape : ((splits ≡ []) ⊎ (splits ≡ cell_mid ∷ [])) × AreSplits cell cell_end splits =
        elim (eq-cases cell_mid cell) [
          | inl e ↦ let test : (cell_mid == cell) ≡ true = ground arith in rw test (inl refl, tt)
          | inr ne ↦
              let test : (cell_mid == cell) ≡ false = ground arith in
              rw test (inr refl, (omega arith, omega arith, tt))
        ] in
      let (b, u, eq, after) =
        split_refinee-IsHandled cell cell_end refiner_begin cell_mid splits (state_of input) r
          shape.0 refl h below begins shape.1 in
      let result =
        subst
          (λ z.
            split_refinee g sorter visitor t cell cell_end refiner_begin z.splits (state_of z) r
            ≡ some (b, u))
          (sym (silent cell cell_mid cell_end input)) eq in
      (
        b,
        u,
        result,
        λ c.
            let k = after c in
            record { cells = k.cells; split = k.split; refinees = k.refinees; hits = k.hits },
      )
