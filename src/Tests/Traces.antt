-- ===== src/Tests/Traces.antt =====
-- invariant/coordinator.hpp at a small input: traces of the levels 1 and 2, and a node of level 1.
use graph_canon.Base.{
  ℕ, ◌+◌, ◌≡◌, refl, arith, List, [], ◌∷◌, Bool, true, false, Option, none, some, ◌==◌,
  if◌then◌else◌,
}
use graph_canon.Invariant.{Coordinated, tree_create_node_end, tree_before_descend}
use graph_canon.Invariant.Elements.{add_all}
use graph_canon.Invariant.Trace.{compare_traces, IsOutcome, add_all-IsOutcome}

-- The state `rest` counts the prunings.
abbrev begun : Coordinated ℕ
begun = record {
  i_data = record {
    max_level = 2;
    generation = 4;
    trace = λ i. if i == 1 then 3 ∷ 5 ∷ [] else if i == 2 then 7 ∷ [] else [];
    generations = λ i. 4;
    visitor = 10;
  };
  t_data = record { generation = 4; end_index = 0 };
  rest = 0;
}

-- Whether all are accepted, and the trace of level 1 afterwards.
abbrev outcome : Option (Bool × Coordinated ℕ) → Bool × List ℕ
outcome none = (false, [])
outcome (some (b, c)) = (b, c.i_data.trace 1)

abbrev next : ℕ → ℕ
next n = n + 1

add_all_run :
    (outcome (add_all next next 1 (3 ∷ 4 ∷ 9 ∷ []) begun) ≡ (true, 3 ∷ 4 ∷ 9 ∷ []))
    × (outcome (add_all next next 1 (3 ∷ 6 ∷ []) begun) ≡ (false, 3 ∷ 5 ∷ []))
    × (outcome (add_all next next 1 (3 ∷ 5 ∷ []) begun) ≡ (true, 3 ∷ 5 ∷ []))
    × ((tree_create_node_end next next 1 false begun).0 ≡ false)
    × ((tree_before_descend next next 3 false begun).rest ≡ 1)
unfolding add_all tree_create_node_end tree_before_descend
add_all_run = (refl, refl, refl, refl, refl)

add_all-IsOutcome_example :
    (result : Bool × Coordinated ℕ) × (add_all next next 1 (3 ∷ 4 ∷ 9 ∷ []) begun ≡ some result)
    × IsOutcome (compare_traces (3 ∷ 4 ∷ 9 ∷ []) (3 ∷ 5 ∷ [])) 1 [] (3 ∷ 4 ∷ 9 ∷ []) begun result
add_all-IsOutcome_example =
    add_all-IsOutcome next next 1 (3 ∷ 4 ∷ 9 ∷ []) [] (3 ∷ 5 ∷ []) begun (omega arith) (omega arith)
      refl refl
