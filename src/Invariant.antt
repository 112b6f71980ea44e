-- ===== src/Invariant.antt =====
-- include/graph_canon/invariant/coordinator.hpp: the traces of the node invariants. A node has a parent
-- if its level is not 0.
pub mod Elements
pub mod Improved
pub mod Trace
use graph_canon.Base.{
  ℕ, zero, suc, ◌+◌, ◌-◌, List, [], ◌∷◌, ◌++◌, Bool, true, false, Option, none, some, ◌==◌, ltb,
  leb, if◌then◌else◌, Array, update, length, get_elem?,
}
use graph_canon.Base.Loops.{for_up}

pub record TreeData : Type 0 where
  pub generation : ℕ
  pub end_index : ℕ

pub record CoordinatorData : Type 0 where
  pub max_level : ℕ
  pub generation : ℕ
  pub trace : ℕ → List ℕ
  pub generations : Array
  pub visitor : ℕ

-- `rest` is the state that the calls of `invariant_better`, `prune_canon_leaf` and `prune_subtree` change.
pub record Coordinated (S : Type 0) : Type 0 where
  pub i_data : CoordinatorData
  pub t_data : TreeData
  pub rest : S

-- `vector::resize`
unfoldable pub resize : List ℕ → ℕ → List ℕ
resize xs zero = []
resize [] (suc n) = 0 ∷ resize [] n
resize (x ∷ xs) (suc n) = x ∷ resize xs n

abbrev pub init_visitor : CoordinatorData → ℕ × CoordinatorData
init_visitor d = (d.visitor, record d { visitor = d.visitor + 1 })

abbrev pub push_trace : ℕ → ℕ → CoordinatorData → CoordinatorData
push_trace level visitor d = record d {
  trace = update d.trace level (d.trace level ++ visitor ∷ []);
}

-- `on_better` is `invariant_better` of the visitors followed by `prune_canon_leaf`, and `prune` is
-- `prune_subtree(state, true)`, for the node.
module _ {S : Type 0} (on_better prune : S → S) where
  unfoldable pub tree_create_node_begin : ℕ → Coordinated S → Coordinated S
  tree_create_node_begin level c =
      let d = c.i_data in
      let generation = if ltb d.max_level level then d.generation else d.generations level in
      record c {
        t_data = record { end_index = 0; generation = if level == 0 then 0 else generation };
      }

  unfoldable pub better_invariant : ℕ → Coordinated S → Coordinated S
  unfolding for_up resize
  better_invariant level c =
      let d = c.i_data in
      let cleared =
        for_up (λ i trace. update trace i []) (level + 1) (d.max_level - level) d.trace in
      record {
        i_data = record d {
          max_level = level - 1;
          trace = update cleared level (resize (cleared level) c.t_data.end_index);
          generation = d.generation + 1;
        };
        t_data = record (c.t_data) { generation = d.generation + 1 };
        rest = on_better c.rest;
      }

  abbrev pub worse_invariant : ℕ → Coordinated S → Coordinated S
  worse_invariant level c = c

  abbrev pub improve : ℕ → ℕ → Coordinated S → Coordinated S
  improve level visitor c =
      let better = better_invariant level c in
      record better { i_data = push_trace level visitor better.i_data }

  -- The comparison with the element of the trace, where `none` is an index out of range.
  abbrev pub compare_element : ℕ → ℕ → Option ℕ → Coordinated S → Option (Bool × Coordinated S)
  compare_element level visitor none c = none
  compare_element level visitor (some element) c =
      if ltb visitor element
      then some (true, improve level visitor c)
      else if ltb element visitor
      then some (false, worse_invariant level c)
      else some
          (true, record c { t_data = record (c.t_data) { end_index = c.t_data.end_index + 1 } })

  unfoldable pub add_invariant_element : ℕ → ℕ → Coordinated S → Option (Bool × Coordinated S)
  unfolding better_invariant get_elem?
  add_invariant_element level visitor c =
      let trace = c.i_data.trace level in
      let extended = record c { i_data = push_trace level visitor c.i_data } in
      if level == 0
      then some (true, extended)
      else if ltb c.i_data.max_level level
      then some (true, extended)
      else if c.t_data.end_index == length trace
      then some (true, improve level visitor c)
      else compare_element level visitor (get_elem? trace c.t_data.end_index) c

  abbrev pub record_generation : ℕ → ℕ → CoordinatorData → CoordinatorData
  record_generation level generation d = record d {
    generations = update d.generations level generation;
  }

  unfoldable pub tree_create_node_end : ℕ → Bool → Coordinated S → Bool × Coordinated S
  unfolding better_invariant
  tree_create_node_end level is_pruned c =
      let d = c.i_data in
      let current = record c { i_data = record_generation level d.generation d } in
      let grown = record c {
        i_data = record_generation level d.generation (record d { max_level = d.max_level + 1 });
      } in
      let better = better_invariant level c in
      let kept : Coordinated S → Coordinated S =
        λ x. record x { i_data = record_generation level x.t_data.generation x.i_data } in
      let t_end = c.t_data.end_index in
      let i_end = length (d.trace level) in
      if is_pruned
      then (false, c)
      else if level == 0
      then (true, current)
      else if ltb d.max_level level
      then (true, grown)
      else if ltb t_end i_end
      then (false, worse_invariant level c)
      else if ltb i_end t_end
      then (true, kept better)
      else (true, kept c)

  unfoldable pub tree_before_descend : ℕ → Bool → Coordinated S → Coordinated S
  tree_before_descend level is_pruned c =
      let pruned = record c { rest = prune c.rest } in
      if level == 0
      then c
      else if is_pruned
      then c
      else if ltb c.i_data.max_level level
      then pruned
      else if ltb c.t_data.generation (c.i_data.generations level)
      then pruned
      else c
