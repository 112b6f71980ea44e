-- ===== src/Lib.antt =====
-- Verification of GraphCanon, the C++ library for canonical forms and automorphisms of graphs
-- (include/graph_canon). The library refines an ordered partition of the vertices, branches on a
-- cell that is left, and compares the leaves of the resulting search tree; the best leaf gives
-- the canonical form, and two equal leaves give an automorphism.
--
-- Base has the shared names: Boolean tests, arrays, lists, counted loops, and the integer types.
-- An array behind a raw pointer (`new SizeType[n]`) is a function from indices, since the pointer
-- carries no size; what it holds before it is written is an argument. A `std::vector` is a list.
-- Values of `SizeType` are natural numbers; where the source subtracts two of them and reads the
-- sign, Base.Int writes out the promotion, the wrap-around and the conversion to `long long`.
-- Base.Int also has the comparison of such a value with an `int` (`equals_int`) and a product in
-- the type (`product`). Sums and counts that stay below the numbers of vertices and edges are
-- plain.
--
-- Partition models detail/partition.hpp: the record Partition has its four arrays and the count
-- of cells, each member function is a definition of its name, Partition.Splitter is the class
-- cell_splitter with its destructor as `finish`. Partition.Cells says what a valid partition is;
-- Constructors, Inverse, Split and Walk prove what the operations do to it. `for_cells` is the
-- loop over the cells that the clients write.
--
-- SortingUtils models partition_range of sorting_utils.hpp, over any state with a swapper, and
-- SortingUtils.Counting the counting_sorter, over any state that is read and written by place:
-- Counting.Buckets has the ends of the buckets, State the state of the sorter, Cycles the
-- shifting of a cycle, Filled and Sorted what the loops leave. TargetCell models
-- select_target_cell of target_cell/f.hpp and target_cell/fl.hpp, and its child modules Joined
-- and Component that of target_cell/flm.hpp and target_cell/flmcr.hpp. PermutedGraph models
-- detail/permuted_graph_view.hpp and detail/explicit_automorphism.hpp. EdgeHandler has the
-- comparison of edge_handler/all_equal.hpp and its functions for a single vertex,
-- EdgeHandler.AllEqual its sort_range. SearchTree models how create_child of detail/tree_node.hpp
-- makes the partition of a child, the nodes in a store with prune_subtree (Nodes), and their
-- constructor and create_child (Creation), with make_equitable of canonicalization.hpp. Traversal
-- models tree_traversal/dfs.hpp over the record Operations, which has what the traversal calls.
-- AutPruner models of aut/pruner_base.hpp the disjoint sets of the children of a node (Forest,
-- Orbits, Update, Node) and what automorphism_leaf prunes (Leaf, LeafPruning). OrderedGraph
-- models the view with out-edges of ordered_graph.hpp and the two comparisons of compare.hpp.
-- Invariant models invariant/coordinator.hpp, with what it calls in other visitors as a function
-- on a state of its own. Canonicalization models the members of canon_state in
-- canonicalization.hpp that keep the best leaf: report_leaf, prune_canon_leaf and
-- get_canonical_permutation.
--
-- Refine models refine/WL_1.hpp: its data in Refine itself; the queue of refiner cells in
-- Refine.Queue; the loops that count neighbours in Refine.Count, with for_each_neighbour of
-- detail/visitor_utils.hpp; the search for split positions in Refine.Refinee; the rest of
-- handle_refinee and refine_with_singleton_cell in Refine.Handle; reset_cell_beginnings in
-- Refine.Reset; refine_with_cell and the loop of refine in Refine.CellRefiner. Enqueue and
-- Pending prove what is queued; Rearranged, RefineeCells, Hits and Neighbours what counting does;
-- Classification and Analysis what the analysis of the refinees decides; Singleton, Separation,
-- Equitable, Ordering and SingletonRefiner follow a refinement by one vertex from the counts to
-- the partition that it leaves. EdgeHandler and Refine.Refinee have the edge handler and the
-- visitor as records of functions, each with a state of its own; a visitor sees the partition but
-- does not change it.
--
-- The Boost graph, its index map and its edges are a parameter (the record Graph): vertex
-- descriptors are identified with their indices. `std::sort` of edges is a parameter that
-- permutes its range, and that of the refinees, which have different first indices, is an
-- insertion sort. The `std::sort` of sort_range is a parameter that sorts by the counters. The
-- edge handler is a parameter. The calls of the visitor in report_leaf are returned as a list of
-- events. Loops over a range are recursions on the number of rounds; the loops over cells and
-- partition_range take fuel, n + 1 rounds or one more than the length of the range. Assertions of
-- the source are not executed. The loop of reset_cell_beginnings has n + 1 rounds of fuel too,
-- find_root as many as there are children, a cycle of the counting sorter as many as the range
-- has elements, and automorphism_leaf one more than the level of a node, prune_subtree more than
-- the height of the node; make_equitable takes its fuel as an argument, and so does the stack of
-- the depth-first traversal; that of refine, whose queue grows, takes its fuel as an argument.
-- Input and output, the debug and statistics visitors, the command line programs and the group
-- library PermGroup are not modelled.
pub mod AutPruner
pub mod Base
pub mod Partition
pub mod SortingUtils
pub mod TargetCell
pub mod EdgeHandler
pub mod OrderedGraph
pub mod PermutedGraph
pub mod Refine
pub mod Invariant
pub mod SearchTree
pub mod Canonicalization
pub mod Traversal
mod Tests
