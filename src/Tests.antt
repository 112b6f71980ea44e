-- ===== src/Tests.antt =====
-- Runs of the model at concrete inputs, and instances of the theorems. Nothing else uses them.
mod Partitions
mod Cells
mod Leaves
mod Refinement
mod CellRefiner
mod Traces
mod Pruning
mod Graphs
mod Traversals
mod Sorting
mod Trees
mod Creation
