-- ===== src/Tests.antt =====
-- The theorems at concrete inputs, by the part of the program they are about.
mod Sets
mod Solver
mod Contexts
mod Mirror
mod Pairs
mod Instances
mod Graphs
mod Paths
mod Alive
mod Assign
mod Flow
