-- ===== src/Examples.antt =====
-- Tests of the definitions, and each theorem with conditions at one concrete input.
mod Names
mod Lifecycle
mod Status
mod Fixtures
mod Graphs
mod Queue
mod Runs
mod Plans
mod Work
mod Paths
