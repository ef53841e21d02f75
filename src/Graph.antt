-- ===== src/Graph.antt =====
-- src/core/graph: the feature graph, its operations, and what they keep.
pub mod Search
pub mod Store
pub mod Index
pub mod Invariant
pub mod Dependencies
pub mod Creation
pub mod Mutations
pub mod Side
pub mod Features
pub mod Transitions
pub mod Numbering
pub mod Snapshot
pub mod Queries
pub mod Known
pub mod Steps
