-- ===== src/Types.antt =====
-- src/core/types: the data model of milestones, features and tasks, and of the runs of agents.
pub mod Workflow
pub mod Payload
pub mod Domain
pub mod Runs
