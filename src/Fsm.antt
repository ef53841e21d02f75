-- ===== src/Fsm.antt =====
-- src/core/fsm/index.ts: which changes of state a feature and a task may make.
pub mod Table
pub mod Feature
pub mod Task
pub mod Relation
pub mod Laws
pub mod Lifecycle
pub mod TaskLaws
pub mod TaskLifecycle
