-- ===== src/Scheduling/Priority/Ranked.antt =====
-- The order of the units that `prioritizeReadyWork` of src/core/scheduling/index.ts returns, in terms of
-- their features, milestones and tasks.
use vcode.Base.Dict.{Dict}
use vcode.Types.Workflow.{task_status_eq}
use vcode.Graph.Store.{Graph}
