-- ===== src/Examples/Runs.antt =====
-- A run of graph operations from the empty graph, and its queue of milestones.
use vcode.Base.{◌≡◌, refl, includes}
use vcode.Base.Dict.{get, set}
use vcode.Base.Results.{ok}
use vcode.Graph.Store.{Graph}
use vcode.Graph.Invariant.{IsWellFormed, DepsKnown}
use vcode.Graph.Creation.{
  CreateMilestoneOptions, create_milestone, create_feature, check_feature_deps, check_paths,
  link_all,
}
use vcode.Graph.Steps.{
  at_start, then_step, milestone_created, feature_created, empty_graph, GraphReach-IsWellFormed,
}
use vcode.Examples.Fixtures.{after, feature_options}

abbrev first_milestone : CreateMilestoneOptions
first_milestone = record { id = "m-1"; name = "First"; description = "" }

abbrev planned : Graph
planned = after empty_graph (create_milestone empty_graph first_milestone)

abbrev populated : Graph
populated = after planned (create_feature planned (feature_options "f-api"))

planning : create_milestone empty_graph first_milestone ≡ ok planned
unfolding create_milestone get
planning = refl

populating : create_feature planned (feature_options "f-api") ≡ ok populated
unfolding create_milestone create_feature get set includes check_feature_deps check_paths link_all
populating = refl

GraphReach-IsWellFormed_example : IsWellFormed populated × DepsKnown populated
GraphReach-IsWellFormed_example = GraphReach-IsWellFormed populated (
    then_step (then_step at_start (milestone_created first_milestone planning))
      (feature_created (feature_options "f-api") populating))
