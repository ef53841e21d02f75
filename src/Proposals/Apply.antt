-- ===== src/Proposals/Apply.antt =====
-- src/core/proposals/index.ts: `applyGraphProposal` with `applyProposalOp`.
pub mod Kept
pub mod Replay
pub mod Report
pub mod Status
pub mod Started
use Prim.Native.String.{◌++◌ as ◌++ˢ◌}
use vcode.Base.{
  ℕ, zero, suc, String, Bool, true, false, ◌&&◌, ◌||◌, not, List, [], ◌∷◌, ◌++◌, Option, none, some,
  is_some, length, if◌then◌else◌,
}
use vcode.Base.Dict.{Dict, set}
use vcode.Base.Results.{Result, ok, err}
use vcode.Decimal.{show_nat}
use vcode.Graph.Store.{Graph, GraphError, Outcome}
use vcode.Graph.Creation.{
  CreateMilestoneOptions, CreateFeatureOptions, CreateTaskOptions, create_milestone, create_feature,
  create_task,
}
use vcode.Graph.Mutations.{edit_task, remove_task, change_milestone}
use vcode.Graph.Features.{FeatureEditPatch, remove_feature, edit_feature, keep_block}
use vcode.Graph.Dependencies.{
  add_feature_dependency, add_task_dependency, remove_feature_dependency, remove_task_dependency,
  add_dependency, remove_dependency,
}
use vcode.Proposals.{
  GraphProposal, GraphProposalOp, AddTaskProposalOp, PlannerFeatureEditPatch, ProposalWarning,
  ProposalSkippedOp, ProposalApplyResult, SkipReason, StaleReason, stale, refused,
  is_graph_proposal,
}
use vcode.Proposals.Stale.{stale_reason_for_op, warnings_for_op}
use vcode.Proposals.Aliases.{AliasBinding, ResolvedOp, resolve_proposal_aliases}

-- A call that throws leaves a graph too.
abbrev pub Attempt : Type 0
Attempt = Graph × Option GraphError

-- An operation of the graph checks all before it writes: when it throws, the graph is as it was.
abbrev pub attempt : Graph → Outcome → Attempt
attempt graph (ok h) = (h, none)
attempt graph (err e) = (graph, some e)

-- `Object.keys(rest).length > 0`
abbrev pub has_rest : PlannerFeatureEditPatch → Bool
has_rest p =
    is_some p.name
    || is_some p.description
    || is_some p.summary
    || is_some p.rough_draft
    || is_some p.discuss_output
    || is_some p.research_output
    || is_some p.feature_objective
    || is_some p.feature_dod
    || is_some p.verify_issues

-- The patch without `milestoneId`, as `editFeature` takes it.
abbrev pub rest_of : PlannerFeatureEditPatch → FeatureEditPatch
rest_of p = record {
  name = p.name;
  description = p.description;
  summary = p.summary;
  rough_draft = p.rough_draft;
  discuss_output = p.discuss_output;
  research_output = p.research_output;
  feature_objective = p.feature_objective;
  feature_dod = p.feature_dod;
  verify_issues = p.verify_issues;
  runtime_blocked_by_feature_id = keep_block;
  main_merge_sha = none;
  branch_head_sha = none;
}

abbrev pub edit_rest : Graph → String → PlannerFeatureEditPatch → Attempt
edit_rest graph id patch =
    if has_rest patch then attempt graph (edit_feature graph id (rest_of patch)) else (graph, none)

-- `editFeature` after `changeMilestone`, if that did not throw.
abbrev pub edit_moved : Graph → String → PlannerFeatureEditPatch → Outcome → Attempt
edit_moved graph id patch (ok moved) = edit_rest moved id patch
edit_moved graph id patch (err e) = (graph, some e)

-- The milestone is changed first, and stays changed when the edit throws.
abbrev pub move_and_edit : Graph → String → PlannerFeatureEditPatch → Option String → Attempt
move_and_edit graph id patch none = edit_rest graph id patch
move_and_edit graph id patch (some m) = edit_moved graph id patch (change_milestone graph id m)

abbrev pub new_milestone_options : String → String → String → CreateMilestoneOptions
new_milestone_options id name description = record {
  id = id;
  name = name;
  description = description;
}

abbrev pub new_feature_options : String → String → String → String → CreateFeatureOptions
new_feature_options id milestone_id name description = record {
  id = id;
  milestone_id = milestone_id;
  name = name;
  description = description;
  depends_on = none;
}

abbrev pub create_options : AddTaskProposalOp → CreateTaskOptions
create_options op = record {
  id = op.task_id;
  feature_id = op.feature_id;
  description = op.description;
  depends_on = none;
  weight = op.weight;
  reserved_write_paths = op.reserved_write_paths;
  objective = op.objective;
  scope = op.scope;
  expected_files = op.expected_files;
  references = op.references;
  outcome_verification = op.outcome_verification;
}

-- Both kinds of dependency go to one method, which looks at the first end again.
unfoldable pub apply_proposal_op : Graph → GraphProposalOp → Attempt
apply_proposal_op graph (GraphProposalOp.add_milestone id name description) =
    attempt graph (create_milestone graph (new_milestone_options id name description))
apply_proposal_op graph (GraphProposalOp.add_feature id milestone_id name description) =
    attempt graph (create_feature graph (new_feature_options id milestone_id name description))
apply_proposal_op graph (GraphProposalOp.remove_feature id) =
    attempt graph (remove_feature graph id)
apply_proposal_op graph (GraphProposalOp.edit_feature id patch) =
    move_and_edit graph id patch patch.milestone_id
apply_proposal_op graph (GraphProposalOp.add_task op) =
    attempt graph (create_task graph (create_options op))
apply_proposal_op graph (GraphProposalOp.remove_task id) = attempt graph (remove_task graph id)
apply_proposal_op graph (GraphProposalOp.edit_task id patch) =
    attempt graph (edit_task graph id patch)
apply_proposal_op graph (GraphProposalOp.add_dependency from to) =
    attempt graph (add_dependency graph from to)
apply_proposal_op graph (GraphProposalOp.remove_dependency from to) =
    attempt graph (remove_dependency graph from to)

-- The variables of the loop.
pub record Progress : Type 0 where
  pub graph : Graph
  pub applied : List GraphProposalOp
  pub skipped : List ProposalSkippedOp
  pub resolved_aliases : Dict String

abbrev pub bind_alias : Option AliasBinding → Dict String → Dict String
bind_alias none aliases = aliases
bind_alias (some binding) aliases = set binding.alias binding.concrete aliases

abbrev pub skip : ℕ → GraphProposalOp → SkipReason → Progress → Progress
skip index op reason p = record p {
  skipped = p.skipped ++ record { op_index = index; op = op; reason = reason } ∷ [];
}

-- What a round notes of an attempt.
abbrev pub note_attempt : ℕ → ResolvedOp → Progress → Attempt → Progress
note_attempt index (op, binding) p (graph, some e) =
    skip index op (refused e) (record p { graph = graph })
note_attempt index (op, binding) p (graph, none) = record p {
  graph = graph;
  applied = p.applied ++ op ∷ [];
  resolved_aliases = bind_alias binding p.resolved_aliases;
}

-- One round, by the reason not to try the operation.
abbrev pub judge : ℕ → ResolvedOp → Progress → Option StaleReason → Progress
judge index (op, binding) p (some reason) = skip index op (stale reason) p
judge index (op, binding) p none = note_attempt index (op, binding) p (apply_proposal_op p.graph op)

unfoldable pub run_op : ℕ → ResolvedOp → Progress → Progress
run_op index r p = judge index r p (stale_reason_for_op p.graph r.0)

unfoldable pub run_ops : ℕ → List ResolvedOp → Progress → Progress
run_ops index [] p = p
run_ops index (r ∷ rs) p = run_ops (suc index) rs (run_op index r p)

unfoldable pub collect_warnings : Graph → ℕ → List GraphProposalOp → List ProposalWarning
collect_warnings graph index [] = []
collect_warnings graph index (op ∷ ops) =
    warnings_for_op graph index op ++ collect_warnings graph (suc index) ops

abbrev pub collect_proposal_warnings : Graph → GraphProposal → List ProposalWarning
collect_proposal_warnings graph proposal = collect_warnings graph 0 proposal.ops

unfoldable pub bump_graph_version : Graph → Graph
bump_graph_version graph = record graph { graph_version = suc graph.graph_version }

abbrev pub bump_if_applied : List GraphProposalOp → Graph → Graph
bump_if_applied [] graph = graph
bump_if_applied (op ∷ ops) graph = bump_graph_version graph

abbrev pub run_proposal : Graph → GraphProposal → Progress
run_proposal graph proposal =
    run_ops 0 (resolve_proposal_aliases graph proposal.ops)
      (record { graph = graph; applied = []; skipped = []; resolved_aliases = [] })

abbrev pub summary_of : ℕ → ℕ → ℕ → String
summary_of applied skipped warnings =
    show_nat applied
    ++ˢ " applied, "
    ++ˢ show_nat skipped
    ++ˢ " skipped, "
    ++ˢ show_nat warnings
    ++ˢ " warnings"

-- The graph that is left with what is returned; `none` for an invalid payload, before any change.
unfoldable pub apply_graph_proposal : Graph → GraphProposal → Option (Graph × ProposalApplyResult)
apply_graph_proposal graph proposal =
    if not (is_graph_proposal proposal)
    then none
    else (let done = run_proposal graph proposal in
        let warnings = collect_proposal_warnings graph proposal in
        some (
          bump_if_applied done.applied done.graph,
          record {
            proposal = proposal;
            applied = done.applied;
            skipped = done.skipped;
            warnings = warnings;
            summary = summary_of (length done.applied) (length done.skipped) (length warnings);
            resolved_aliases = done.resolved_aliases;
          },
        ))
