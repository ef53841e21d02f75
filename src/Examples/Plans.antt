-- ===== src/Examples/Plans.antt =====
-- The theorems on proposals, and on cancelling, removing and adding, at small graphs.
use vcode.Base.{
  ℕ, ◌<◌, String, ◌≡◌, ◌≢◌, refl, [], ◌∷◌, Option, none, some, true, arith, Memᴰ, includes,
  string_eq, add_to_set,
}
use mathlib.Core.List.Memᴰ
use vcode.Base.Dict.{get, set, values, keys}
use vcode.Base.Results.{ok}
use vcode.Types.Workflow.{UnitStatus, unit_status_eq}
use vcode.Types.Domain.{Feature, Task}
use vcode.Decimal.{
  show_nat, emit, parse_integer, parse_signed, parse_digits, skip_spaces, scan, larger,
}
use vcode.Doubles.{rounded, parse_int, number_text}
use vcode.Graph.Store.{Graph, link}
use vcode.Graph.Search.{nexts, has_path_via_successors, search, push_all, edge_count}
use vcode.Graph.Side.{IsConsistent, IsConsistent-of}
use vcode.Graph.Creation.{
  create_feature, create_task, check_feature_deps, check_task_deps, check_paths, link_all,
  new_feature, next_feature_order,
}
use vcode.Graph.Dependencies.{add_dependency, add_feature_dependency, is_feature_dependency}
use vcode.Graph.Features.{cancel_feature, remove_feature}
use vcode.Graph.Features.Cancel.{Cancelled}
use vcode.Graph.Features.Cancel.Fuel.{cancel_cascade-Cancelled}
use vcode.Graph.Features.Removal.{remove_feature-IsConsistent}
use vcode.Graph.Numbering.{AddTaskOptions, add_task, task_id, highest}
use vcode.Graph.Numbering.Added.{add_task-adds, IsTaskOf, IsExact}
use vcode.Proposals.{GraphProposalOp, GraphProposal, ProposalApplyResult, plan, replan}
use vcode.Proposals.Stale.{stale_reason_for_op, dependency_reason, warnings_for_op}
use vcode.Proposals.Aliases.{
  resolve_proposal_aliases, resolve_ops, rewrite_op, allocate_feature_alias, declared_alias,
  binding_of, suffix_number, after_hyphen,
}
use vcode.Proposals.Apply.{
  apply_graph_proposal, apply_proposal_op, run_op, run_ops, collect_warnings, bump_graph_version,
  bump_if_applied,
}
use vcode.Proposals.Apply.Kept.{apply_graph_proposal-IsConsistent}
use vcode.Proposals.Apply.Replay.{replay, apply-replay}
use vcode.Proposals.Apply.Report.{Divided, apply-Divided}
use vcode.Proposals.Apply.Started.{apply-HasStatus}
use vcode.Proposals.Apply.Status.{HasStatus}
use vcode.Proposals.Builder.{new_builder, allocate_alias, alias_for, build, resolve_proposal_alias}
use vcode.Proposals.Builder.RoundTrip.{made, resolve-allocate}
use vcode.Examples.Fixtures.{
  after, start, feature_options, with_ui, with_api, linked, start-IsWellFormed, start-DepsKnown,
  api-kept, ui-kept,
}

-- Two features under aliases, the second on the first, and a removal of a feature that is not there.
abbrev proposal : GraphProposal
proposal = record {
  mode = plan;
  aliases = [];
  ops =
      GraphProposalOp.add_feature "#1" "m-1" "Api" ""
      ∷ GraphProposalOp.add_feature "#2" "m-1" "Ui" ""
      ∷ GraphProposalOp.add_dependency "#2" "#1"
      ∷ GraphProposalOp.remove_feature "f-9"
      ∷ [];
}

abbrev returned :
    Graph → GraphProposal → Option (Graph × ProposalApplyResult) → Graph × ProposalApplyResult
returned g p none = (
  g,
  record {
    proposal = p;
    applied = [];
    skipped = [];
    warnings = [];
    summary = "";
    resolved_aliases = [];
  },
)
returned g p (some r) = r

abbrev planned : Graph × ProposalApplyResult
planned = returned start proposal (apply_graph_proposal start proposal)

planning : apply_graph_proposal start proposal ≡ some planned
unfolding apply_graph_proposal
planning = refl

apply_graph_proposal-IsConsistent_example : IsConsistent planned.0
apply_graph_proposal-IsConsistent_example =
    apply_graph_proposal-IsConsistent start planned.0 proposal planned.1
      (IsConsistent-of start (start-IsWellFormed, start-DepsKnown)) planning

apply-replay_example :
    (f : Graph) × (replay planned.1.applied start ≡ some f)
    × (planned.0 ≡ bump_if_applied planned.1.applied f)
apply-replay_example =
    apply-replay start planned.0 proposal planned.1 (refl, (refl, (refl, (refl, tt)))) planning

apply-Divided_example :
    Divided 0 (resolve_proposal_aliases start proposal.ops) planned.1.applied planned.1.skipped
apply-Divided_example = apply-Divided start planned.0 proposal planned.1 planning

-- What the proposal does: three operations are applied, and the fourth is skipped.
planned_features :
    (keys planned.0.features ≡ "f-1" ∷ "f-2" ∷ [])
    × (planned.1.summary ≡ "3 applied, 1 skipped, 0 warnings")
    × (planned.0.graph_version ≡ 1)
unfolding apply_graph_proposal run_ops run_op stale_reason_for_op apply_proposal_op keys highest
    suffix_number after_hyphen parse_int parse_integer rounded number_text skip_spaces parse_signed
    parse_digits scan larger show_nat emit resolve_ops rewrite_op allocate_feature_alias
    declared_alias binding_of create_feature get set check_feature_deps check_paths link_all
    includes dependency_reason add_dependency add_feature_dependency is_feature_dependency
    has_path_via_successors search nexts push_all edge_count link add_to_set collect_warnings
    warnings_for_op bump_graph_version values
planned_features = (refl, refl, refl)

-- A feature that is under way, and a proposal that would remove it.
abbrev api : Feature
api = record (new_feature (feature_options "f-api") 0) { status = UnitStatus.in_progress }

abbrev busy : Graph
busy = record start { features = ("f-api", api) ∷ [] }

abbrev removal : GraphProposal
removal = record { mode = replan; aliases = []; ops = GraphProposalOp.remove_feature "f-api" ∷ [] }

abbrev kept : Graph × ProposalApplyResult
kept = returned busy removal (apply_graph_proposal busy removal)

keeping : apply_graph_proposal busy removal ≡ some kept
unfolding apply_graph_proposal
keeping = refl

started : UnitStatus.in_progress ≢ UnitStatus.pending
started e = cc

apply-HasStatus_example : HasStatus "f-api" UnitStatus.in_progress kept.0
unfolding get
apply-HasStatus_example =
    apply-HasStatus busy kept.0 removal kept.1 "f-api" UnitStatus.in_progress started
      (api, refl, refl) keeping

resolve-allocate_example :
    (resolve_proposal_alias
        (build (allocate_alias (new_builder plan) "f-7").1)
        (allocate_alias (new_builder plan) "f-7").0
      ≡ some "f-7")
    × (alias_for (allocate_alias (new_builder plan) "f-7").1 "f-7"
        ≡ some (allocate_alias (new_builder plan) "f-7").0)
    × ((a j : String)
        → resolve_proposal_alias (build (new_builder plan)) a ≡ some j
        → resolve_proposal_alias (build (allocate_alias (new_builder plan) "f-7").1) a ≡ some j)
resolve-allocate_example = resolve-allocate (new_builder plan) "f-7" (made plan)

linked_api : get "f-api" linked.features ≡ some (new_feature (feature_options "f-api") 0)
unfolding get add_dependency add_feature_dependency is_feature_dependency create_task create_feature
    set includes check_feature_deps check_task_deps check_paths link_all link
    has_path_via_successors search nexts push_all edge_count add_to_set next_feature_order values
linked_api = refl

cancel_cascade-Cancelled_example :
    (h : Graph) × (cancel_feature linked "f-api" true ≡ ok h) × Cancelled "f-api" linked h
cancel_cascade-Cancelled_example =
    cancel_cascade-Cancelled linked "f-api" (new_feature (feature_options "f-api") 0) linked_api

abbrev without_ui : Graph
without_ui = after with_ui (remove_feature with_ui "f-ui")

ui_removed : remove_feature with_ui "f-ui" ≡ ok without_ui
unfolding remove_feature create_feature get set includes check_feature_deps check_paths link_all
ui_removed = refl

remove_feature-IsConsistent_example :
    IsConsistent without_ui × (get "f-ui" without_ui.features ≡ none)
remove_feature-IsConsistent_example =
    remove_feature-IsConsistent with_ui without_ui "f-ui" (IsConsistent-of with_ui ui-kept)
      ui_removed

abbrev task_to_add : AddTaskOptions
task_to_add = record {
  feature_id = "f-api";
  description = "";
  deps = none;
  weight = none;
  reserved_write_paths = none;
  objective = none;
  scope = none;
  expected_files = none;
  references = none;
  outcome_verification = none;
}

api_there : get "f-api" with_api.features ≡ some (new_feature (feature_options "f-api") 0)
unfolding get set create_feature includes check_feature_deps check_paths link_all next_feature_order
    values
api_there = refl

no_tasks : IsExact with_api
unfolding keys create_feature get check_feature_deps includes check_paths
no_tasks = (omega arith, λ id n m read. absurd (Memᴰ.not-nil m))

no_deps : (d : String) → Memᴰ d [] → IsTaskOf with_api "f-api" d
no_deps d m = absurd (Memᴰ.not-nil m)

add_task-adds_example :
    (h : Graph) × (n : ℕ) × (t : Task) × (add_task with_api task_to_add ≡ ok h)
    × (with_api.task_id_counter < n)
    × (h.task_id_counter ≡ n)
    × (get (task_id n) with_api.tasks ≡ none)
    × (h.tasks ≡ set (task_id n) t with_api.tasks)
    × (t.feature_id ≡ "f-api")
    × (t.depends_on ≡ [])
    × (h.features ≡ with_api.features)
    × IsConsistent h
add_task-adds_example =
    add_task-adds with_api task_to_add (new_feature (feature_options "f-api") 0)
      (IsConsistent-of with_api api-kept) no_tasks api_there refl refl no_deps
