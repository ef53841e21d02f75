-- ===== src/Proposals/Aliases.antt =====
-- src/core/proposals/index.ts: `resolveProposalAliases`, which gives the new nodes of a proposal their
-- ids. A binding stands beside its operation, where the code has a map by the operation's index.
pub mod Fresh
use Prim.Native.Char.{code}
use text.Mathlib.Text.{starts_with}
use vcode.Base.{
  ℕ, zero, String, Bool, true, false, List, [], ◌∷◌, Option, none, some, ◌==◌, nat_eq,
  if◌then◌else◌, or_else,
}
use vcode.Base.Dict.{Dict, get, set, keys}
use vcode.Decimal.{◌∷◌ as ◌∷ˢ◌}
use vcode.Doubles.{number_text, next_number, parse_int}
use vcode.Graph.Store.{Graph}
use vcode.Graph.Numbering.{highest}
use vcode.Proposals.{ProposalAlias, GraphProposalOp, AddTaskProposalOp}

-- `resolved` with the three counters.
pub record AliasState : Type 0 where
  pub resolved : Dict String
  pub m : ℕ
  pub f : ℕ
  pub t : ℕ

pub record AliasBinding : Type 0 where
  pub alias : ProposalAlias
  pub concrete : String

abbrev pub is_alias : String → Bool
is_alias id = starts_with id "#"

-- `key.slice(idx + 1)` for the first hyphen, if there is one.
unfoldable pub after_hyphen : String → Option String
after_hyphen String.[] = none
after_hyphen (c ∷ˢ s) = let rest = after_hyphen s in if code c == b'-' then some s else rest

unfoldable pub suffix_number : String → Option (Bool × ℕ)
suffix_number key = elim (after_hyphen key) [ none ↦ none | some s ↦ parse_int s ]

abbrev pub max_numeric_suffix : List String → ℕ
max_numeric_suffix ks = highest suffix_number ks zero

abbrev pub milestone_id_of : ℕ → String
milestone_id_of n = "m" ∷ˢ "-" ∷ˢ number_text n

abbrev pub feature_id_of : ℕ → String
feature_id_of n = "f" ∷ˢ "-" ∷ˢ number_text n

abbrev pub task_id_of : ℕ → String
task_id_of n = "t" ∷ˢ "-" ∷ˢ number_text n

unfoldable pub allocate_milestone_alias : String → AliasState → String × AliasState
allocate_milestone_alias id s =
    if is_alias id
    then (
      milestone_id_of (next_number s.m),
      record s {
        m = next_number s.m;
        resolved = set id (milestone_id_of (next_number s.m)) s.resolved;
      },
    )
    else (id, s)

unfoldable pub allocate_feature_alias : String → AliasState → String × AliasState
allocate_feature_alias id s =
    if is_alias id
    then (
      feature_id_of (next_number s.f),
      record s {
        f = next_number s.f;
        resolved = set id (feature_id_of (next_number s.f)) s.resolved;
      },
    )
    else (id, s)

unfoldable pub allocate_task_alias : String → AliasState → String × AliasState
allocate_task_alias id s =
    if is_alias id
    then (
      task_id_of (next_number s.t),
      record s { t = next_number s.t; resolved = set id (task_id_of (next_number s.t)) s.resolved },
    )
    else (id, s)

-- `resolveMilestoneRef`, `resolveFeatureRef`, `resolveTaskRef` and `resolveEndpointRef`, which differ
-- in their types only.
abbrev pub resolve_ref : String → Dict String → String
resolve_ref id resolved = if is_alias id then or_else (get id resolved) id else id

abbrev alias_if : String → Option ProposalAlias
alias_if id = if is_alias id then some id else none

unfoldable pub declared_alias : GraphProposalOp → Option ProposalAlias
declared_alias (GraphProposalOp.add_milestone id name description) = alias_if id
declared_alias (GraphProposalOp.add_feature id milestone_id name description) = alias_if id
declared_alias (GraphProposalOp.add_task op) = alias_if op.task_id
declared_alias _ = none

abbrev pub with_ids : AddTaskProposalOp → String → String → AddTaskProposalOp
with_ids op task_id feature_id = record op { task_id = task_id; feature_id = feature_id }

unfoldable pub rewrite_op : GraphProposalOp → AliasState → GraphProposalOp × AliasState
rewrite_op (GraphProposalOp.add_milestone id name description) s =
    let (id', s') = allocate_milestone_alias id s in
    (GraphProposalOp.add_milestone id' name description, s')
rewrite_op (GraphProposalOp.add_feature id milestone_id name description) s =
    let (id', s') = allocate_feature_alias id s in
    (GraphProposalOp.add_feature id' (resolve_ref milestone_id s'.resolved) name description, s')
rewrite_op (GraphProposalOp.add_task op) s =
    let (id', s') = allocate_task_alias op.task_id s in
    (GraphProposalOp.add_task (with_ids op id' (resolve_ref op.feature_id s'.resolved)), s')
rewrite_op (GraphProposalOp.remove_feature id) s =
    (GraphProposalOp.remove_feature (resolve_ref id s.resolved), s)
rewrite_op (GraphProposalOp.edit_feature id patch) s =
    (GraphProposalOp.edit_feature (resolve_ref id s.resolved) patch, s)
rewrite_op (GraphProposalOp.remove_task id) s =
    (GraphProposalOp.remove_task (resolve_ref id s.resolved), s)
rewrite_op (GraphProposalOp.edit_task id patch) s =
    (GraphProposalOp.edit_task (resolve_ref id s.resolved) patch, s)
rewrite_op (GraphProposalOp.add_dependency from to) s =
    (GraphProposalOp.add_dependency (resolve_ref from s.resolved) (resolve_ref to s.resolved), s)
rewrite_op (GraphProposalOp.remove_dependency from to) s =
    (GraphProposalOp.remove_dependency (resolve_ref from s.resolved) (resolve_ref to s.resolved), s)

-- `aliasForOp.set(index, …)`, if the operation declares an alias that is resolved.
unfoldable pub binding_of : Option ProposalAlias → Dict String → Option AliasBinding
binding_of none resolved = none
binding_of (some alias) resolved = elim (get alias resolved) [
  | none ↦ none
  | some concrete ↦ some (record { alias = alias; concrete = concrete })
]

abbrev pub ResolvedOp : Type 0
ResolvedOp = GraphProposalOp × Option AliasBinding

-- The loop over the operations.
unfoldable pub resolve_ops : List GraphProposalOp → AliasState → List ResolvedOp
unfolding declared_alias
resolve_ops [] s = []
resolve_ops (op ∷ ops) s =
    let (next, s') = rewrite_op op s in
    (next, binding_of (declared_alias op) s'.resolved) ∷ resolve_ops ops s'

abbrev pub alias_start : Graph → AliasState
alias_start graph = record {
  resolved = [];
  m = max_numeric_suffix (keys graph.milestones);
  f = max_numeric_suffix (keys graph.features);
  t = max_numeric_suffix (keys graph.tasks);
}

abbrev pub resolve_proposal_aliases : Graph → List GraphProposalOp → List ResolvedOp
resolve_proposal_aliases graph ops = resolve_ops ops (alias_start graph)
