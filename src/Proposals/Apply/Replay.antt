-- ===== src/Proposals/Apply/Replay.antt =====
-- What `applyGraphProposal` of src/core/proposals/index.ts reports against what it did: the operations
-- that it lists as applied, run again one after the other, and the sorting of the operations.
use vcode.Base.{
  ℕ, suc, String, ◌≡◌, refl, ◌∙◌, inl, inr, arith, Bool, true, false, ◌&&◌, List, [], ◌∷◌, ◌++◌,
  Option, none, some, Bool-cases, not, is_some, map, All,
}
use vcode.Base.Results.{ok, err}
use vcode.Graph.Store.{Graph, GraphError, Outcome}
use vcode.Graph.Creation.{create_milestone, create_feature, create_task}
use vcode.Graph.Mutations.{edit_task, remove_task, change_milestone}
use vcode.Graph.Dependencies.{add_dependency, remove_dependency}
use vcode.Graph.Features.{remove_feature, edit_feature}
use vcode.Proposals.{
  GraphProposal, GraphProposalOp, PlannerFeatureEditPatch, ProposalApplyResult, StaleReason,
}
use vcode.Proposals.Stale.{stale_reason_for_op}
use vcode.Proposals.Aliases.{
  ResolvedOp, AliasState, rewrite_op, resolve_ops, resolve_proposal_aliases,
}
use vcode.Proposals.Apply.{
  Attempt, attempt, has_rest, rest_of, new_milestone_options, new_feature_options, create_options,
  edit_rest, edit_moved, move_and_edit, apply_proposal_op, Progress, note_attempt, judge, run_op,
  run_ops, run_proposal, bump_if_applied, apply_graph_proposal,
}

-- The operations run one after the other, without any test before: `none` when one throws.
abbrev pub then_replay : (Graph → Option Graph) → Attempt → Option Graph
then_replay rest (h, none) = rest h
then_replay rest (h, some e) = none

unfoldable pub replay : List GraphProposalOp → Graph → Option Graph
replay [] g = some g
replay (op ∷ ops) g = then_replay (replay ops) (apply_proposal_op g op)

-- All operations but an edit that changes the milestone and other fields too.
abbrev pub is_single : GraphProposalOp → Bool
is_single (GraphProposalOp.edit_feature id patch) =
    not (is_some patch.milestone_id && has_rest patch)
is_single _ = true

abbrev Undone : Graph → Attempt → Type 0
Undone g a = (h : Graph) (e : GraphError) → a ≡ (h, some e) → h ≡ g

attempt-Undone : (g : Graph) (o : Outcome) → Undone g (attempt g o)
attempt-Undone g (ok k) h e eq = cc
attempt-Undone g (err x) h e eq = cc

not_thrown : {g h : Graph} {e : GraphError} → ¬ (◌≡◌ {A = Attempt} (g, none) (h, some e))
not_thrown q = cc

edit_rest-Undone :
    (g : Graph) (id : String) (patch : PlannerFeatureEditPatch) → Undone g (edit_rest g id patch)
edit_rest-Undone g id patch h e eq = elim (Bool-cases (has_rest patch)) [
  | inl more ↦ attempt-Undone g (edit_feature g id (rest_of patch)) h e (rw more at eq)
  | inr over ↦ absurd (not_thrown (rw over at eq))
]

moved-Undone :
    (g : Graph) (id : String) (patch : PlannerFeatureEditPatch) (o : Outcome)
    → has_rest patch ≡ false
    → Undone g (edit_moved g id patch o)
moved-Undone g id patch (ok k) over h e eq = absurd (not_thrown (rw over at eq))
moved-Undone g id patch (err x) over h e eq = cc

move-Undone :
    (g : Graph) (id : String) (patch : PlannerFeatureEditPatch) (o : Option String)
    → not (is_some o && has_rest patch) ≡ true
    → Undone g (move_and_edit g id patch o)
move-Undone g id patch none s = edit_rest-Undone g id patch
move-Undone g id patch (some m) s = moved-Undone g id patch (change_milestone g id m) (ground arith)

-- An operation of that kind that throws has changed nothing.
single-Undone :
    (g : Graph) (op : GraphProposalOp) → is_single op ≡ true → Undone g (apply_proposal_op g op)
unfolding apply_proposal_op
single-Undone g (GraphProposalOp.edit_feature id patch) s =
    move-Undone g id patch patch.milestone_id s
single-Undone g (GraphProposalOp.add_milestone id name description) s =
    attempt-Undone g (create_milestone g (new_milestone_options id name description))
single-Undone g (GraphProposalOp.add_feature id m name description) s =
    attempt-Undone g (create_feature g (new_feature_options id m name description))
single-Undone g (GraphProposalOp.remove_feature id) s = attempt-Undone g (remove_feature g id)
single-Undone g (GraphProposalOp.add_task op) s =
    attempt-Undone g (create_task g (create_options op))
single-Undone g (GraphProposalOp.remove_task id) s = attempt-Undone g (remove_task g id)
single-Undone g (GraphProposalOp.edit_task id patch) s = attempt-Undone g (edit_task g id patch)
single-Undone g (GraphProposalOp.add_dependency from to) s =
    attempt-Undone g (add_dependency g from to)
single-Undone g (GraphProposalOp.remove_dependency from to) s =
    attempt-Undone g (remove_dependency g from to)

then_replay-append :
    (a : Attempt) (r r' : Graph → Option Graph) (f h : Graph)
    → ((k : Graph) → r k ≡ some f → r' k ≡ some h)
    → then_replay r a ≡ some f
    → then_replay r' a ≡ some h
then_replay-append (k, none) r r' f h more e = more k e
then_replay-append (k, some x) r r' f h more e = cc

replay-append :
    (xs : List GraphProposalOp) (op : GraphProposalOp) (g f h : Graph)
    → replay xs g ≡ some f
    → apply_proposal_op f op ≡ (h, none)
    → replay (xs ++ op ∷ []) g ≡ some h
unfolding replay
replay-append [] op g f h e a = rw (same e, a) refl
  where
    same : some g ≡ some f → g ≡ f
    same q = cc
replay-append (x ∷ xs) op g f h e a =
    then_replay-append (apply_proposal_op g x) (replay xs) (replay (xs ++ op ∷ [])) f h
      (λ k q. replay-append xs op k f h q a) e

abbrev pub ops_of : List ResolvedOp → List GraphProposalOp
ops_of rs = map (λ r. r.0) rs

module _ (start : Graph) where
  abbrev Replays : Progress → Type 0
  Replays p = replay p.applied start ≡ some p.graph

  note-Replays :
      (index : ℕ) (r : ResolvedOp) (p : Progress) (a : Attempt)
      → apply_proposal_op p.graph r.0 ≡ a
      → Undone p.graph a
      → Replays p
      → Replays (note_attempt index r p a)
  note-Replays index (op, b) p (h, none) e undone k = replay-append p.applied op start p.graph h k e
  note-Replays index (op, b) p (h, some x) e undone k = rw (undone h x refl) k

  judge-Replays :
      (index : ℕ) (r : ResolvedOp) (p : Progress) (o : Option StaleReason)
      → is_single r.0 ≡ true
      → Replays p
      → Replays (judge index r p o)
  judge-Replays index (op, b) p (some reason) s k = k
  judge-Replays index (op, b) p none s k =
      note-Replays index (op, b) p (apply_proposal_op p.graph op) refl (single-Undone p.graph op s)
        k

  run_ops-Replays :
      (index : ℕ) (rs : List ResolvedOp) (p : Progress)
      → All (λ r. is_single r.0 ≡ true) rs
      → Replays p
      → Replays (run_ops index rs p)
  unfolding run_ops run_op
  run_ops-Replays index [] p s k = k
  run_ops-Replays index (r ∷ rs) p (single, singles) k =
      run_ops-Replays (suc index) rs (run_op index r p) singles
        (judge-Replays index r p (stale_reason_for_op p.graph r.0) single k)

-- The ids of an operation do not matter to its kind.
rewrite_op-is_single :
    (op : GraphProposalOp) (s : AliasState) → is_single (rewrite_op op s).0 ≡ is_single op
unfolding rewrite_op
rewrite_op-is_single (GraphProposalOp.edit_feature id patch) s = refl
rewrite_op-is_single (GraphProposalOp.add_milestone id name description) s = refl
rewrite_op-is_single (GraphProposalOp.add_feature id m name description) s = refl
rewrite_op-is_single (GraphProposalOp.remove_feature id) s = refl
rewrite_op-is_single (GraphProposalOp.add_task op) s = refl
rewrite_op-is_single (GraphProposalOp.remove_task id) s = refl
rewrite_op-is_single (GraphProposalOp.edit_task id patch) s = refl
rewrite_op-is_single (GraphProposalOp.add_dependency from to) s = refl
rewrite_op-is_single (GraphProposalOp.remove_dependency from to) s = refl

resolve_ops-is_single :
    (ops : List GraphProposalOp) (s : AliasState)
    → All (λ op. is_single op ≡ true) ops
    → All (λ r. is_single r.0 ≡ true) (resolve_ops ops s)
unfolding resolve_ops
resolve_ops-is_single [] s h = tt
resolve_ops-is_single (op ∷ ops) s (single, singles) =
    (rewrite_op-is_single op s ∙ single, resolve_ops-is_single ops (rewrite_op op s).1 singles)

-- For a proposal without an edit that both moves a feature and changes it, the graph afterwards is the
-- one that the operations listed as applied make of the graph before, each running without an error,
-- and its version is one higher when any was applied: the skipped operations have changed nothing.
pub apply-replay :
    (g h : Graph) (proposal : GraphProposal) (result : ProposalApplyResult)
    → All (λ op. is_single op ≡ true) proposal.ops
    → apply_graph_proposal g proposal ≡ some (h, result)
    → (f : Graph) × (replay result.applied g ≡ some f) × (h ≡ bump_if_applied result.applied f)
unfolding apply_graph_proposal replay
apply-replay g h proposal result singles e =
    let done = run_proposal g proposal in
    let applied : result.applied ≡ done.applied = ground arith in
    let graph : h ≡ bump_if_applied done.applied done.graph = ground arith in
    (
      done.graph,
      rw applied (
          run_ops-Replays g 0 (resolve_proposal_aliases g proposal.ops) _
            (resolve_ops-is_single proposal.ops _ singles) refl),
      rw applied graph,
    )
