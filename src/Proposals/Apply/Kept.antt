-- ===== src/Proposals/Apply/Kept.antt =====
-- Applying a proposal keeps the graph's invariant (src/core/proposals/index.ts).
use vcode.Base.{
  ℕ, suc, String, ◌≡◌, refl, sym, subst, ◌⊎◌, inl, inr, arith, List, [], ◌∷◌, Option, none, some,
  Bool-cases,
}
use vcode.Base.Results.{Result, ok, err}
use vcode.Graph.Store.{Graph, Outcome}
use vcode.Graph.Side.{IsConsistent}
use vcode.Graph.Creation.{create_milestone, create_feature, create_task}
use vcode.Graph.Mutations.{edit_task, remove_task, change_milestone}
use vcode.Graph.Mutations.Kept.{
  frame, create_milestone-IsConsistent, create_feature-IsConsistent, create_task-IsConsistent,
  edit_task-IsConsistent, remove_task-IsConsistent, change_milestone-IsConsistent,
  edit_feature-IsConsistent, add_dependency-IsConsistent, remove_dependency-IsConsistent,
}
use vcode.Graph.Dependencies.{add_dependency, remove_dependency}
use vcode.Graph.Features.{remove_feature, edit_feature}
use vcode.Graph.Features.Removal.{remove_feature-IsConsistent}
use vcode.Proposals.{
  GraphProposal, GraphProposalOp, PlannerFeatureEditPatch, ProposalApplyResult, StaleReason,
}
use vcode.Proposals.Stale.{stale_reason_for_op}
use vcode.Proposals.Aliases.{ResolvedOp}
use vcode.Proposals.Apply.{
  Attempt, attempt, has_rest, rest_of, edit_rest, edit_moved, move_and_edit, new_milestone_options,
  new_feature_options, create_options, judge, apply_proposal_op, Progress, note_attempt, run_op,
  run_ops, run_proposal, bump_graph_version, bump_if_applied, apply_graph_proposal,
}

pub Result-cases {ℓ} :
    {E : Type 0} {A : Type ℓ} (r : Result E A) → ((a : A) × (r ≡ ok a)) ⊎ ((e : E) × (r ≡ err e))
Result-cases (ok a) = inl (a, refl)
Result-cases (err e) = inr (e, refl)

pub attempt-keeps :
    (P : Graph → Type 0) (g : Graph) (o : Outcome)
    → P g
    → ((h : Graph) → o ≡ ok h → P h)
    → P (attempt g o).0
attempt-keeps P g o p step = elim (Result-cases o) [
  | inl (h, e) ↦ rw e (step h e)
  | inr (_, e) ↦ rw e p
]

edit_rest-IsConsistent :
    (g : Graph) (id : String) (patch : PlannerFeatureEditPatch)
    → IsConsistent g
    → IsConsistent (edit_rest g id patch).0
edit_rest-IsConsistent g id patch c = elim (Bool-cases (has_rest patch)) [
  | inl more ↦ rw more (
      attempt-keeps IsConsistent g (edit_feature g id (rest_of patch)) c
        (λ h e. edit_feature-IsConsistent g h id (rest_of patch) c e))
  | inr over ↦ rw over c
]

edit_moved-IsConsistent :
    (g : Graph) (id : String) (patch : PlannerFeatureEditPatch) (o : Outcome)
    → IsConsistent g
    → ((h : Graph) → o ≡ ok h → IsConsistent h)
    → IsConsistent (edit_moved g id patch o).0
edit_moved-IsConsistent g id patch (ok h) c moved = edit_rest-IsConsistent h id patch (moved h refl)
edit_moved-IsConsistent g id patch (err e) c moved = c

move_and_edit-IsConsistent :
    (g : Graph) (id : String) (patch : PlannerFeatureEditPatch) (o : Option String)
    → IsConsistent g
    → IsConsistent (move_and_edit g id patch o).0
move_and_edit-IsConsistent g id patch none c = edit_rest-IsConsistent g id patch c
move_and_edit-IsConsistent g id patch (some m) c =
    edit_moved-IsConsistent g id patch (change_milestone g id m) c
      (λ h. change_milestone-IsConsistent g h id m c)

pub apply_proposal_op-IsConsistent :
    (g : Graph) (op : GraphProposalOp) → IsConsistent g → IsConsistent (apply_proposal_op g op).0
unfolding apply_proposal_op
apply_proposal_op-IsConsistent g (GraphProposalOp.add_milestone id name description) c =
    attempt-keeps IsConsistent g (create_milestone g (new_milestone_options id name description)) c
      (λ h. create_milestone-IsConsistent g h (new_milestone_options id name description) c)
apply_proposal_op-IsConsistent g (GraphProposalOp.add_feature id m name description) c =
    attempt-keeps IsConsistent g (create_feature g (new_feature_options id m name description)) c
      (λ h. create_feature-IsConsistent g h (new_feature_options id m name description) c)
apply_proposal_op-IsConsistent g (GraphProposalOp.remove_feature id) c =
    attempt-keeps IsConsistent g (remove_feature g id) c
      (λ h e. (remove_feature-IsConsistent g h id c e).0)
apply_proposal_op-IsConsistent g (GraphProposalOp.edit_feature id patch) c =
    move_and_edit-IsConsistent g id patch patch.milestone_id c
apply_proposal_op-IsConsistent g (GraphProposalOp.add_task op) c =
    attempt-keeps IsConsistent g (create_task g (create_options op)) c
      (λ h. create_task-IsConsistent g h (create_options op) c)
apply_proposal_op-IsConsistent g (GraphProposalOp.remove_task id) c =
    attempt-keeps IsConsistent g (remove_task g id) c (λ h. remove_task-IsConsistent g h id c)
apply_proposal_op-IsConsistent g (GraphProposalOp.edit_task id patch) c =
    attempt-keeps IsConsistent g (edit_task g id patch) c
      (λ h. edit_task-IsConsistent g h id patch c)
apply_proposal_op-IsConsistent g (GraphProposalOp.add_dependency from to) c =
    attempt-keeps IsConsistent g (add_dependency g from to) c
      (λ h. add_dependency-IsConsistent g h from to c)
apply_proposal_op-IsConsistent g (GraphProposalOp.remove_dependency from to) c =
    attempt-keeps IsConsistent g (remove_dependency g from to) c
      (λ h. remove_dependency-IsConsistent g h from to c)

-- What an operation that is not stale keeps, the loop keeps.
module _ (P : Graph → Type 0)
    (step : (g : Graph) (op : GraphProposalOp)
      → P g
      → stale_reason_for_op g op ≡ none
      → P (apply_proposal_op g op).0) where
  note-graph :
      (index : ℕ) (r : ResolvedOp) (p : Progress) (a : Attempt)
      → (note_attempt index r p a).graph ≡ a.0
  note-graph index (op, b) p (g, none) = refl
  note-graph index (op, b) p (g, some e) = refl

  judge-keeps :
      (index : ℕ) (r : ResolvedOp) (p : Progress) (o : Option StaleReason)
      → stale_reason_for_op p.graph r.0 ≡ o
      → P p.graph
      → P (judge index r p o).graph
  judge-keeps index (op, b) p (some reason) e k = k
  judge-keeps index (op, b) p none fits k =
      subst P (sym (note-graph index (op, b) p (apply_proposal_op p.graph op)))
        (step p.graph op k fits)

  pub run_op-keeps :
      (index : ℕ) (r : ResolvedOp) (p : Progress) → P p.graph → P (run_op index r p).graph
  unfolding run_op
  run_op-keeps index r p k = judge-keeps index r p (stale_reason_for_op p.graph r.0) refl k

  pub run_ops-keeps :
      (index : ℕ) (rs : List ResolvedOp) (p : Progress) → P p.graph → P (run_ops index rs p).graph
  unfolding run_ops
  run_ops-keeps index [] p k = k
  run_ops-keeps index (r ∷ rs) p k =
      run_ops-keeps (suc index) rs (run_op index r p) (run_op-keeps index r p k)

  pub apply-keeps :
      ((g : Graph) → P g → P (bump_graph_version g))
      → (g h : Graph) (proposal : GraphProposal) (result : ProposalApplyResult) → P g
      → apply_graph_proposal g proposal ≡ some (h, result)
      → P h
  unfolding apply_graph_proposal
  apply-keeps bump g h proposal result k e =
      subst P (sym same) (bumped (run_proposal g proposal).applied (run_ops-keeps 0 _ _ k))
    where
      same : h ≡ bump_if_applied (run_proposal g proposal).applied (run_proposal g proposal).graph
      same = ground arith

      bumped : (ops : List GraphProposalOp) {f : Graph} → P f → P (bump_if_applied ops f)
      bumped [] q = q
      bumped (op ∷ ops) {f} q = bump f q

-- A proposal that is applied, whatever it holds and whatever is skipped, leaves both indexes of the
-- graph equal to the listed dependencies and free of cycles, and every listed dependency in the graph.
pub apply_graph_proposal-IsConsistent :
    (g h : Graph) (proposal : GraphProposal) (result : ProposalApplyResult)
    → IsConsistent g
    → apply_graph_proposal g proposal ≡ some (h, result)
    → IsConsistent h
unfolding bump_graph_version
apply_graph_proposal-IsConsistent =
    apply-keeps IsConsistent (λ g op c _. apply_proposal_op-IsConsistent g op c)
      (λ g c. frame g (bump_graph_version g) refl refl refl refl c)
