-- ===== src/Proposals/Apply/Started.antt =====
-- A feature that is under way stays (src/core/proposals/index.ts).
use vcode.Base.{
  String, ◌≡◌, ◌≢◌, refl, sym, ap, ◌∙◌, inl, inr, arith, [], ◌∷◌, ◌++◌, without, Option, none, some,
  Bool-cases, ◌==◌, eq_of_beq, string_eq,
}
use vcode.Base.Dict.{get, delete, values}
use vcode.Base.Results.{ok, err}
use vcode.Types.Workflow.{UnitStatus, unit_status_eq}
use vcode.Types.Domain.{Feature}
use vcode.Graph.Store.{Graph, Outcome}
use vcode.Graph.Creation.{create_milestone, create_feature, create_task, new_feature}
use vcode.Graph.Creation.Laws.{create_feature-eq-ok, create_task-eq-ok}
use vcode.Graph.Mutations.{
  TaskEditPatch, edit_task, remove_task, change_milestone, map_values, task_ids_of,
}
use vcode.Graph.Mutations.Laws.{remove_task-eq-ok}
use vcode.Graph.Mutations.Kept.{change_milestone-eq-ok}
use vcode.Graph.Features.{
  remove_feature, remove_node, strip_feature_dep, edit_feature, edited_feature, FeatureEditPatch,
}
use vcode.Graph.Features.Kept.{edit_feature-eq-ok}
use vcode.Graph.Features.Removal.{remove_feature-eq-ok, owned_all-features}
use vcode.Graph.Dependencies.{add_dependency, remove_dependency, is_feature_dependency}
use vcode.Graph.Known.{
  add_feature-known, add_task-known, remove_feature-known, remove_task_dep-known,
}
use vcode.Proposals.{GraphProposal, GraphProposalOp, PlannerFeatureEditPatch, ProposalApplyResult}
use vcode.Proposals.Stale.{stale_reason_for_op}
use vcode.Proposals.Apply.{
  has_rest, rest_of, edit_rest, edit_moved, move_and_edit, new_milestone_options,
  new_feature_options, create_options, apply_proposal_op, bump_graph_version, apply_graph_proposal,
}
use vcode.Proposals.Apply.Kept.{attempt-keeps, apply-keeps}
use vcode.Proposals.Apply.Status.{
  HasStatus, same-features, write-HasStatus, create_feature-HasStatus, remove-HasStatus,
}

module _ (id : String) (s : UnitStatus) where
  edit-HasStatus :
      (g h : Graph) (k : String) (patch : FeatureEditPatch)
      → edit_feature g k patch ≡ ok h
      → HasStatus id s g
      → HasStatus id s h
  edit-HasStatus g h k patch e =
      let (x, there, same) = edit_feature-eq-ok g h k patch e in
      write-HasStatus id s g h k x (edited_feature x patch) there refl (ap (λ y. y.features) same)

  edit_rest-HasStatus :
      (g : Graph) (k : String) (patch : PlannerFeatureEditPatch)
      → HasStatus id s g
      → HasStatus id s (edit_rest g k patch).0
  edit_rest-HasStatus g k patch p = elim (Bool-cases (has_rest patch)) [
    | inl more ↦ rw more (
        attempt-keeps (HasStatus id s) g (edit_feature g k (rest_of patch)) p
          (λ h e. edit-HasStatus g h k (rest_of patch) e p))
    | inr over ↦ rw over p
  ]

  edit_moved-HasStatus :
      (g : Graph) (k : String) (patch : PlannerFeatureEditPatch) (o : Outcome)
      → HasStatus id s g
      → ((h : Graph) → o ≡ ok h → HasStatus id s h)
      → HasStatus id s (edit_moved g k patch o).0
  edit_moved-HasStatus g k patch (ok h) p moved = edit_rest-HasStatus h k patch (moved h refl)
  edit_moved-HasStatus g k patch (err e) p moved = p

  move-HasStatus :
      (g : Graph) (k : String) (patch : PlannerFeatureEditPatch) (o : Option String)
      → HasStatus id s g
      → HasStatus id s (move_and_edit g k patch o).0
  move-HasStatus g k patch none p = edit_rest-HasStatus g k patch p
  move-HasStatus g k patch (some m) p =
      edit_moved-HasStatus g k patch (change_milestone g k m) p λ h e.
        let (x, n, there, same) = change_milestone-eq-ok g h k m e in
        write-HasStatus id s g h k x (record x { milestone_id = m; order_in_milestone = n }) there
          refl (ap (λ y. y.features) same) p

  milestones-HasStatus :
      (g h : Graph) (k name description : String)
      → create_milestone g (new_milestone_options k name description) ≡ ok h
      → HasStatus id s g
      → HasStatus id s h
  unfolding create_milestone
  milestones-HasStatus g h k name description e = same-features id s g h (ground arith)

  edit_task-HasStatus :
      (g h : Graph) (k : String) (patch : TaskEditPatch)
      → edit_task g k patch ≡ ok h
      → HasStatus id s g
      → HasStatus id s h
  unfolding edit_task
  edit_task-HasStatus g h k patch e = same-features id s g h (ground arith)

  add_dependency-HasStatus :
      (g h : Graph) (from to : String)
      → add_dependency g from to ≡ ok h
      → HasStatus id s g
      → HasStatus id s h
  unfolding add_dependency
  add_dependency-HasStatus g h from to e = elim (Bool-cases (is_feature_dependency from)) [
    | inl b ↦
        let (x, _, there, _, features, _) = add_feature-known g h from to (rw b at e) in
        write-HasStatus id s g h from x (record x { depends_on = x.depends_on ++ to ∷ [] }) there
          refl features
    | inr b ↦
        let (_, _, _, _, _, features) = add_task-known g h from to (rw b at e) in
        same-features id s g h features
  ]

  remove_dependency-HasStatus :
      (g h : Graph) (from to : String)
      → remove_dependency g from to ≡ ok h
      → HasStatus id s g
      → HasStatus id s h
  unfolding remove_dependency
  remove_dependency-HasStatus g h from to e = elim (Bool-cases (is_feature_dependency from)) [
    | inl b ↦
        let (x, there, features, _) = remove_feature-known g h from to (rw b at e) in
        write-HasStatus id s g h from x (record x { depends_on = without to x.depends_on }) there
          refl features
    | inr b ↦
        let (_, _, _, features) = remove_task_dep-known g h from to (rw b at e) in
        same-features id s g h features
  ]

  -- A removal that is not stale is of a feature that is pending.
  removed_pending :
      (g : Graph) (k : String) (x : Feature)
      → get k g.features ≡ some x
      → stale_reason_for_op g (GraphProposalOp.remove_feature k) ≡ none
      → x.status ≡ UnitStatus.pending
  unfolding stale_reason_for_op
  removed_pending g k x there fits = elim (Bool-cases (x.status == UnitStatus.pending)) [
    | inl pending ↦ eq_of_beq x.status UnitStatus.pending pending
    | inr started ↦ absurd (ground arith)
  ]

  remove_feature-HasStatus :
      (g h : Graph) (k : String)
      → s ≢ UnitStatus.pending
      → stale_reason_for_op g (GraphProposalOp.remove_feature k) ≡ none
      → remove_feature g k ≡ ok h
      → HasStatus id s g
      → HasStatus id s h
  unfolding remove_node
  remove_feature-HasStatus g h k started fits e (f, at, is) =
      let (x, there, same) = remove_feature-eq-ok g h k e in
      let pending = removed_pending g k x there fits in
      let apart : k ≢ id = λ q. started (
        sym is
        ∙ ap (λ y. y.status) (some_of (sym at ∙ ap (λ i. get i g.features) (sym q) ∙ there))
        ∙ pending) in
      remove-HasStatus id s g h k apart
        (ap (λ y. y.features) same
          ∙ ap (λ m. delete k (map_values (strip_feature_dep k) m))
              (owned_all-features (task_ids_of k (values g.tasks)) g))
        (f, at, is)
    where
      some_of : {A : Type 0} {a b : A} → some a ≡ some b → a ≡ b
      some_of q = cc

  op-HasStatus :
      s ≢ UnitStatus.pending
      → (g : Graph) (op : GraphProposalOp) → HasStatus id s g
      → stale_reason_for_op g op ≡ none
      → HasStatus id s (apply_proposal_op g op).0
  unfolding apply_proposal_op
  op-HasStatus started g (GraphProposalOp.add_milestone k name description) p fits =
      attempt-keeps (HasStatus id s) g
        (create_milestone g (new_milestone_options k name description)) p
        (λ h e. milestones-HasStatus g h k name description e p)
  op-HasStatus started g (GraphProposalOp.add_feature k m name description) p fits =
      attempt-keeps (HasStatus id s) g (create_feature g (new_feature_options k m name description))
        p
        (λ h e.
          let (fresh, _, _, (n, same)) =
            create_feature-eq-ok g h (new_feature_options k m name description) e in
          create_feature-HasStatus id s g h k
            (new_feature (new_feature_options k m name description) n) fresh
            (ap (λ y. y.features) same) p)
  op-HasStatus started g (GraphProposalOp.remove_feature k) p fits =
      attempt-keeps (HasStatus id s) g (remove_feature g k) p
        (λ h e. remove_feature-HasStatus g h k started fits e p)
  op-HasStatus started g (GraphProposalOp.edit_feature k patch) p fits =
      move-HasStatus g k patch patch.milestone_id p
  op-HasStatus started g (GraphProposalOp.add_task op) p fits =
      attempt-keeps (HasStatus id s) g (create_task g (create_options op)) p (λ h e.
        let (_, _, _, (f, (n, same))) = create_task-eq-ok g h (create_options op) e in
        same-features id s g h (ap (λ y. y.features) same) p)
  op-HasStatus started g (GraphProposalOp.remove_task k) p fits =
      attempt-keeps (HasStatus id s) g (remove_task g k) p (λ h e.
        let (_, _, _, same) = remove_task-eq-ok g h k e in
        same-features id s g h (ap (λ y. y.features) same) p)
  op-HasStatus started g (GraphProposalOp.edit_task k patch) p fits =
      attempt-keeps (HasStatus id s) g (edit_task g k patch) p
        (λ h e. edit_task-HasStatus g h k patch e p)
  op-HasStatus started g (GraphProposalOp.add_dependency from to) p fits =
      attempt-keeps (HasStatus id s) g (add_dependency g from to) p
        (λ h e. add_dependency-HasStatus g h from to e p)
  op-HasStatus started g (GraphProposalOp.remove_dependency from to) p fits =
      attempt-keeps (HasStatus id s) g (remove_dependency g from to) p
        (λ h e. remove_dependency-HasStatus g h from to e p)

-- No proposal removes a feature whose status is not pending, or changes that status.
pub apply-HasStatus :
    (g h : Graph) (proposal : GraphProposal) (result : ProposalApplyResult) (id : String)
    (s : UnitStatus)
    → s ≢ UnitStatus.pending
    → HasStatus id s g
    → apply_graph_proposal g proposal ≡ some (h, result)
    → HasStatus id s h
unfolding bump_graph_version
apply-HasStatus g h proposal result id s started =
    apply-keeps (HasStatus id s) (op-HasStatus id s started)
      (λ f p. same-features id s f (bump_graph_version f) refl p) g h proposal result
