-- ===== src/Proposals/Apply/Report.antt =====
-- The sorting of a proposal's operations into applied and skipped ones (src/core/proposals/index.ts).
use vcode.Base.{
  ℕ, suc, ◌≡◌, refl, ap, ◌∙◌, arith, List, [], ◌∷◌, ◌++◌, Option, none, some, ◌⊎◌, inl, inr,
}
use vcode.Graph.Store.{Graph}
use vcode.Proposals.{
  GraphProposal, GraphProposalOp, ProposalApplyResult, ProposalSkippedOp, SkipReason, StaleReason,
  stale, refused,
}
use vcode.Proposals.Stale.{stale_reason_for_op}
use vcode.Proposals.Aliases.{ResolvedOp, resolve_proposal_aliases}
use vcode.Proposals.Apply.{
  Attempt, apply_proposal_op, Progress, note_attempt, judge, run_op, run_ops, run_proposal,
  apply_graph_proposal,
}

-- The operations from an index on, each either applied or skipped under its own index, in order.
pub data Divided
    : ℕ → List ResolvedOp → List GraphProposalOp → List ProposalSkippedOp → Type 0 where
  finished : {index : ℕ} → Divided index [] [] []
  applied :
      {index : ℕ} {rs : List ResolvedOp} {xs : List GraphProposalOp} {ss : List ProposalSkippedOp}
      (r : ResolvedOp)
      → Divided (suc index) rs xs ss
      → Divided index (r ∷ rs) (r.0 ∷ xs) ss
  skipped :
      {index : ℕ} {rs : List ResolvedOp} {xs : List GraphProposalOp} {ss : List ProposalSkippedOp}
      (r : ResolvedOp) (reason : SkipReason)
      → Divided (suc index) rs xs ss
      → Divided index (r ∷ rs) xs (record { op_index = index; op = r.0; reason = reason } ∷ ss)

-- What a run from some point adds to what was noted before.
abbrev Adds : ℕ → List ResolvedOp → Progress → Progress → Type 0
Adds index rs p q =
    (xs : List GraphProposalOp) × (ss : List ProposalSkippedOp) × (q.applied ≡ p.applied ++ xs)
    × (q.skipped ≡ p.skipped ++ ss)
    × Divided index rs xs ss

append_nil : {A : Type 0} (xs : List A) → xs ≡ xs ++ []
append_nil [] = refl
append_nil (x ∷ xs) = ap (λ ys. x ∷ ys) (append_nil xs)

append_one : {A : Type 0} (xs : List A) (y : A) (ys : List A) → (xs ++ y ∷ []) ++ ys ≡ xs ++ y ∷ ys
append_one [] y ys = refl
append_one (x ∷ xs) y ys = ap (λ zs. x ∷ zs) (append_one xs y ys)

-- One round either applies or skips.
abbrev RunsOne : ℕ → ResolvedOp → Progress → Progress → Type 0
RunsOne index r p q =
    ((q.applied ≡ p.applied ++ r.0 ∷ []) × (q.skipped ≡ p.skipped))
    ⊎ ((reason : SkipReason) × (q.applied ≡ p.applied)
        × (q.skipped ≡ p.skipped ++ record { op_index = index; op = r.0; reason = reason } ∷ []))

note-RunsOne :
    (index : ℕ) (r : ResolvedOp) (p : Progress) (a : Attempt)
    → RunsOne index r p (note_attempt index r p a)
note-RunsOne index (op, b) p (h, none) = inl (refl, refl)
note-RunsOne index (op, b) p (h, some e) = inr (refused e, refl, refl)

judge-RunsOne :
    (index : ℕ) (r : ResolvedOp) (p : Progress) (o : Option StaleReason)
    → RunsOne index r p (judge index r p o)
judge-RunsOne index (op, b) p (some reason) = inr (stale reason, refl, refl)
judge-RunsOne index (op, b) p none = note-RunsOne index (op, b) p (apply_proposal_op p.graph op)

run_ops-Adds :
    (index : ℕ) (rs : List ResolvedOp) (p : Progress) → Adds index rs p (run_ops index rs p)
unfolding run_ops run_op
run_ops-Adds index [] p = ([], [], append_nil p.applied, append_nil p.skipped, finished)
run_ops-Adds index (r ∷ rs) p =
    let q = run_op index r p in
    let (xs, ss, more, less, rest) = run_ops-Adds (suc index) rs q in
    elim (judge-RunsOne index r p (stale_reason_for_op p.graph r.0)) [
      | inl (a, s) ↦ (
        r.0 ∷ xs,
        ss,
        more ∙ ap (λ zs. zs ++ xs) a ∙ append_one p.applied r.0 xs,
        less ∙ ap (λ zs. zs ++ ss) s,
        applied r rest,
      )
      | inr (reason, a, s) ↦ (
        xs,
        record { op_index = index; op = r.0; reason = reason } ∷ ss,
        more ∙ ap (λ zs. zs ++ xs) a,
        less ∙ ap (λ zs. zs ++ ss) s ∙ append_one p.skipped _ ss,
        skipped r reason rest,
      )
    ]

-- Each operation of an applied proposal, with its aliases resolved, stands in the result either among
-- the applied ones or, with its index and a reason, among the skipped ones, both in the order of the
-- proposal, and nothing else stands there.
pub apply-Divided :
    (g h : Graph) (proposal : GraphProposal) (result : ProposalApplyResult)
    → apply_graph_proposal g proposal ≡ some (h, result)
    → Divided 0 (resolve_proposal_aliases g proposal.ops) result.applied result.skipped
unfolding apply_graph_proposal
apply-Divided g h proposal result e =
    let done = run_proposal g proposal in
    let to : result.applied ≡ done.applied = ground arith in
    let so : result.skipped ≡ done.skipped = ground arith in
    let (xs, ys, a, s, divided) = run_ops-Adds 0 (resolve_proposal_aliases g proposal.ops) _ in
    rw (to ∙ a, so ∙ s) divided
