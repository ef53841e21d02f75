-- ===== src/Proposals/Builder.antt =====
-- src/core/proposals/index.ts: `GraphProposalBuilder` and `resolveProposalAlias`.
pub mod RoundTrip
use vcode.Base.{
  ℕ, suc, ◌≤◌, ◌<◌, String, ◌≡◌, refl, ◌⊎◌, inl, inr, arith, sym, ◌∙◌, ap, subst, List, [], ◌∷◌,
  ◌++◌, Option, none, some, Option-cases, Bool, true, false, Bool-cases, ◌==◌, string_eq,
  if◌then◌else◌, eq_of_beq, beq_self,
}
use vcode.Base.Dict.{Dict, get, set, get-set}
use vcode.Decimal.{◌∷◌ as ◌∷ˢ◌, show_nat, parse_integer}
use vcode.Decimal.RoundTrip.{parse-show}
use vcode.Naming.{strip_prefix}
use vcode.Proposals.{ProposalAlias, GraphProposalMode, GraphProposalOp, GraphProposal}

pub record GraphProposalBuilder : Type 0 where
  pub mode : GraphProposalMode
  pub ops : List GraphProposalOp
  pub aliases : Dict String
  pub reverse_aliases : Dict ProposalAlias
  pub next_alias : ℕ

abbrev pub new_builder : GraphProposalMode → GraphProposalBuilder
new_builder mode = record {
  mode = mode;
  ops = [];
  aliases = [];
  reverse_aliases = [];
  next_alias = 1;
}

-- `#${n}`
abbrev pub alias_of : ℕ → ProposalAlias
alias_of n = "#" ∷ˢ show_nat n

abbrev pub alias_for : GraphProposalBuilder → String → Option ProposalAlias
alias_for b id = get id b.reverse_aliases

-- `allocateAlias`, which the three methods for milestones, features and tasks call.
unfoldable pub allocate_alias : GraphProposalBuilder → String → ProposalAlias × GraphProposalBuilder
allocate_alias b id = elim (get id b.reverse_aliases) [
  | some existing ↦ (existing, b)
  | none ↦ (
    alias_of b.next_alias,
    record b {
      next_alias = suc b.next_alias;
      aliases = set (alias_of b.next_alias) id b.aliases;
      reverse_aliases = set id (alias_of b.next_alias) b.reverse_aliases;
    },
  )
]

unfoldable pub add_op : GraphProposalBuilder → GraphProposalOp → GraphProposalBuilder
add_op b op = record b { ops = b.ops ++ op ∷ [] }

unfoldable pub build : GraphProposalBuilder → GraphProposal
build b = record { mode = b.mode; aliases = b.aliases; ops = b.ops }

abbrev pub resolve_proposal_alias : GraphProposal → ProposalAlias → Option String
resolve_proposal_alias proposal alias = get alias proposal.aliases
