-- ===== src/Proposals/Aliases/Fresh.antt =====
-- The ids that `resolveProposalAliases` of src/core/proposals/index.ts gives are new.
use text.Mathlib.Text.{starts_with}
use vcode.Base.{
  ℕ, ◌+◌, ◌≤◌, ◌<◌, String, ◌≡◌, ◌⊎◌, true, false, List, [], ◌∷◌, Option, none, some, string_eq,
  Memᴰ,
}
use vcode.Base.Dict.{Dict, get, keys}
use vcode.Doubles.{exact_limit}
use vcode.Graph.Store.{Graph}
use vcode.Proposals.{GraphProposalOp}
use vcode.Proposals.Aliases.{
  AliasState, AliasBinding, suffix_number, milestone_id_of, feature_id_of, task_id_of,
  declared_alias, rewrite_op, binding_of, ResolvedOp, with_ids,
}

-- An alias is bound to an id of which `P` holds; any other id is kept and has no binding.
abbrev pub Named : (String → Type 0) → String → String → Option AliasBinding → Type 0
Named P declared id b =
    ((starts_with declared "#" ≡ true)
      × (b ≡ some (record { alias = declared; concrete = id }))
      × P id)
    ⊎ ((starts_with declared "#" ≡ false) × (id ≡ declared) × (b ≡ none))

-- The node that an operation adds is named, by the kind of the node; no other operation has a binding.
abbrev pub Names : (P Q R : String → Type 0) → GraphProposalOp → ResolvedOp → Type 0
Names P Q R (GraphProposalOp.add_milestone id name description) r =
    (c : String) × (r.0 ≡ GraphProposalOp.add_milestone c name description) × Named P id c r.1
Names P Q R (GraphProposalOp.add_feature id m name description) r =
    (c : String) × (m' : String) × (r.0 ≡ GraphProposalOp.add_feature c m' name description)
    × Named Q id c r.1
Names P Q R (GraphProposalOp.add_task op) r =
    (c : String) × (f : String) × (r.0 ≡ GraphProposalOp.add_task (with_ids op c f))
    × Named R op.task_id c r.1
Names P Q R _ r = r.1 ≡ none

-- Two lists of one length, element by element.
abbrev pub Each : {A B : Type 0} → (A → B → Type 0) → List A → List B → Type 0
Each R [] [] = Unit
Each R (x ∷ xs) (y ∷ ys) = R x y × Each R xs ys
Each R _ _ = ⊥

-- The id has a number above the counter that is read back.
abbrev Numbered : (ℕ → String) → ℕ → String → Type 0
Numbered id_of counter c = (n : ℕ) × (counter < n) × (n ≤ exact_limit) × (c ≡ id_of n)

abbrev Above : AliasState → GraphProposalOp → ResolvedOp → Type 0
Above s =
    Names (Numbered milestone_id_of s.m) (Numbered feature_id_of s.f) (Numbered task_id_of s.t)

-- The counters of `s` have room for `k` more.
record HasRoom (s : AliasState) (k : ℕ) : Type 0 where
  m : s.m + k < exact_limit
  f : s.f + k < exact_limit
  t : s.t + k < exact_limit

record IsBefore (s s' : AliasState) : Type 0 where
  m : s.m ≤ s'.m
  f : s.f ≤ s'.f
  t : s.t ≤ s'.t

abbrev resolved_op : GraphProposalOp → AliasState → ResolvedOp
unfolding declared_alias
resolved_op op s =
    ((rewrite_op op s).0, binding_of (declared_alias op) (rewrite_op op s).1.resolved)

-- What one round of the loop does.
record Advances (op : GraphProposalOp) (s : AliasState) (k : ℕ) : Type 0 where
  names : Above s op (resolved_op op s)
  before : IsBefore s (rewrite_op op s).1
  room : HasRoom (rewrite_op op s).1 k

-- Every number behind the first hyphen of a key stays below 2^53 with `count` more.
abbrev pub IsExactFor : {V : Type 0} → ℕ → Dict V → Type 0
IsExactFor count m =
    (key : String) (n : ℕ)
    → Memᴰ key (keys m)
    → suffix_number key ≡ some (false, n)
    → n + count < exact_limit

-- What the proposal adds is not in the graph.
abbrev pub IsNewIn : Graph → GraphProposalOp → ResolvedOp → Type 0
IsNewIn g =
    Names (λ c. get c g.milestones ≡ none) (λ c. get c g.features ≡ none)
      (λ c. get c g.tasks ≡ none)
