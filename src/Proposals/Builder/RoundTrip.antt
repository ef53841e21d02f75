-- ===== src/Proposals/Builder/RoundTrip.antt =====
-- The aliases of a proposal that `GraphProposalBuilder` of src/core/proposals/index.ts makes.
use vcode.Base.{
  ℕ, suc, ◌<◌, String, ◌≡◌, refl, ◌⊎◌, inl, inr, arith, sym, ◌∙◌, ap, none, some, Option-cases,
  Bool-cases, ◌==◌, string_eq, eq_of_beq, beq_self, eq_iff,
}
use vcode.Base.Dict.{Dict, get, set, get-set}
use vcode.Decimal.{parse_integer}
use vcode.Decimal.RoundTrip.{parse-show}
use vcode.Naming.{strip_prefix}
use vcode.Proposals.{ProposalAlias, GraphProposalMode, GraphProposalOp}
use vcode.Proposals.Builder.{
  ◌∷ˢ◌, GraphProposalBuilder, new_builder, alias_of, alias_for, allocate_alias, add_op, build,
  resolve_proposal_alias,
}

-- The calls on a builder.
pub data BuilderReach : GraphProposalBuilder → Type 0 where
  made : (mode : GraphProposalMode) → BuilderReach (new_builder mode)
  allocated :
      {b : GraphProposalBuilder} (id : String)
      → BuilderReach b
      → BuilderReach (allocate_alias b id).1
  op_added :
      {b : GraphProposalBuilder} (op : GraphProposalOp)
      → BuilderReach b
      → BuilderReach (add_op b op)

record IsInverse (b : GraphProposalBuilder) : Type 0 where
  forth :
      (id : String) (a : ProposalAlias)
      → get id b.reverse_aliases ≡ some a
      → get a b.aliases ≡ some id
  numbered :
      (a : ProposalAlias) (id : String)
      → get a b.aliases ≡ some id
      → (n : ℕ) × (n < b.next_alias) × (a ≡ alias_of n)

-- The number of an alias.
number_of : (m n : ℕ) → alias_of m ≡ alias_of n → m ≡ n
unfolding strip_prefix
number_of m n e =
    let read = ap (λ a. parse_integer (strip_prefix ("x" ∷ˢ a))) e in
    cc (sym (parse-show m) ∙ read ∙ parse-show n)

new-IsInverse : (mode : GraphProposalMode) → IsInverse (new_builder mode)
unfolding get
new-IsInverse mode = record { forth = λ id a e. cc; numbered = λ a id e. cc }

unused : (b : GraphProposalBuilder) → IsInverse b → get (alias_of b.next_alias) b.aliases ≡ none
unused b inverse = elim (Option-cases (get (alias_of b.next_alias) b.aliases)) [
  | inl gone ↦ gone
  | inr (id, at) ↦
      let (n, low, same) = inverse.numbered (alias_of b.next_alias) id at in
      let equal = number_of b.next_alias n same in absurd (omega arith)
]

same_get : {V : Type 0} (k j : String) (m : Dict V) → k ≡ j → get k m ≡ get j m
same_get k j m e = rw e

allocate-cases :
    (b : GraphProposalBuilder) (id : String)
    → ((a : ProposalAlias) × (get id b.reverse_aliases ≡ some a) × (allocate_alias b id ≡ (a, b)))
      ⊎ ((get id b.reverse_aliases ≡ none)
          × (allocate_alias b id ≡ (
            alias_of b.next_alias,
            record b {
              next_alias = suc b.next_alias;
              aliases = set (alias_of b.next_alias) id b.aliases;
              reverse_aliases = set id (alias_of b.next_alias) b.reverse_aliases;
            },
          )))
unfolding allocate_alias
allocate-cases b id = elim (Option-cases (get id b.reverse_aliases)) [
  | inl missing ↦ inr (missing, ground arith)
  | inr (a, at) ↦ inl (a, at, ground arith)
]

allocated-IsInverse :
    (b : GraphProposalBuilder) (id : String) → IsInverse b → IsInverse (allocate_alias b id).1
allocated-IsInverse b id inverse = elim (allocate-cases b id) [
  | inl (a, at, same) ↦ rw same inverse
  | inr (missing, same) ↦ rw same (record {
    forth = λ j a e. ground (
      arith,
      get-set id j (alias_of b.next_alias) b.reverse_aliases,
      get-set (alias_of b.next_alias) a id b.aliases,
      eq_iff id j,
      eq_iff (alias_of b.next_alias) a,
      inverse.forth j a,
      unused b inverse,
      same_get (alias_of b.next_alias) a b.aliases,
    );
    numbered = λ a j e. elim (Bool-cases (alias_of b.next_alias == a)) [
      | inl new ↦ (b.next_alias, omega arith, sym (eq_of_beq (alias_of b.next_alias) a new))
      | inr other ↦
          let (n, low, is) = inverse.numbered a j (rw (get-set, other) at e) in
          (n, omega (arith, low), is)
    ];
  })
]

reach-IsInverse : (b : GraphProposalBuilder) → BuilderReach b → IsInverse b
unfolding add_op
reach-IsInverse b (made mode) = new-IsInverse mode
reach-IsInverse b (allocated {b = c} id r) = allocated-IsInverse c id (reach-IsInverse c r)
reach-IsInverse b (op_added {b = c} op r) =
    let inverse = reach-IsInverse c r in
    record { forth = inverse.forth; numbered = inverse.numbered }

-- In a proposal that a builder makes, the alias that it gave to an id resolves to that id, and the
-- builder gives the id that alias from then on; what was resolved by an alias before, it still is.
pub resolve-allocate :
    (b : GraphProposalBuilder) (id : String)
    → BuilderReach b
    → (resolve_proposal_alias (build (allocate_alias b id).1) (allocate_alias b id).0 ≡ some id)
      × (alias_for (allocate_alias b id).1 id ≡ some (allocate_alias b id).0)
      × ((a : ProposalAlias) (j : String)
          → resolve_proposal_alias (build b) a ≡ some j
          → resolve_proposal_alias (build (allocate_alias b id).1) a ≡ some j)
unfolding build
resolve-allocate b id r =
    let inverse = reach-IsInverse b r in
    elim (allocate-cases b id) [
      | inl (a, at, same) ↦ rw same (inverse.forth id a at, at, λ c j e. e)
      | inr (missing, same) ↦ rw same (
        rw (get-set, beq_self (alias_of b.next_alias)) refl,
        rw (get-set, beq_self id) refl,
        λ c j e. ground (
          arith,
          get-set (alias_of b.next_alias) c id b.aliases,
          eq_iff (alias_of b.next_alias) c,
          unused b inverse,
          same_get (alias_of b.next_alias) c b.aliases,
        ),
      )
    ]
