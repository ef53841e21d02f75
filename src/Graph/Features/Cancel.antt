-- ===== src/Graph/Features/Cancel.antt =====
-- What a cancellation with its cascade does (src/core/graph/feature-mutations.ts).
pub mod Fuel
use mathlib.Core.List.Memᴰ
use vcode.Base.{
  ℕ, zero, suc, String, ◌≡◌, ◌≢◌, refl, sym, ap, ◌∙◌, subst, ◌↔◌, ◌⊎◌, inl, inr, arith, Bool, true,
  false, not, List, [], ◌∷◌, Option, none, some, Memᴰ, ◌==◌, string_eq, eq_iff, Bool-cases,
  Option-cases, if◌then◌else◌, Memᴰ-cons, eq_of_beq, ne_of_beq, beq_self,
}
use vcode.Base.Dict.{Dict, get, set, get-set}
use vcode.Types.Workflow.{FeatureCollabControl, FeatureId, feature_collab_eq}
use vcode.Types.Domain.{Feature}
use vcode.Graph.Search.{Successors, nexts}
use vcode.Graph.Search.Correct.{Reaches, here, step, Reaches-trans}
use vcode.Graph.Store.{Graph}
use vcode.Graph.Features.{cancelled_feature, mark_cancelled, cascade_over, cancel_cascade}

-- The feature is there and not cancelled.
abbrev pub is_live : Option Feature → Bool
is_live none = false
is_live (some f) = not (f.collab_control == FeatureCollabControl.cancelled)

-- From `g` to `h` some features that `R` holds of were cancelled, and nothing else changed in the
-- features; a feature that was cancelled on the way has no live successor left.
pub record Cancels (R : String → Type 0) (g h : Graph) : Type 0 where
  pub successors : h.feature_successors ≡ g.feature_successors
  pub changed :
      (u : String)
      → (get u h.features ≡ get u g.features)
        ⊎ ((f : Feature) × (get u g.features ≡ some f)
            × (get u h.features ≡ some (cancelled_feature f))
            × R u)
  pub closed :
      (u w : String)
      → is_live (get u g.features) ≡ true
      → is_live (get u h.features) ≡ false
      → Memᴰ w (nexts u g.feature_successors)
      → is_live (get w h.features) ≡ false

cancelled_twice :
    (f f' : Feature)
    → some f' ≡ some (cancelled_feature f)
    → some (cancelled_feature f') ≡ some (cancelled_feature f)
cancelled_twice f f' e =
    let same : f' ≡ cancelled_feature f = cc in
    ap (λ (x : Feature). some (cancelled_feature x)) same

module _ {R : String → Type 0} where
  Cancels-refl : (g : Graph) → Cancels R g g
  Cancels-refl g = record {
    successors = refl;
    changed = λ u. inl refl;
    closed = λ u w live dead k. cc;
  }

  stays_dead :
      {g h : Graph} (c : Cancels R g h) (u : String)
      → is_live (get u g.features) ≡ false
      → is_live (get u h.features) ≡ false
  stays_dead c u dead = elim (c.changed u) [
    | inl same ↦ rw same dead
    | inr (f, at, now, _) ↦ rw now refl
  ]

  Cancels-trans : {g h k : Graph} → Cancels R g h → Cancels R h k → Cancels R g k
  Cancels-trans {g} {h} {k} c d = record {
    successors = d.successors ∙ c.successors;
    changed = λ u. both u (c.changed u) (d.changed u);
    closed = λ u w live dead m. elim (Bool-cases (is_live (get u h.features))) [
      | inl still ↦ d.closed u w still dead (subst (λ s. Memᴰ w (nexts u s)) (sym c.successors) m)
      | inr gone ↦ stays_dead d w (c.closed u w live gone m)
    ];
  }
    where
      both :
          (u : String)
          → (get u h.features ≡ get u g.features)
            ⊎ ((f : Feature) × (get u g.features ≡ some f)
                × (get u h.features ≡ some (cancelled_feature f))
                × R u)
          → (get u k.features ≡ get u h.features)
            ⊎ ((f : Feature) × (get u h.features ≡ some f)
                × (get u k.features ≡ some (cancelled_feature f))
                × R u)
          → (get u k.features ≡ get u g.features)
            ⊎ ((f : Feature) × (get u g.features ≡ some f)
                × (get u k.features ≡ some (cancelled_feature f))
                × R u)
      both u (inl a) (inl b) = inl (b ∙ a)
      both u (inr (f, at, now, r)) (inl b) = inr (f, at, b ∙ now, r)
      both u (inl a) (inr (f, at, now, r)) = inr (f, sym a ∙ at, now, r)
      both u (inr (f, at, now, r)) (inr (f', at', now', r')) = inr (f, at, again, r)
        where
          again : get u k.features ≡ some (cancelled_feature f)
          again = now' ∙ cancelled_twice f f' (sym at' ∙ now)

some_injective : {A : Type 0} {a b : A} → some a ≡ some b → a ≡ b
some_injective h = cc

weaken :
    {R Q : String → Type 0} (g h : Graph)
    → ((u : String) → R u → Q u)
    → Cancels R g h
    → Cancels Q g h
weaken g h sub c = record {
  successors = c.successors;
  changed = λ u. elim (c.changed u) [
    | inl same ↦ inl same
    | inr (f, at, now, r) ↦ inr (f, at, now, sub u r)
  ];
  closed = c.closed;
}

-- What a call for one feature does: it and what it cancels is reached from it.
abbrev pub Cancelled : FeatureId → Graph → Graph → Type 0
Cancelled id g h =
    Cancels (Reaches g.feature_successors id) g h × (is_live (get id h.features) ≡ false)

abbrev IsVisit : (Graph → FeatureId → Feature → Option Graph) → Type 0
IsVisit visit =
    (g h : Graph) (id : FeatureId) (f : Feature)
    → get id g.features ≡ some f
    → visit g id f ≡ some h
    → Cancelled id g h

pub cascade_over-cons :
    (visit : Graph → FeatureId → Feature → Option Graph) (id : FeatureId) (ids : List FeatureId)
    (g h : Graph)
    → cascade_over visit (id ∷ ids) g ≡ some h
    → ((is_live (get id g.features) ≡ false) × (cascade_over visit ids g ≡ some h))
      ⊎ ((f : Feature) × (g1 : Graph) × (get id g.features ≡ some f)
          × (visit g id f ≡ some g1)
          × (cascade_over visit ids g1 ≡ some h))
unfolding cascade_over
cascade_over-cons visit id ids g h e = elim (Option-cases (get id g.features)) [
  | inl missing ↦ inl (rw missing refl, ground arith)
  | inr (f, at) ↦ elim (Bool-cases (f.collab_control == FeatureCollabControl.cancelled)) [
    | inl dead ↦ inl (rw at (rw dead refl), ground arith)
    | inr live ↦ elim (Option-cases (visit g id f)) [
      | inl stuck ↦ ground arith
      | inr (g1, visited) ↦ inr (f, g1, at, visited, ground arith)
    ]
  ]
]

cascade_over-Cancels :
    (visit : Graph → FeatureId → Feature → Option Graph)
    → IsVisit visit
    → (R : String → Type 0) (s : Successors) (ids : List FeatureId) (g h : Graph)
    → g.feature_successors ≡ s
    → ((u w : String) → R u → Reaches s u w → R w)
    → ((u : String) → Memᴰ u ids → R u)
    → cascade_over visit ids g ≡ some h
    → Cancels R g h × ((u : String) → Memᴰ u ids → is_live (get u h.features) ≡ false)
unfolding cascade_over
cascade_over-Cancels visit ok R s [] g h index onward from e =
    (subst (Cancels R g) (some_injective e) (Cancels-refl g), λ u m. absurd (Memᴰ.not-nil m))
cascade_over-Cancels visit ok R s (id ∷ ids) g h index onward from e =
    elim (cascade_over-cons visit id ids g h e) [
      | inl (dead, later) ↦
          let (c, all) =
            cascade_over-Cancels visit ok R s ids g h index onward (λ u m. from u (Memᴰ.tail m))
              later in
          (
            c,
            λ u m. elim (Memᴰ.cases_cons m) [
              | inl q ↦
                  stays_dead c u (subst (λ v. is_live (get v g.features) ≡ false) (sym q) dead)
              | inr rest ↦ all u rest
            ],
          )
      | inr (f, g1, at, visited, later) ↦
          let (first, gone) = ok g g1 id f at visited in
          let (c, all) =
            cascade_over-Cancels visit ok R s ids g1 h (first.successors ∙ index) onward
              (λ u m. from u (Memᴰ.tail m)) later in
          let first' =
            weaken g g1
              (λ u r. onward id u (from id (Memᴰ.head refl)) (subst (λ x. Reaches x id u) index r))
              first in
          (
            Cancels-trans first' c,
            λ u m. elim (Memᴰ.cases_cons m) [
              | inl q ↦
                  stays_dead c u (subst (λ v. is_live (get v g1.features) ≡ false) (sym q) gone)
              | inr rest ↦ all u rest
            ],
          )
    ]

get-mark :
    (id u : String) (f : Feature) (g : Graph)
    → get u (mark_cancelled id f g).features
      ≡ (if id == u then some (cancelled_feature f) else get u g.features)
unfolding mark_cancelled
get-mark id u f g = get-set id u (cancelled_feature f) g.features

mark-successors :
    (id : String) (f : Feature) (g : Graph)
    → (mark_cancelled id f g).feature_successors ≡ g.feature_successors
unfolding mark_cancelled
mark-successors id f g = refl

root_cancelled :
    (R : String → Type 0) (id : FeatureId) (f : Feature) (g h : Graph)
    → Cancels R (mark_cancelled id f g) h
    → get id h.features ≡ some (cancelled_feature f)
root_cancelled R id f g h c =
    let marked : get id (mark_cancelled id f g).features ≡ some (cancelled_feature f) =
      rw (get-mark, beq_self id) refl in
    elim (c.changed id) [
      | inl same ↦ same ∙ marked
      | inr (f', at, now, _) ↦ now ∙ cancelled_twice f f' (sym at ∙ marked)
    ]

visit-Cancels :
    (id : FeatureId) (f : Feature) (g h : Graph)
    → get id g.features ≡ some f
    → Cancels (Reaches g.feature_successors id) (mark_cancelled id f g) h
    → ((u : String) → Memᴰ u (nexts id g.feature_successors) → is_live (get u h.features) ≡ false)
    → Cancelled id g h
unfolding mark_cancelled
visit-Cancels id f g h at c all = (
  record {
    successors = c.successors;
    changed = λ u. elim (Bool-cases (id == u)) [
      | inl same ↦
          let q = eq_of_beq id u same in
          inr (
            f,
            subst (λ v. get v g.features ≡ some f) q at,
            subst (λ v. get v h.features ≡ some (cancelled_feature f)) q
                (root_cancelled _ id f g h c),
            subst (Reaches _ id) q here,
          )
      | inr other ↦
          subst
            (λ o.
              (get u h.features ≡ o)
              ⊎ ((x : Feature) × (o ≡ some x)
                  × (get u h.features ≡ some (cancelled_feature x))
                  × Reaches g.feature_successors id u))
            (rw (get-mark, other) refl) (c.changed u)
    ];
    closed = λ u w live dead m. elim (Bool-cases (id == u)) [
      | inl same ↦
          all w (subst (λ v. Memᴰ w (nexts v g.feature_successors)) (sym (eq_of_beq id u same)) m)
      | inr other ↦ c.closed u w (rw (get-mark, other) live) dead m
    ];
  },
  rw (root_cancelled _ id f g h c) refl,
)

cascade-Cancels :
    (fuel : ℕ) (g h : Graph) (id : FeatureId) (f : Feature)
    → get id g.features ≡ some f
    → cancel_cascade fuel g id f ≡ some h
    → Cancelled id g h
unfolding cancel_cascade
cascade-Cancels zero g h id f at e = cc
cascade-Cancels (suc fuel) g h id f at e =
    let (c, all) =
      cascade_over-Cancels (cancel_cascade fuel) (cascade-Cancels fuel)
        (Reaches g.feature_successors id) g.feature_successors (nexts id g.feature_successors)
        (mark_cancelled id f g) h (mark-successors id f g) (λ u w p q. Reaches-trans p q)
        (λ u m. step here m) e in
    visit-Cancels id f g h at c all
