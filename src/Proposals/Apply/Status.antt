-- ===== src/Proposals/Apply/Status.antt =====
-- A feature with its status, through the writes that src/core/graph makes to the features.
use vcode.Base.{
  String, ◌≡◌, ◌≢◌, refl, sym, ap, ◌∙◌, inl, inr, arith, none, some, Bool-cases, ◌==◌, eq_of_beq,
  eq_iff, string_eq,
}
use vcode.Base.Dict.{get, set, get-set, get-delete, delete}
use vcode.Types.Workflow.{UnitStatus, unit_status_eq}
use vcode.Types.Domain.{Feature}
use vcode.Graph.Store.{Graph}
use vcode.Graph.Side.{get-map_values}
use vcode.Graph.Mutations.{map_values}
use vcode.Graph.Features.{strip_feature_dep}

-- The feature is there with the status.
abbrev pub HasStatus : String → UnitStatus → Graph → Type 0
HasStatus id s g = (f : Feature) × (get id g.features ≡ some f) × (f.status ≡ s)

module _ (id : String) (s : UnitStatus) where
  pub same-features : (g h : Graph) → h.features ≡ g.features → HasStatus id s g → HasStatus id s h
  same-features g h e (f, at, is) = (f, ap (get id) e ∙ at, is)

  -- A write to the features of a node that keeps its status.
  pub write-HasStatus :
      (g h : Graph) (k : String) (x x' : Feature)
      → get k g.features ≡ some x
      → x'.status ≡ x.status
      → h.features ≡ set k x' g.features
      → HasStatus id s g
      → HasStatus id s h
  write-HasStatus g h k x x' there keeps e (f, at, is) = elim (Bool-cases (k == id)) [
    | inl same ↦
        let one : f ≡ x =
          some_of (sym at ∙ ap (λ i. get i g.features) (sym (eq_of_beq k id same)) ∙ there) in
        (x', ap (get id) e ∙ rw (get-set, same) refl, keeps ∙ ap (λ y. y.status) (sym one) ∙ is)
    | inr other ↦ (f, ap (get id) e ∙ rw (get-set, other) at, is)
  ]
    where
      some_of : {A : Type 0} {a b : A} → some a ≡ some b → a ≡ b
      some_of q = cc

  pub create_feature-HasStatus :
      (g h : Graph) (k : String) (x' : Feature)
      → get k g.features ≡ none
      → h.features ≡ set k x' g.features
      → HasStatus id s g
      → HasStatus id s h
  create_feature-HasStatus g h k x' fresh e (f, at, is) = elim (Bool-cases (k == id)) [
    | inl same ↦ cc (sym at ∙ ap (λ i. get i g.features) (sym (eq_of_beq k id same)) ∙ fresh)
    | inr other ↦ (f, ap (get id) e ∙ rw (get-set, other) at, is)
  ]

  pub remove-HasStatus :
      (g h : Graph) (k : String)
      → k ≢ id
      → h.features ≡ delete k (map_values (strip_feature_dep k) g.features)
      → HasStatus id s g
      → HasStatus id s h
  remove-HasStatus g h k apart e (f, at, is) =
      elim (get-map_values (strip_feature_dep k) id g.features) [
        | inl (gone, _) ↦ cc (sym at ∙ gone)
        | inr (x, there, stripped) ↦ (
          strip_feature_dep k x,
          ap (get id) e
              ∙ ground (
                arith,
                get-delete k id (map_values (strip_feature_dep k) g.features),
                eq_iff k id,
              ),
          status k x ∙ ap (λ y. y.status) (some_of (sym there ∙ at)) ∙ is,
        )
      ]
    where
      some_of : {A : Type 0} {a b : A} → some a ≡ some b → a ≡ b
      some_of q = cc

      status : (k : String) (x : Feature) → (strip_feature_dep k x).status ≡ x.status
      status k x = ground arith
