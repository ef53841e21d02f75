-- ===== src/Scheduling/Metrics/Longest.antt =====
-- The metrics of src/core/scheduling/index.ts are the lengths of the longest paths.
use vcode.Base.{
  ℕ, zero, suc, ◌+◌, ◌<◌, String, ◌≡◌, refl, sym, ap, ◌∙◌, ◌⊎◌, inl, inr, arith, List, [], ◌∷◌,
  Option, none, some, Option-cases, string_eq, Memᴰ,
}
use vcode.Base.Dict.{Dict, get, Every, Every-set}
use vcode.Scheduling.Metrics.{Visit, larger_of, best_over, NodeInfo, remember, memoized}

-- The largest value over neighbours, without a cache.
unfoldable pub best_of : (String → ℕ) → (String → Option ℕ) → List String → ℕ → ℕ
best_of value extra [] best = best
best_of value extra (x ∷ xs) best = elim (extra x) [
  | none ↦ best_of value extra xs best
  | some w ↦ best_of value extra xs (larger_of best (value x + w))
]

-- Values that solve the equation of the pass.
abbrev pub Solves : NodeInfo → (String → Option ℕ) → (String → ℕ) → Type 0
Solves info extra value =
    (id : String)
    → ((info id ≡ none) × (value id ≡ 0))
      ⊎ ((base : ℕ) × (ns : List String) × (info id ≡ some (base, ns))
          × (value id ≡ base + best_of value extra ns 0))

module _ (visit : Visit) (extra : String → Option ℕ) (x : String) (xs : List String) (best : ℕ)
    (cache : Dict ℕ) where
  pub best_over-skip :
      extra x ≡ none
      → best_over visit extra (x ∷ xs) best cache ≡ best_over visit extra xs best cache
  unfolding best_over
  best_over-skip e = ground arith

  pub best_over-take :
      (w : ℕ)
      → extra x ≡ some w
      → best_over visit extra (x ∷ xs) best cache
        ≡ best_over visit extra xs (larger_of best ((visit x cache).0 + w)) (visit x cache).1
  unfolding best_over
  best_over-take w e = ground arith

module _ (value : String → ℕ) (extra : String → Option ℕ) (x : String) (xs : List String)
    (best : ℕ) where
  best_of-skip : extra x ≡ none → best_of value extra (x ∷ xs) best ≡ best_of value extra xs best
  unfolding best_of
  best_of-skip e = ground arith

  best_of-take :
      (w : ℕ)
      → extra x ≡ some w
      → best_of value extra (x ∷ xs) best ≡ best_of value extra xs (larger_of best (value x + w))
  unfolding best_of
  best_of-take w e = ground arith

module _ (info : NodeInfo) (extra : String → Option ℕ) (fuel : ℕ) (x : String)
    (cache : Dict ℕ) where
  pub memoized-hit :
      (v : ℕ) → get x cache ≡ some v → memoized info extra (suc fuel) x cache ≡ (v, cache)
  unfolding memoized
  memoized-hit v e = ground arith

  pub memoized-gone :
      get x cache ≡ none → info x ≡ none → memoized info extra (suc fuel) x cache ≡ (0, cache)
  unfolding memoized
  memoized-gone e k = ground arith

  pub memoized-new :
      (base : ℕ) (ns : List String)
      → get x cache ≡ none
      → info x ≡ some (base, ns)
      → memoized info extra (suc fuel) x cache
        ≡ remember x base (best_over (memoized info extra fuel) extra ns 0 cache)
  unfolding memoized
  memoized-new base ns e k = ground arith

module _ (info : NodeInfo) (extra : String → Option ℕ) (value : String → ℕ)
    (solves : Solves info extra value) (rank : String → ℕ)
    (down : (id : String) (base : ℕ) (ns : List String)
      → info id ≡ some (base, ns)
      → (x : String) → Memᴰ x ns
      → rank x < rank id) where
  -- What is remembered is right.
  abbrev pub IsRight : Dict ℕ → Type 0
  IsRight cache = Every (λ id v. v ≡ value id) cache

  abbrev pub IsRightFor : ℕ → ℕ × Dict ℕ → Type 0
  IsRightFor v r = (r.0 ≡ v) × IsRight r.1

  abbrev pub VisitsRight : (String → Type 0) → Visit → Type 0
  VisitsRight P visit =
      (x : String) (cache : Dict ℕ) → P x → IsRight cache → IsRightFor (value x) (visit x cache)

  best_over-right :
      (visit : Visit) (xs : List String) (best : ℕ) (cache : Dict ℕ)
      → VisitsRight (λ x. Memᴰ x xs) visit
      → IsRight cache
      → IsRightFor (best_of value extra xs best) (best_over visit extra xs best cache)
  unfolding best_over best_of
  best_over-right visit [] best cache right ok = (refl, ok)
  best_over-right visit (x ∷ xs) best cache right ok = elim (Option-cases (extra x)) [
    | inl skipped ↦
        rw
          (
            best_of-skip value extra x xs best skipped,
            best_over-skip visit extra x xs best cache skipped,
          )
          (best_over-right visit xs best cache (λ y c m k. right y c (Memᴰ.tail m) k) ok)
    | inr (w, e) ↦
        let (same, kept) = right x cache (Memᴰ.head refl) ok in
        rw
          (
            best_of-take value extra x xs best w e,
            best_over-take visit extra x xs best cache w e,
            ← same,
          )
          (best_over-right visit xs (larger_of best ((visit x cache).0 + w)) (visit x cache).1
            (λ y c m k. right y c (Memᴰ.tail m) k) kept)
  ]

  remember-right :
      (x : String) (base : ℕ) (ns : List String) (r : ℕ × Dict ℕ)
      → value x ≡ base + best_of value extra ns 0
      → IsRightFor (best_of value extra ns 0) r
      → IsRightFor (value x) (remember x base r)
  remember-right x base ns (best, cache) is (same, ok) =
      let sum : base + best ≡ value x = ap (λ b. base + b) same ∙ sym is in
      (sum, Every-set (λ id v. v ≡ value id) x (base + best) cache ok sum)

  pub memoized-right : (fuel : ℕ) → VisitsRight (λ x. rank x < fuel) (memoized info extra fuel)
  memoized-right zero x cache low ok = absurd (omega arith)
  memoized-right (suc fuel) x cache low ok = elim (Option-cases (get x cache)) [
    | inr (v, hit) ↦ rw (memoized-hit info extra fuel x cache v hit) (ok x v hit, ok)
    | inl miss ↦ elim (solves x) [
      | inl (gone, is) ↦ rw (memoized-gone info extra fuel x cache miss gone) (sym is, ok)
      | inr (base, ns, there, is) ↦ rw (memoized-new info extra fuel x cache base ns miss there) (
          remember-right x base ns (best_over (memoized info extra fuel) extra ns 0 cache) is (
            best_over-right (memoized info extra fuel) ns 0 cache
              (λ y c m k. memoized-right fuel y c (omega (arith, down x base ns there y m)) k) ok))
    ]
  ]
