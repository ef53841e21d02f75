-- ===== src/RetryPolicy/Patterns.antt =====
-- What `isTransient` of src/runtime/retry-policy.ts finds in an error, and when it is tried again.
use mathlib.Core.List.Memᴰ
use Prim.Native.Nat.{compare as compare_ℕ}
use Prim.Native.Char.{code, len_utf8}
use Prim.Native.String.append
use Prim.Native.String.find
use Prim.Native.String.len
use Prim.Native.String.{[] as empty, ◌∷◌ as ◌∷ˢ◌, ◌++◌ as ◌++ˢ◌, len, find, begins, same}
use text.Mathlib.Text.{find?}
use text.Mathlib.TextFind.{find_cases, begins_cases}
use text.Mathlib.TextPositions.{len-append}
use vcode.Base.{
  ℕ, ◌+◌, ◌≤◌, ◌<◌, String, ◌≡◌, refl, sym, ap, ◌∙◌, subst, ◌↔◌, ◌⊎◌, inl, inr, arith, Bool, true,
  false, List, [], ◌∷◌, Memᴰ, Bool-cases, is_some, Ordering, if◌then◌else◌,
}
use vcode.RetryPolicy.{
  TransientPattern, RetryPolicy, RandomNumber, RetryDecision, EscalationReason,
  compute_retry_backoff_ms, is_transient, decide_retry,
}

compare_same : (n : ℕ) → compare_ℕ n n ≡ Ordering.eq
compare_same n = ground arith

begins-prefix : (t v : String) (y n : ℕ) → begins (t ++ˢ v) t y n ≡ y
begins-prefix String.[] v y n = ap (λ k. begins k empty y n) (append.nil v)
begins-prefix (d ∷ˢ t) v y n =
    ap (λ k. begins k (d ∷ˢ t) y n) (append.cons d t v)
    ∙ ap (λ o. same o (begins (t ++ˢ v) t y n) n) (compare_same (code d))
    ∙ begins-prefix t v y n

find-prefix : (s t v : String) → s ≡ t ++ˢ v → find s t ≡ 0
find-prefix String.[] t v e = find.nil t ∙ ap (λ k. begins k t 0 1) e ∙ begins-prefix t v 0 1
find-prefix (c ∷ˢ s) t v e =
    let n = len_utf8 c + find s t in
    find.cons c s t ∙ ap (λ k. begins k t 0 n) e ∙ begins-prefix t v 0 n

find-le : (u t v : String) → find (u ++ˢ (t ++ˢ v)) t ≤ len u
find-le String.[] t v =
    let at = find-prefix (empty ++ˢ (t ++ˢ v)) t v (append.nil (t ++ˢ v)) in omega (arith, at)
find-le (c ∷ˢ u) t v =
    let w = u ++ˢ (t ++ˢ v) in
    let later = find-le u t v in
    let total = len.cons c u in
    let step : find ((c ∷ˢ u) ++ˢ (t ++ˢ v)) t ≡ begins (c ∷ˢ w) t 0 (len_utf8 c + find w t) =
      ap (λ k. find k t) (append.cons c u (t ++ˢ v)) ∙ find.cons c w t in
    elim (begins_cases (c ∷ˢ w) t 0 (len_utf8 c + find w t)) [
      | inl (here, _) ↦ omega (arith, step, here)
      | inr on ↦ omega (arith, step, on, later, total)
    ]

-- `includes` finds a text in another exactly where it stands in it.
abbrev pub Contains : String → String → Type 0
Contains s t = (u : String) × (v : String) × (s ≡ u ++ˢ (t ++ˢ v))

find_iff : (s t : String) → (is_some (find? s t) ≡ true) ↔ Contains s t
find_iff s t = (
  λ h. elim (find_cases s t) [
    | inl (u, v, parts, _) ↦ (u, v, parts)
    | inr miss ↦ absurd (ground (arith, miss, h))
  ],
  λ (u, v, parts).
      let low : find s t ≤ len u = subst (λ k. find k t ≤ len u) (sym parts) (find-le u t v) in
      let size = ap len parts ∙ len-append u (t ++ˢ v) in ground (arith, low, size),
)

first_or_rest :
    (b rest : Bool) {A B C : Type 0}
    → (b ≡ true) ↔ A
    → (rest ≡ true) ↔ B
    → C ↔ (A ⊎ B)
    → ((if b then true else rest) ≡ true) ↔ C
first_or_rest true rest first others split = (λ _. split.1 (inl (first.0 refl)), λ _. refl)
first_or_rest false rest first others split = (
  λ h. split.1 (inr (others.0 h)),
  λ c. elim (split.0 c) [ inl a ↦ (let h = first.1 a in cc) | inr b ↦ others.1 b ],
)

module _ (to_lower_case : String → String) where
  -- A text is matched without regard to case, and a regular expression as its test says.
  abbrev pub Matches : String → TransientPattern → Type 0
  Matches error (TransientPattern.substring pattern) =
      Contains (to_lower_case error) (to_lower_case pattern)
  Matches error (TransientPattern.regexp test) = test error ≡ true

  abbrev pub MatchesSome : String → List TransientPattern → Type 0
  MatchesSome error patterns = (p : TransientPattern) × Memᴰ p patterns × Matches error p

  MatchesSome-cons :
      (error : String) (p : TransientPattern) (ps : List TransientPattern)
      → MatchesSome error (p ∷ ps) ↔ (Matches error p ⊎ MatchesSome error ps)
  MatchesSome-cons error p ps = (
    λ (q, m, h). elim (Memᴰ.cases_cons m) [
      | inl same ↦ inl (subst (Matches error) same h)
      | inr later ↦ inr (q, later, h)
    ],
    λ c. elim c [ inl h ↦ (p, Memᴰ.head refl, h) | inr (q, m, h) ↦ (q, Memᴰ.tail m, h) ],
  )

  is_transient_iff :
      (error : String) (ps : List TransientPattern)
      → (is_transient to_lower_case error ps ≡ true) ↔ MatchesSome error ps
  unfolding is_transient
  is_transient_iff error [] = (λ h. cc, λ (p, m, h). absurd (Memᴰ.not-nil m))
  is_transient_iff error (TransientPattern.substring pattern ∷ ps) =
      first_or_rest _ (is_transient to_lower_case error ps)
        (find_iff (to_lower_case error) (to_lower_case pattern)) (is_transient_iff error ps)
        (MatchesSome-cons error (TransientPattern.substring pattern) ps)
  is_transient_iff error (TransientPattern.regexp test ∷ ps) =
      first_or_rest (test error) (is_transient to_lower_case error ps) (λ h. h, λ h. h)
        (is_transient_iff error ps) (MatchesSome-cons error (TransientPattern.regexp test) ps)

-- `decideRetry` tries again exactly for an error that one of the patterns matches, below the cap of
-- attempts, with the delay of the backoff; it names exhausted retries exactly for such an error from the
-- cap on, and a semantic failure exactly for an error that no pattern matches. A text matches where it
-- stands anywhere in the error, both in lower case, and a regular expression by its test.
pub decide_retry_iff :
    (to_lower_case : String → String) (error : String) (attempt : ℕ) (policy : RetryPolicy)
    (random : RandomNumber)
    → ((delay : ℕ)
        → (decide_retry to_lower_case error attempt policy random ≡ RetryDecision.retry delay) ↔ (
            MatchesSome to_lower_case error policy.transient_patterns
            × (attempt < policy.retry_cap)
            × (delay ≡ compute_retry_backoff_ms attempt policy random)))
      × ((decide_retry to_lower_case error attempt policy random
            ≡ RetryDecision.escalate_inbox EscalationReason.retry_exhausted)
          ↔ (MatchesSome to_lower_case error policy.transient_patterns
              × (policy.retry_cap ≤ attempt)))
      × ((decide_retry to_lower_case error attempt policy random
            ≡ RetryDecision.escalate_inbox EscalationReason.semantic_failure)
          ↔ ¬ MatchesSome to_lower_case error policy.transient_patterns)
unfolding decide_retry
decide_retry_iff to_lower_case error attempt policy random =
    let matched = is_transient_iff to_lower_case error policy.transient_patterns in
    elim (Bool-cases (is_transient to_lower_case error policy.transient_patterns)) [
      | inl transient ↦
          let some_match = matched.0 transient in
          (
            λ delay.
                (λ e. (some_match, ground arith, ground arith), λ (_, below, same). ground arith),
            (λ e. (some_match, ground arith), λ (_, above). ground arith),
            (λ e. absurd (ground arith), λ no. absurd (no some_match)),
          )
      | inr final ↦
          let no_match : ¬ MatchesSome to_lower_case error policy.transient_patterns =
            λ m. let h = matched.1 m in cc in
          (
            λ delay. (λ e. absurd (ground arith), λ (m, _, _). absurd (no_match m)),
            (λ e. absurd (ground arith), λ (m, _). absurd (no_match m)),
            (λ e. no_match, λ _. ground arith),
          )
    ]
