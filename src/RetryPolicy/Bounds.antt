-- ===== src/RetryPolicy/Bounds.antt =====
-- The bounds of the delays of src/runtime/retry-policy.ts.
use Prim.Native.Nat.{◌/◌, ◌%◌}
use native.Mathlib.Nat.{
  mul-le-mul_left, le_of_mul-le-mul_left, lt_of_mul-lt-mul_left, mul-add, div-add-mod, mod-lt,
  mul-pos,
}
use vcode.Base.{
  ℕ, zero, suc, ◌+◌, ◌-◌, ◌*◌, ◌≤◌, ◌<◌, ◌≡◌, refl, sym, subst, inl, inr, arith, Bool-cases, ◌==◌,
  nat_eq,
}
use vcode.RetryPolicy.{
  RetryPolicy, RandomNumber, min, doubled, capped_delay, jittered, compute_retry_backoff_ms,
}

-- For the numerator of the jittered delay with `x` for the jitter's part.
module _ (c d x w p q num : ℕ) (pos : zero < w) (unit : zero < d) (small : p ≤ w)
    (is : num ≡ c * (w * d) + x * (2 * p) - x * w) (quot : q ≡ num / (w * d)) where
  twice : x * (2 * p) ≤ x * w + x * w
  twice = subst (λ k. x * (2 * p) ≤ k) (mul-add x w w) (mul-le-mul_left x (omega arith))

  spread : w * (c * d + x) ≡ c * (w * d) + x * w
  spread = omega arith

  division : w * d * q + num % (w * d) ≡ num
  division = subst (λ k. w * d * k + num % (w * d) ≡ num) (sym quot) (div-add-mod num (w * d))

  rest : num % (w * d) < w * d
  rest = mod-lt num (mul-pos pos unit)

  upper : d * q ≤ c * d + x
  upper = le_of_mul-le-mul_left {k = w} (omega (arith, spread, twice, is, division)) pos

  lower : c * d < d * suc q + x
  lower = lt_of_mul-lt-mul_left w (omega (arith, spread, is, division, rest))

min-le : (a b : ℕ) → (min a b ≤ a) × (min a b ≤ b)
min-le a b = (ground arith, ground arith)

doubled_mono : (base n m : ℕ) → n ≤ m → doubled base n ≤ doubled base m
unfolding doubled
doubled_mono base zero zero h = omega arith
doubled_mono base zero (suc m) h = omega (arith, doubled_mono base zero m (omega arith))
doubled_mono base (suc n) zero h = absurd (omega arith)
doubled_mono base (suc n) (suc m) h = omega (arith, doubled_mono base n m (omega arith))

-- The delay without jitter grows with the attempts, never above the maximum.
pub capped_delay_mono :
    (policy : RetryPolicy) (n m : ℕ)
    → n ≤ m
    → (capped_delay n policy ≤ capped_delay m policy)
      × (capped_delay m policy ≤ policy.max_delay_ms)
capped_delay_mono policy n m h = (
  ground (arith, doubled_mono policy.base_delay_ms (min n 30) (min m 30) (ground arith)),
  (min-le _ policy.max_delay_ms).1,
)

jittered_bounds :
    (capped : ℕ) (policy : RetryPolicy) (random : RandomNumber)
    → zero < policy.jitter_unit
    → random.part < random.whole
    → (policy.jitter_unit * jittered capped policy random
        ≤ policy.jitter_unit * capped + policy.jitter * capped)
      × (policy.jitter_unit * capped
          < policy.jitter_unit * suc (jittered capped policy random) + policy.jitter * capped)
unfolding jittered
jittered_bounds capped policy random unit below =
    let d = policy.jitter_unit in
    let w = random.whole in
    let x = capped * policy.jitter in
    let num = capped * (w * d) + x * (2 * random.part) - x * w in
    let pos : zero < w = omega arith in
    let high =
      upper capped d x w random.part (num / (w * d)) num pos unit (omega arith) refl refl in
    let low = lower capped d x w random.part (num / (w * d)) num pos unit (omega arith) refl refl in
    (omega (arith, high), omega (arith, low))

-- For a random number below one, the delay differs from the capped one by at most the jitter, and one
-- more for the rounding down; so it is never above the maximum by more than the jitter of the maximum,
-- whatever the attempt. All are multiplied by the unit of the jitter.
pub backoff_bounds :
    (attempt : ℕ) (policy : RetryPolicy) (random : RandomNumber)
    → zero < policy.jitter_unit
    → random.part < random.whole
    → (policy.jitter_unit * compute_retry_backoff_ms attempt policy random
        ≤ policy.jitter_unit * capped_delay attempt policy
          + policy.jitter * capped_delay attempt policy)
      × (policy.jitter_unit * capped_delay attempt policy
          < policy.jitter_unit * suc (compute_retry_backoff_ms attempt policy random)
            + policy.jitter * capped_delay attempt policy)
      × (policy.jitter_unit * compute_retry_backoff_ms attempt policy random
          ≤ (policy.jitter_unit + policy.jitter) * policy.max_delay_ms)
unfolding compute_retry_backoff_ms
backoff_bounds attempt policy random unit below =
    let capped = capped_delay attempt policy in
    let most : capped ≤ policy.max_delay_ms = (min-le _ policy.max_delay_ms).1 in
    let whole = mul-le-mul_left policy.jitter_unit most in
    let part = mul-le-mul_left policy.jitter most in
    elim (Bool-cases (policy.jitter == 0)) [
      | inl still ↦ rw still (omega (arith, unit), omega (arith, unit), omega (arith, whole))
      | inr moves ↦
          let (high, low) = jittered_bounds capped policy random unit below in
          rw moves (high, low, omega (arith, high, whole, part))
    ]
