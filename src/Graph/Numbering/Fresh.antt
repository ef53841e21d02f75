-- ===== src/Graph/Numbering/Fresh.antt =====
-- A number above all that are read names a new key.
use mathlib.Core.List.Memᴰ
use vcode.Base.{
  ℕ, ◌≤◌, ◌<◌, String, ◌≡◌, refl, inl, inr, arith, Bool, false, List, [], ◌∷◌, Option, none, some,
  Memᴰ, Option-cases, string_eq, subst,
}
use vcode.Base.Dict.{mem-keys, Dict, get, keys}
use vcode.Decimal.{larger}
use vcode.Doubles.{exact_limit, parse_int-number_text}
use vcode.Naming.{strip_prefix}
use vcode.Graph.Numbering.{highest, task_number, task_id}

larger-max : (o : Option (Bool × ℕ)) (max : ℕ) → max ≤ larger o max
unfolding larger
larger-max none max = omega arith
larger-max (some (Bool.true, n)) max = omega arith
larger-max (some (false, n)) max = ground arith

larger-n : (n max : ℕ) → n ≤ larger (some (false, n)) max
unfolding larger
larger-n n max = ground arith

module _ (number : String → Option (Bool × ℕ)) where
  pub highest-max : (ks : List String) (max : ℕ) → max ≤ highest number ks max
  unfolding highest
  highest-max [] max = omega arith
  highest-max (k ∷ ks) max =
      ground (arith, highest-max ks (larger (number k) max), larger-max (number k) max)

  highest-mem :
      (k : String) (n : ℕ) (ks : List String) (max : ℕ)
      → number k ≡ some (false, n)
      → Memᴰ k ks
      → n ≤ highest number ks max
  unfolding highest
  highest-mem k n [] max e m = absurd (Memᴰ.not-nil m)
  highest-mem k n (j ∷ ks) max e m = elim (Memᴰ.cases_cons m) [
    | inl same ↦
        let read : number j ≡ some (false, n) = subst (λ x. number x ≡ some (false, n)) same e in
        rw read (ground (arith, highest-max ks (larger (some (false, n)) max), larger-n n max))
    | inr later ↦ highest-mem k n ks (larger (number j) max) e later
  ]

  -- A key that reads as a number above the highest is not there.
  pub highest-fresh :
      {V : Type 0} (k : String) (n : ℕ) (m : Dict V) (max : ℕ)
      → number k ≡ some (false, n)
      → highest number (keys m) max < n
      → get k m ≡ none
  highest-fresh k n m max e above = elim (Option-cases (get k m)) [
    | inl gone ↦ gone
    | inr (v, at) ↦
        let low = highest-mem k n (keys m) max e (mem-keys k m (λ gone. cc)) in absurd (omega arith)
  ]

-- The number that `addTask` reads in an id that it made is the number that the id was made of.
pub task_number-id : (n : ℕ) → n ≤ exact_limit → task_number (task_id n) ≡ some (false, n)
unfolding strip_prefix
task_number-id n exact = parse_int-number_text n exact

larger-below :
    (o : Option (Bool × ℕ)) (max limit : ℕ)
    → max < limit
    → ((n : ℕ) → o ≡ some (false, n) → n < limit)
    → larger o max < limit
unfolding larger
larger-below none max limit h below = h
larger-below (some (Bool.true, n)) max limit h below = h
larger-below (some (false, n)) max limit h below = let low = below n refl in ground arith

pub highest-below :
    (number : String → Option (Bool × ℕ)) (ks : List String) (max limit : ℕ)
    → max < limit
    → ((k : String) (n : ℕ) → Memᴰ k ks → number k ≡ some (false, n) → n < limit)
    → highest number ks max < limit
unfolding highest
highest-below number [] max limit h below = h
highest-below number (k ∷ ks) max limit h below =
    highest-below number ks (larger (number k) max) limit
      (larger-below (number k) max limit h (λ n e. below k n (Memᴰ.head refl) e))
      (λ j n m e. below j n (Memᴰ.tail m) e)
