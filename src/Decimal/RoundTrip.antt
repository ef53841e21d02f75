-- ===== src/Decimal/RoundTrip.antt =====
-- A number that is printed is read back.
use Prim.Native.Char.{Char, code}
use Prim.Native.Nat.{◌/◌, ◌%◌}
use vcode.Base.{
  ℕ, zero, suc, ◌+◌, ◌≤◌, ◌<◌, true, false, some, String, ◌==◌, nat_eq, ◌≡◌, refl, ap, subst, arith,
  inl, inr, Bool-cases,
}
use vcode.Decimal.{
  ◌∷◌, digit, emit, show_nat, is_digit, is_space, skip_spaces, scan, parse_digits, parse_signed,
  parse_integer,
}

code-digit : (d : ℕ) → d < 10 → code (digit d) ≡ b'0' + d
code-digit zero h = refl
code-digit (suc zero) h = refl
code-digit (suc (suc zero)) h = refl
code-digit (suc (suc (suc zero))) h = refl
code-digit (suc (suc (suc (suc zero)))) h = refl
code-digit (suc (suc (suc (suc (suc zero))))) h = refl
code-digit (suc (suc (suc (suc (suc (suc zero)))))) h = refl
code-digit (suc (suc (suc (suc (suc (suc (suc zero))))))) h = refl
code-digit (suc (suc (suc (suc (suc (suc (suc (suc zero)))))))) h = refl
code-digit (suc (suc (suc (suc (suc (suc (suc (suc (suc zero))))))))) h = refl
code-digit (suc (suc (suc (suc (suc (suc (suc (suc (suc (suc n)))))))))) h = absurd (omega arith)

is_digit-digit : (d : ℕ) → d < 10 → is_digit (digit d) ≡ true
is_digit-digit d h = ground (arith, code-digit d h)

scan-digit : (n : ℕ) (out : String) → scan (digit (n % 10) ∷ out) (n / 10) ≡ scan out n
unfolding scan
scan-digit n out =
    rw (is_digit-digit (n % 10) (omega arith), code-digit (n % 10) (omega arith))
      (ap (scan out) (omega arith))

scan-emit : (fuel n : ℕ) (out : String) → n ≤ fuel → scan (emit fuel n out) 0 ≡ scan out n
unfolding emit
scan-emit zero n out h = ap (scan out) (omega arith)
scan-emit (suc fuel) n out h =
    ground (arith, scan-emit fuel (n / 10) (digit (n % 10) ∷ out), scan-digit n out)

abbrev StartsDigit : String → Type 0
StartsDigit t = (d : Char) × (s : String) × (is_digit d ≡ true) × (t ≡ d ∷ s)

StartsDigit-emit : (fuel n : ℕ) (out : String) → StartsDigit out → StartsDigit (emit fuel n out)
unfolding emit
StartsDigit-emit zero n out h = h
StartsDigit-emit (suc fuel) n out h = elim (Bool-cases (n == 0)) [
  | inl z ↦ subst StartsDigit (rw z) h
  | inr nz ↦ subst StartsDigit (rw nz) (
      StartsDigit-emit fuel (n / 10) (digit (n % 10) ∷ out)
        (digit (n % 10), out, is_digit-digit (n % 10) (omega arith), refl))
]

emit-StartsDigit : (n : ℕ) → (n == 0) ≡ false → StartsDigit (emit n n "")
unfolding emit
emit-StartsDigit zero h = absurd (ground (arith, h))
emit-StartsDigit (suc n) h = rw h (
    StartsDigit-emit n (suc n / 10) (digit (suc n % 10) ∷ "")
      (digit (suc n % 10), "", is_digit-digit (suc n % 10) (omega arith), refl))

no_sign : (d : Char) (b : ℕ) → is_digit d ≡ true → b < b'0' → (code d == b) ≡ false
no_sign d b h k = ground arith

not_space : (d : Char) → is_digit d ≡ true → is_space (code d) ≡ false
not_space d h = ground arith

parse_integer-scan :
    (d : Char) (s : String)
    → is_digit d ≡ true
    → parse_integer (d ∷ s) ≡ some (false, scan (d ∷ s) 0)
unfolding parse_integer skip_spaces parse_signed parse_digits
parse_integer-scan d s h =
    rw (not_space d h, h, no_sign d b'-' h (omega arith), no_sign d b'+' h (omega arith)) refl

parse_zero : parse_integer "0" ≡ some (false, 0)
unfolding parse_integer skip_spaces parse_signed parse_digits scan
parse_zero = refl

-- Reading the digits of a number gives the number, not NaN and without a sign.
pub parse-show : (n : ℕ) → parse_integer (show_nat n) ≡ some (false, n)
unfolding show_nat scan
parse-show n = elim (Bool-cases (n == 0)) [
  | inl z ↦ rw (z, parse_zero) (ap (λ k. some (false, k)) {x = 0} {y = n} (ground arith))
  | inr nz ↦
      let (d, s, h, e) = emit-StartsDigit n nz in
      let read : scan (d ∷ s) 0 ≡ n =
        subst (λ t. scan t 0 ≡ n) e (scan-emit n n "" (omega arith)) in
      rw (nz, e, parse_integer-scan d s h, read) refl
]
