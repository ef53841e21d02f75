-- ===== src/Base/Results.antt =====
-- Results of code that throws: `err e` is the exception, with `do` blocks for chains of checks.
use mathlib.Core.Bool.{Bool, true, false}

pub data Result {ℓ} (E : Type 0) (A : Type ℓ) : Type ℓ where
  ok : A → Result E A
  err : E → Result E A

infixl 5 ◌>>◌ ◌>>=◌
abbrev pub ◌>>=◌ {ℓ κ} :
    {E : Type 0} {A : Type ℓ} {B : Type κ} → Result E A → (A → Result E B) → Result E B
err thrown >>= k = err thrown
ok a >>= k = k a

abbrev pub ◌>>◌ {ℓ} : {E : Type 0} {B : Type ℓ} → Result E (Unit {0}) → Result E B → Result E B
first >> then = first >>= λ _. then

-- `if (b) throw e`
abbrev pub throw_if : {E : Type 0} → Bool → E → Result E (Unit {0})
throw_if true e = err e
throw_if false e = ok tt
