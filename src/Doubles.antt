-- ===== src/Doubles.antt =====
-- The numbers of the code, which are doubles: whole numbers up to 2^53 are exact, above that a result
-- is the nearest double, at a tie the even one. A whole number that is none below 2^1024 is Infinity.
use Prim.Native.Nat.{◌/◌, ◌%◌}
use Prim.Native.String.{◌++◌}
use vcode.Base.{
  ℕ, zero, suc, ◌+◌, ◌-◌, ◌*◌, ◌≤◌, ◌≡◌, Bool, true, false, ◌&&◌, String, ◌==◌, nat_eq, leb, ltb,
  if◌then◌else◌, Option, none, some, ap, ◌∙◌, arith, refl,
}
use vcode.Decimal.{◌∷◌, show_nat, emit, parse_integer}
use vcode.Decimal.RoundTrip.{parse-show}

-- `Number.MAX_SAFE_INTEGER + 1`
abbrev pub exact_limit : ℕ
exact_limit = 9007199254740992

unfoldable pub power : ℕ → ℕ → ℕ
power b zero = 1
power b (suc n) = b * power b n

-- The multiple of `unit` that is nearest, at a tie the even one.
abbrev nearest : ℕ → ℕ → ℕ
nearest unit n =
    let q = n / unit in
    let twice = 2 * (n % unit) in
    unit * (if ltb twice unit then q else if ltb unit twice then suc q else q + q % 2)

-- The double next to `n`: the units are the powers of two, and one fits.
unfoldable pub round_from : ℕ → ℕ → ℕ → ℕ
round_from zero unit n = power 2 1024
round_from (suc fuel) unit n = elim (ltb (n / unit) exact_limit) [
  | true ↦ nearest unit n
  | false ↦ round_from fuel (2 * unit) n
]

unfoldable pub rounded : ℕ → ℕ
rounded n = elim (leb n exact_limit) [ true ↦ n | false ↦ round_from 971 2 n ]

-- The fewest digits, with the zeros that follow, that are read as the same double, and of these the
-- nearest: for a number of at most as many zeros as the first argument.
unfoldable pub shortest : ℕ → ℕ → ℕ × ℕ
shortest zero n = (n, zero)
shortest (suc p) n =
    let unit = power 10 (suc p) in
    let low = n / unit in
    let over = n % unit in
    elim (rounded (low * unit) == n) [
      | true ↦
          if rounded (suc low * unit) == n && ltb unit (2 * over)
          then (suc low, suc p)
          else (low, suc p)
      | false ↦ elim (rounded (suc low * unit) == n) [
        | true ↦ (suc low, suc p)
        | false ↦ shortest p n
      ]
    ]

unfoldable pub zeros : ℕ → String
zeros zero = ""
zeros (suc n) = "0" ∷ zeros n

unfoldable pub text_length : String → ℕ
text_length String.[] = zero
text_length (c ∷ s) = suc (text_length s)

-- A mantissa with its point.
unfoldable pub pointed : String → String
pointed String.[] = ""
pointed (c ∷ String.[]) = c ∷ ""
pointed (c ∷ d ∷ s) = c ∷ "." ∷ d ∷ s

-- Digits with zeros behind them, from 22 places on with an exponent.
abbrev placed : ℕ × ℕ → String
placed (digits, places) =
    let text = show_nat digits in
    let all = text_length text + places in
    if leb all 21 then text ++ zeros places else pointed text ++ ("e+" ++ show_nat (all - 1))

unfoldable pub large_text : ℕ → String
large_text n = elim (leb (power 2 1024) n) [ true ↦ "Infinity" | false ↦ placed (shortest 308 n) ]

-- `${n}`
unfoldable pub number_text : ℕ → String
number_text n = elim (leb n exact_limit) [ true ↦ show_nat n | false ↦ large_text n ]

-- `n + 1`
abbrev pub next_number : ℕ → ℕ
next_number n = rounded (suc n)

pub rounded_exact : (n : ℕ) → n ≤ exact_limit → rounded n ≡ n
unfolding rounded
rounded_exact n h = ground arith

pub number_text_exact : (n : ℕ) → n ≤ exact_limit → number_text n ≡ show_nat n
unfolding number_text
number_text_exact n h = ground arith

abbrev pub rounded_value : Option (Bool × ℕ) → Option (Bool × ℕ)
rounded_value none = none
rounded_value (some (negative, n)) = some (negative, rounded n)

-- `Number.parseInt(text, 10)`
unfoldable pub parse_int : String → Option (Bool × ℕ)
parse_int text = rounded_value (parse_integer text)

-- Reading a number up to 2^53 that was printed gives the number, not NaN and without a sign.
pub parse_int-number_text : (n : ℕ) → n ≤ exact_limit → parse_int (number_text n) ≡ some (false, n)
unfolding parse_int
parse_int-number_text n h =
    ap rounded_value (ap parse_integer (number_text_exact n h) ∙ parse-show n)
    ∙ ap (λ k. some (false, k)) (rounded_exact n h)

rounding :
    (rounded 9007199254740993 ≡ 9007199254740992)
    × (next_number 9007199254740994 ≡ 9007199254740996)
unfolding rounded round_from power
rounding = (refl, refl)

texts :
    (number_text 9007199254740994 ≡ "9007199254740994")
    × (number_text 1152921504606846976 ≡ "1152921504606847000")
    × (number_text 1000000000000000000000 ≡ "1e+21")
    × (number_text 1180591620717411303424 ≡ "1.1805916207174113e+21")
unfolding number_text large_text shortest rounded round_from power zeros text_length pointed
    show_nat emit
texts = (refl, refl, refl, refl)
