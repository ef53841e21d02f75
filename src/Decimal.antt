-- ===== src/Decimal.antt =====
-- Numbers in identifiers: the digits of a number, and what `Number.parseInt(text, 10)` reads before it
-- rounds to a double: a sign with a magnitude, `none` for NaN.
pub mod RoundTrip
use Prim.Native.Char.{Char, code}
use Prim.Native.Nat.{◌/◌, ◌%◌}
use vcode.Base.{
  ℕ, zero, suc, ◌+◌, ◌-◌, ◌*◌, Bool, true, false, ◌&&◌, ◌||◌, not, Option, none, some, String, ◌==◌,
  nat_eq, leb, ltb, if◌then◌else◌, ◌≡◌, refl,
}
use vcode.Naming.{char_at_or}

infixr 67 ◌∷◌
pattern abbrev pub ◌∷◌ : Char → String → String
c ∷ s = String.◌∷◌ c s

abbrev pub digit : ℕ → Char
digit d = char_at_or "0" "0123456789" d

-- The digits of `n` in front of `out`; a number has no more digits than its value.
unfoldable pub emit : ℕ → ℕ → String → String
emit zero n out = out
emit (suc fuel) n out =
    let more = emit fuel (n / 10) (digit (n % 10) ∷ out) in if n == 0 then out else more

-- The decimal digits of `n`.
unfoldable pub show_nat : ℕ → String
show_nat n = if n == 0 then "0" else emit n n ""

abbrev pub is_digit : Char → Bool
is_digit c = leb b'0' (code c) && leb (code c) b'9'

-- White space and line ends, which `parseInt` skips.
abbrev pub is_space : ℕ → Bool
is_space c =
    leb 9 c && leb c 13
    || c == 32
    || c == 0xa0
    || c == 0x1680
    || leb 0x2000 c && leb c 0x200a
    || c == 0x2028
    || c == 0x2029
    || c == 0x202f
    || c == 0x205f
    || c == 0x3000
    || c == 0xfeff

unfoldable pub skip_spaces : String → String
skip_spaces String.[] = String.[]
skip_spaces (c ∷ s) = let rest = skip_spaces s in if is_space (code c) then rest else c ∷ s

-- The longest run of digits in front, read behind `n`.
unfoldable pub scan : String → ℕ → ℕ
scan String.[] n = n
scan (c ∷ s) n = let more = scan s (n * 10 + (code c - b'0')) in if is_digit c then more else n

unfoldable pub parse_digits : String → Option ℕ
parse_digits String.[] = none
parse_digits (c ∷ s) = if is_digit c then some (scan (c ∷ s) 0) else none

abbrev pub with_sign : Bool → Option ℕ → Option (Bool × ℕ)
with_sign negative none = none
with_sign negative (some n) = some (negative, n)

-- The text behind the white space.
unfoldable pub parse_signed : String → Option (Bool × ℕ)
unfolding parse_digits
parse_signed String.[] = none
parse_signed (c ∷ s) =
    if code c == b'-'
    then with_sign true (parse_digits s)
    else if code c == b'+'
    then with_sign false (parse_digits s)
    else with_sign false (parse_digits (c ∷ s))

-- The number in a text, exactly.
unfoldable pub parse_integer : String → Option (Bool × ℕ)
unfolding parse_signed skip_spaces
parse_integer text = parse_signed (skip_spaces text)

-- `!Number.isNaN(numeric) && numeric > max ? numeric : max`
unfoldable pub larger : Option (Bool × ℕ) → ℕ → ℕ
larger none max = max
larger (some (true, n)) max = max
larger (some (false, n)) max = if ltb max n then n else max
