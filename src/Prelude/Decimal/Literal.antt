-- ===== src/Prelude/Decimal/Literal.antt =====
-- strconv.ParseInt with base 0 and 64 bits, as package flag reads numbers, and the round trip with
-- `itoa`. Underscores between the digits, which Go allows here, are not read.
use Prim.Native.Char.{Char, code}
use Prim.Native.Nat.{ℕ, zero, suc, ◌-◌, ◌/◌, ◌%◌, ◌^◌, ◌<◌}
use Prim.Native.String.{String}
use mathlib.Core.Path.{◌≡◌, refl, ap, ◌∙◌}
use mathlib.Core.Bool.{false, ◌||◌}
use mathlib.Core.Option.{Option, none, some}
use mathlib.Core.Logic.{inl, inr}
use text.Mathlib.Text.{◌==◌ as str_eq}
use native.Mathlib.Omega.{arith}
use slingshot_operator.Prelude.Tests.{ltb, ◌==◌, if◌then◌else◌, Bool-cases}
use slingshot_operator.Prelude.Int.{ℤ, pos, negsuc}
use slingshot_operator.Prelude.Decimal.{digit, digits, itoa, code-digit}
use slingshot_operator.Prelude.Decimal.Parse.{
  parse_uint, parse_uint-itoa, IsNumeral, itoa-IsNumeral, itoa_not_empty,
}

-- The digits behind a zero, with the letter that tells the base.
abbrev parse_based : ℕ → Char → String → Option ℕ
unfolding parse_uint
parse_based bits x s =
    if code x == b'x' || code x == b'X'
    then parse_uint 16 bits s
    else if code x == b'b' || code x == b'B'
    then parse_uint 2 bits s
    else if code x == b'o' || code x == b'O'
    then parse_uint 8 bits s
    else parse_uint 8 bits (String.◌∷◌ x s)

unfoldable pub parse_magnitude : ℕ → String → Option ℕ
unfolding parse_uint
parse_magnitude bits (String.◌∷◌ c (String.◌∷◌ x s)) =
    if code c == b'0'
    then parse_based bits x s
    else parse_uint 10 bits (String.◌∷◌ c (String.◌∷◌ x s))
parse_magnitude bits s = parse_uint 10 bits s

abbrev as_positive : Option ℕ → Option ℤ
as_positive none = none
as_positive (some n) = some (pos n)

-- The least number is -2^63.
abbrev as_negative : Option ℕ → Option ℤ
as_negative none = none
as_negative (some zero) = some (pos 0)
as_negative (some (suc n)) = if ltb n (2 ^ 63) then some (negsuc n) else none

unfoldable pub parse_int : String → Option ℤ
unfolding parse_magnitude
parse_int String.[] = none
parse_int (String.◌∷◌ c s) =
    if code c == b'-'
    then as_negative (parse_magnitude 64 s)
    else if code c == b'+'
    then as_positive (parse_magnitude 63 s)
    else as_positive (parse_magnitude 63 (String.◌∷◌ c s))

-- The text does not begin with a zero.
abbrev IsLeading : String → Type 0
IsLeading String.[] = Unit
IsLeading (String.◌∷◌ c s) = (code c == b'0') ≡ false

not_zero : (k d : ℕ) → k - 48 ≡ d → 0 < d → (k == 48) ≡ false
not_zero k d h p = ground arith

digits-IsLeading : (f n : ℕ) (acc : String) → n < f → 0 < n → IsLeading (digits f n acc)
unfolding digits
digits-IsLeading zero n acc h p = absurd (omega arith)
digits-IsLeading (suc f) n acc h p = elim (Bool-cases (ltb n 10)) [
  | inl small ↦ rw small (not_zero (code (digit n)) n (code-digit n (ground arith)) p)
  | inr big ↦
      rw big (
        digits-IsLeading f (n / 10) (String.◌∷◌ (digit (n % 10)) acc) (ground arith) (ground arith))
]

leading-decimal :
    (bits : ℕ) (s : String) → IsLeading s → parse_magnitude bits s ≡ parse_uint 10 bits s
unfolding parse_magnitude
leading-decimal bits String.[] h = refl
leading-decimal bits (String.◌∷◌ c String.[]) h = refl
leading-decimal bits (String.◌∷◌ c (String.◌∷◌ x s)) h = rw (h, parse_magnitude) refl

no_sign : (k : ℕ) → 47 < k → ((k == b'-') ≡ false) × ((k == b'+') ≡ false)
no_sign k h = ground arith

parse_int-unsigned :
    (s : String)
    → IsNumeral s
    → str_eq s "" ≡ false
    → parse_int s ≡ as_positive (parse_magnitude 63 s)
unfolding parse_int
parse_int-unsigned String.[] h e = cc
parse_int-unsigned (String.◌∷◌ c s) h e =
    let (minus, plus) = no_sign (code c) h.0 in rw (minus, parse_int) (rw plus refl)

-- The numeral of a number that fits into int is read back.
pub parse_int-itoa : (n : ℕ) → n < 2 ^ 63 → parse_int (itoa n) ≡ some (pos n)
unfolding itoa parse_int
parse_int-itoa zero h = refl
parse_int-itoa (suc n) h =
    parse_int-unsigned (itoa (suc n)) (itoa-IsNumeral (suc n)) (itoa_not_empty (suc n))
    ∙ ap as_positive (
        leading-decimal 63 (itoa (suc n))
          (digits-IsLeading (suc (suc n)) (suc n) "" (omega arith) (omega arith))
        ∙ parse_uint-itoa 63 (suc n))
    ∙ ground arith
