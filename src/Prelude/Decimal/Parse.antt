-- ===== src/Prelude/Decimal/Parse.antt =====
-- What the program takes of Go's package strconv to read numbers, and the round trip with `itoa`. An
-- error is none: the callers look at nothing of it.
use Prim.Native.Char.{Char, code}
use Prim.Native.Nat.{ℕ, zero, suc, ◌+◌, ◌-◌, ◌*◌, ◌/◌, ◌%◌, ◌^◌, ◌<◌}
use Prim.Native.String.{String}
use mathlib.Core.Path.{◌≡◌, refl, ap, ◌∙◌}
use mathlib.Core.Bool.{Bool, true, false, ◌&&◌, ◌||◌}
use mathlib.Core.Option.{Option, none, some}
use mathlib.Core.Logic.{inl, inr}
use native.Mathlib.Omega.{arith}
use text.Mathlib.Text.{◌==◌ as str_eq}
use text.Mathlib.TextEquality.{eq_iff}
use text.Mathlib.TextLemmas.{cons-ne-nil}
use slingshot_operator.Prelude.Tests.{ltb, leb, ◌==◌, if◌then◌else◌, Bool-cases}
use slingshot_operator.Prelude.Int.{ℤ, pos, negsuc}
use slingshot_operator.Prelude.Decimal.{digit, digits, itoa}

-- The value of a digit or a letter, below the base.
abbrev below : ℕ → ℕ → Option ℕ
below base d = if ltb d base then some d else none

digit_value : ℕ → ℕ → Option ℕ
digit_value base c =
    if leb b'0' c && leb c b'9'
    then below base (c - b'0')
    else if leb b'a' c && leb c b'z'
    then below base (c - b'a' + 10)
    else if leb b'A' c && leb c b'Z'
    then below base (c - b'A' + 10)
    else none

-- The value of the digits behind `n`; none if a character is not a digit.
scan : ℕ → ℕ → String → Option ℕ
unfolding digit_value
scan base n String.[] = some n
scan base n (String.◌∷◌ c s) = elim (digit_value base (code c)) [
  | none ↦ none
  | some d ↦ scan base (n * base + d) s
]

abbrev in_range : ℕ → Option ℕ → Option ℕ
in_range limit none = none
in_range limit (some n) = if ltb n limit then some n else none

-- ParseUint for base 10 or 16: no sign and no underscore. Go stops at the first bad character or at
-- an overflow; both are errors.
unfoldable pub parse_uint : ℕ → ℕ → String → Option ℕ
unfolding scan
parse_uint base bits s = if str_eq s "" then none else in_range (2 ^ bits) (scan base 0 s)

-- Atoi, whose result is an int of 64 bits.
abbrev positive : Option ℕ → Option ℤ
positive none = none
positive (some n) = some (pos n)

abbrev negative : Option ℕ → Option ℤ
negative none = none
negative (some zero) = some (pos 0)
negative (some (suc n)) = some (negsuc n)

unfoldable pub atoi : String → Option ℤ
unfolding parse_uint
atoi String.[] = none
atoi (String.◌∷◌ c s) =
    if code c == b'-'
    then negative (if str_eq s "" then none else in_range (2 ^ 63 + 1) (scan 10 0 s))
    else if code c == b'+'
    then positive (parse_uint 10 63 s)
    else positive (parse_uint 10 63 (String.◌∷◌ c s))

-- ParseBool
unfoldable pub parse_bool : String → Option Bool
parse_bool s =
    if str_eq s "1"
      || str_eq s "t"
      || str_eq s "T"
      || str_eq s "true"
      || str_eq s "TRUE"
      || str_eq s "True"
    then some true
    else if str_eq s "0"
        || str_eq s "f"
        || str_eq s "F"
        || str_eq s "false"
        || str_eq s "FALSE"
        || str_eq s "False"
    then some false
    else none

digit_value-digit : (d : ℕ) → d < 10 → digit_value 10 (code (digit d)) ≡ some d
unfolding digit digit_value
digit_value-digit zero h = refl
digit_value-digit (suc zero) h = refl
digit_value-digit (suc (suc zero)) h = refl
digit_value-digit (suc (suc (suc zero))) h = refl
digit_value-digit (suc (suc (suc (suc zero)))) h = refl
digit_value-digit (suc (suc (suc (suc (suc zero))))) h = refl
digit_value-digit (suc (suc (suc (suc (suc (suc zero)))))) h = refl
digit_value-digit (suc (suc (suc (suc (suc (suc (suc zero))))))) h = refl
digit_value-digit (suc (suc (suc (suc (suc (suc (suc (suc zero)))))))) h = refl
digit_value-digit (suc (suc (suc (suc (suc (suc (suc (suc (suc zero))))))))) h = refl
digit_value-digit (suc (suc (suc (suc (suc (suc (suc (suc (suc (suc n)))))))))) h =
    absurd (omega arith)

scan-digit :
    (d n : ℕ) (s : String) → d < 10 → scan 10 n (String.◌∷◌ (digit d) s) ≡ scan 10 (n * 10 + d) s
unfolding scan
scan-digit d n s h = rw (digit_value-digit d h, scan) refl

cons_eq : (c : Char) (s : String) → str_eq (String.◌∷◌ c s) "" ≡ false
cons_eq c s = elim (Bool-cases (str_eq (String.◌∷◌ c s) "")) [
  | inl t ↦ absurd (cons-ne-nil c s ((eq_iff (String.◌∷◌ c s) "").0 t))
  | inr f ↦ f
]

scan-digits : (f n : ℕ) (acc : String) → n < f → scan 10 0 (digits f n acc) ≡ scan 10 n acc
unfolding digits
scan-digits zero n acc h = absurd (omega arith)
scan-digits (suc f) n acc h = elim (Bool-cases (ltb n 10)) [
  | inl small ↦ rw small (scan-digit n 0 acc (ground arith) ∙ ap (λ k. scan 10 k acc) (omega arith))
  | inr big ↦ rw big (
      scan-digits f (n / 10) (String.◌∷◌ (digit (n % 10)) acc) (ground arith)
      ∙ scan-digit (n % 10) (n / 10) acc (omega arith)
      ∙ ap (λ k. scan 10 k acc) (omega arith))
]

-- A numeral is not empty.
digits_cons : (f n : ℕ) (c : Char) (s : String) → str_eq (digits f n (String.◌∷◌ c s)) "" ≡ false
unfolding digits
digits_cons zero n c s = cons_eq c s
digits_cons (suc f) n c s = elim (Bool-cases (ltb n 10)) [
  | inl small ↦ rw small (cons_eq (digit n) (String.◌∷◌ c s))
  | inr big ↦ rw big (digits_cons f (n / 10) (digit (n % 10)) (String.◌∷◌ c s))
]

pub itoa_not_empty : (n : ℕ) → str_eq (itoa n) "" ≡ false
unfolding itoa digits
itoa_not_empty n = elim (Bool-cases (ltb n 10)) [
  | inl small ↦ rw small (cons_eq (digit n) "")
  | inr big ↦ rw big (digits_cons n (n / 10) (digit (n % 10)) "")
]

scan-itoa : (n : ℕ) → scan 10 0 (itoa n) ≡ some n
unfolding itoa scan
scan-itoa n = scan-digits (suc n) n "" (omega arith)

-- The numeral of a number below the bound is read back; any other is refused.
pub parse_uint-itoa :
    (bits n : ℕ) → parse_uint 10 bits (itoa n) ≡ (if ltb n (2 ^ bits) then some n else none)
unfolding parse_uint
parse_uint-itoa bits n = rw (itoa_not_empty n) (rw (scan-itoa n) refl)

-- A text of digits.
abbrev pub IsNumeral : String → Type 0
IsNumeral String.[] = Unit
IsNumeral (String.◌∷◌ c s) = (47 < code c) × (code c < 58) × IsNumeral s

digit_range : (d : ℕ) → (47 < code (digit d)) × (code (digit d) < 58)
unfolding digit
digit_range zero = omega arith
digit_range (suc zero) = omega arith
digit_range (suc (suc zero)) = omega arith
digit_range (suc (suc (suc zero))) = omega arith
digit_range (suc (suc (suc (suc zero)))) = omega arith
digit_range (suc (suc (suc (suc (suc zero))))) = omega arith
digit_range (suc (suc (suc (suc (suc (suc zero)))))) = omega arith
digit_range (suc (suc (suc (suc (suc (suc (suc zero))))))) = omega arith
digit_range (suc (suc (suc (suc (suc (suc (suc (suc zero)))))))) = omega arith
digit_range (suc (suc (suc (suc (suc (suc (suc (suc (suc n))))))))) = omega arith

digits-IsNumeral : (f n : ℕ) (acc : String) → IsNumeral acc → IsNumeral (digits f n acc)
unfolding digits
digits-IsNumeral zero n acc h = h
digits-IsNumeral (suc f) n acc h = elim (Bool-cases (ltb n 10)) [
  | inl small ↦ let (low, high) = digit_range n in rw small (low, high, h)
  | inr big ↦
      let (low, high) = digit_range (n % 10) in
      rw big (digits-IsNumeral f (n / 10) (String.◌∷◌ (digit (n % 10)) acc) (low, high, h))
]

pub itoa-IsNumeral : (n : ℕ) → IsNumeral (itoa n)
unfolding itoa
itoa-IsNumeral n = digits-IsNumeral (suc n) n "" tt

unsigned_atoi :
    (s : String) → IsNumeral s → str_eq s "" ≡ false → atoi s ≡ positive (parse_uint 10 63 s)
unfolding atoi
unsigned_atoi String.[] h e = cc
unsigned_atoi (String.◌∷◌ c s) h e = ground arith

-- The numeral of a number that fits into int is read back.
pub atoi-itoa : (n : ℕ) → n < 2 ^ 63 → atoi (itoa n) ≡ some (pos n)
atoi-itoa n h =
    unsigned_atoi (itoa n) (itoa-IsNumeral n) (itoa_not_empty n)
    ∙ ap positive (parse_uint-itoa 63 n)
    ∙ ground arith
