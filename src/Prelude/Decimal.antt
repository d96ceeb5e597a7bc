-- ===== src/Prelude/Decimal.antt =====
-- `strconv.Itoa` and `%d` on a number that is not negative: its decimal numeral.
pub mod Parse
pub mod Literal
use Prim.Native.Char.{Char, code}
use Prim.Native.Nat.{ℕ, zero, suc, ◌+◌, ◌-◌, ◌*◌, ◌/◌, ◌%◌, ◌<◌}
use Prim.Native.String.{String}
use mathlib.Core.Path.{◌≡◌, refl, sym, ap, ◌∙◌}
use mathlib.Core.Logic.{inl, inr}
use native.Mathlib.Omega.{arith}
use slingshot_operator.Prelude.Tests.{ltb, if◌then◌else◌, Bool-cases}

digit : ℕ → Char
digit zero = "0"
digit (suc zero) = "1"
digit (suc (suc zero)) = "2"
digit (suc (suc (suc zero))) = "3"
digit (suc (suc (suc (suc zero)))) = "4"
digit (suc (suc (suc (suc (suc zero))))) = "5"
digit (suc (suc (suc (suc (suc (suc zero)))))) = "6"
digit (suc (suc (suc (suc (suc (suc (suc zero))))))) = "7"
digit (suc (suc (suc (suc (suc (suc (suc (suc zero)))))))) = "8"
digit _ = "9"

-- The digits of `n` before those of `acc`; a fuel above `n` is enough.
digits : ℕ → ℕ → String → String
digits zero n acc = acc
digits (suc f) n acc =
    let rest = digits f (n / 10) (String.◌∷◌ (digit (n % 10)) acc) in
    if ltb n 10 then String.◌∷◌ (digit n) acc else rest

unfoldable pub itoa : ℕ → String
unfolding digits digit
itoa n = digits (suc n) n ""

-- The number that a numeral is read as, after `n`.
pub read : ℕ → String → ℕ
read n String.[] = n
read n (String.◌∷◌ c s) = read (n * 10 + (code c - 48)) s

code-digit : (n : ℕ) → n < 10 → code (digit n) - 48 ≡ n
unfolding digit
code-digit zero h = refl
code-digit (suc zero) h = refl
code-digit (suc (suc zero)) h = refl
code-digit (suc (suc (suc zero))) h = refl
code-digit (suc (suc (suc (suc zero)))) h = refl
code-digit (suc (suc (suc (suc (suc zero))))) h = refl
code-digit (suc (suc (suc (suc (suc (suc zero)))))) h = refl
code-digit (suc (suc (suc (suc (suc (suc (suc zero))))))) h = refl
code-digit (suc (suc (suc (suc (suc (suc (suc (suc zero)))))))) h = refl
code-digit (suc (suc (suc (suc (suc (suc (suc (suc (suc zero))))))))) h = refl
code-digit (suc (suc (suc (suc (suc (suc (suc (suc (suc (suc n)))))))))) h = absurd (omega arith)

read-digits : (f n : ℕ) (acc : String) → n < f → read 0 (digits f n acc) ≡ read n acc
unfolding digits read
read-digits zero n acc h = absurd (omega arith)
read-digits (suc f) n acc h = elim (Bool-cases (ltb n 10)) [
  | inl small ↦ rw small (ap (λ k. read k acc) (ground (arith, code-digit n)))
  | inr big ↦ rw big (
      read-digits f (n / 10) (String.◌∷◌ (digit (n % 10)) acc) (ground arith)
      ∙ ap (λ k. read k acc) (omega (arith, code-digit (n % 10) (omega arith))))
]

pub read-itoa : (n : ℕ) → read 0 (itoa n) ≡ n
unfolding itoa read
read-itoa n = read-digits (suc n) n "" (omega arith)

-- Two numbers with one numeral are equal.
pub itoa_inj : (a b : ℕ) → itoa a ≡ itoa b → a ≡ b
itoa_inj a b e = sym (read-itoa a) ∙ ap (read 0) e ∙ read-itoa b
