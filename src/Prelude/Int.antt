-- ===== src/Prelude/Int.antt =====
-- Go's signed integers (`int`, `int32`) over the native numbers; `negsuc n` is -(n + 1). The one sum
-- that the program takes of them is a difference of `int32`, which wraps.
use Prim.Native.Nat.{ℕ, suc, ◌+◌, ◌-◌, ◌%◌, ◌^◌}
use Prim.Native.String.{String, ◌++◌}
use mathlib.Core.Path.{◌≡◌}
use mathlib.Core.Logic.{◌↔◌}
use mathlib.Core.Bool.{Bool, true, false}
use native.Mathlib.Omega.{arith}
use slingshot_operator.Prelude.Tests.{◌==◌, ltb, leb, if◌then◌else◌}
use slingshot_operator.Prelude.Decimal.{itoa}

pub data ℤ : Type 0 where
  pos : ℕ → ℤ
  negsuc : ℕ → ℤ

-- a == b
abbrev pub int_eq : ℤ → ℤ → Bool
int_eq (pos a) (pos b) = a == b
int_eq (negsuc a) (negsuc b) = a == b
int_eq _ _ = false

-- a <= b
abbrev pub int_le : ℤ → ℤ → Bool
int_le (pos a) (pos b) = leb a b
int_le (negsuc a) (pos b) = true
int_le (pos a) (negsuc b) = false
int_le (negsuc a) (negsuc b) = leb b a

-- 0 <= a
abbrev pub is_nonneg : ℤ → Bool
is_nonneg (pos a) = true
is_nonneg (negsuc a) = false

-- The rounds of `for i := 0; i < n; i++`.
abbrev pub rounds : ℤ → ℕ
rounds (pos n) = n
rounds (negsuc n) = 0

-- `%d`
unfoldable pub show_int : ℤ → String
show_int (pos n) = itoa n
show_int (negsuc n) = "-" ++ itoa (suc n)

pub int_eq_iff : (a b : ℤ) → (int_eq a b ≡ true) ↔ (a ≡ b)
int_eq_iff a b = ground arith

-- The 32 bits of a number, and the `int32` that they stand for.
abbrev to_word : ℤ → ℕ
to_word (pos n) = n % 2 ^ 32
to_word (negsuc n) = 2 ^ 32 - 1 - n % 2 ^ 32

abbrev of_word : ℕ → ℤ
of_word w = if ltb w (2 ^ 31) then pos w else negsuc (2 ^ 32 - 1 - w)

-- a - b in `int32`
unfoldable pub sub_int32 : ℤ → ℤ → ℤ
sub_int32 a b = of_word ((to_word a + 2 ^ 32 - to_word b) % 2 ^ 32)

-- int32(a)
unfoldable pub to_int32 : ℤ → ℤ
to_int32 a = of_word (to_word a)
