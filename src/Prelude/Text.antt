-- ===== src/Prelude/Text.antt =====
-- What the program takes of Go's package strings. A text is a list of characters.
use Prim.Native.Char.{Char, code}
use Prim.Native.Nat.{ℕ, zero, suc, ◌-◌}
use Prim.Native.String.{String, ◌++◌, count}
use mathlib.Core.Bool.{Bool, true, false, ◌&&◌, ◌||◌}
use mathlib.Core.Logic.{inl, inr}
use mathlib.Core.List.{List, [], ◌∷◌}
use mathlib.Core.Path.{◌≡◌, refl, ap, ◌∙◌}
use native.Mathlib.Omega.{arith}
use text.Mathlib.TextLemmas.{nil-append, cons-append, append_cancel_left}
use text.Mathlib.TextPositions.{eq_refl}
use text.Mathlib.TextEquality.{eq_iff}
use text.Mathlib.Text.{◌==◌ as str_eq, starts_with}
use slingshot_operator.Prelude.Tests.{◌==◌, leb, Bool-cases}

abbrev pub push : String → Char → String
push s c = s ++ String.◌∷◌ c String.[]

-- HasSuffix: some tail of the text is the suffix.
unfoldable pub ends_with : String → String → Bool
ends_with String.[] suffix = str_eq String.[] suffix
ends_with (String.◌∷◌ c s) suffix = str_eq (String.◌∷◌ c s) suffix || ends_with s suffix

ends_with_refl : (s : String) → ends_with s s ≡ true
unfolding ends_with
ends_with_refl String.[] = eq_refl String.[]
ends_with_refl (String.◌∷◌ c s) = rw (eq_refl (String.◌∷◌ c s)) refl

or_true : (b : Bool) → (b || true) ≡ true
or_true b = ground arith

pub ends_with-append : (t s : String) → ends_with (t ++ s) s ≡ true
unfolding ends_with
ends_with-append String.[] s = rw (nil-append s) (ends_with_refl s)
ends_with-append (String.◌∷◌ c t) s =
    rw (cons-append c t s, ends_with)
      (ap (λ (b : Bool). str_eq (String.◌∷◌ c (t ++ s)) s || b) (ends_with-append t s) ∙ or_true _)

-- unicode.IsSpace
abbrev pub is_space : ℕ → Bool
is_space c =
    (leb 9 c && leb c 13)
    || c == 32
    || c == 0x85
    || c == 0xa0
    || c == 0x1680
    || (leb 0x2000 c && leb c 0x200a)
    || c == 0x2028
    || c == 0x2029
    || c == 0x202f
    || c == 0x205f
    || c == 0x3000

-- The loop of Split for a separator of one character; `cur` is the part so far.
unfoldable pub split_from : ℕ → String → String → List String
split_from sep cur String.[] = cur ∷ []
split_from sep cur (String.◌∷◌ c s) = elim (code c == sep) [
  | true ↦ cur ∷ split_from sep "" s
  | false ↦ split_from sep (push cur c) s
]

unfoldable pub split : ℕ → String → List String
unfolding split_from
split sep s = split_from sep "" s

unfoldable pub join : String → List String → String
join sep [] = ""
join sep (x ∷ []) = x
join sep (x ∷ y ∷ ys) = x ++ (sep ++ join sep (y ∷ ys))

-- A word, unless it is empty, before others.
abbrev word_before : String → List String → List String
word_before String.[] words = words
word_before (String.◌∷◌ c s) words = String.◌∷◌ c s ∷ words

fields_from : String → String → List String
fields_from cur String.[] = word_before cur []
fields_from cur (String.◌∷◌ c s) = elim (is_space (code c)) [
  | true ↦ word_before cur (fields_from "" s)
  | false ↦ fields_from (push cur c) s
]

-- Fields: the words between runs of space.
unfoldable pub fields : String → List String
unfolding fields_from
fields s = fields_from "" s

trim_left : String → String
trim_left String.[] = ""
trim_left (String.◌∷◌ c s) = elim (is_space (code c)) [
  | true ↦ trim_left s
  | false ↦ String.◌∷◌ c s
]

trim_right : String → String
trim_right String.[] = ""
trim_right (String.◌∷◌ c s) = elim (is_space (code c) && str_eq (trim_right s) "") [
  | true ↦ ""
  | false ↦ String.◌∷◌ c (trim_right s)
]

unfoldable pub trim_space : String → String
unfolding trim_left trim_right
trim_space s = trim_right (trim_left s)

-- The first `k` characters are those of an occurrence that is replaced.
replace_from : String → String → ℕ → String → String
replace_from old new k String.[] = ""
replace_from old new (suc k) (String.◌∷◌ c s) = replace_from old new k s
replace_from old new zero (String.◌∷◌ c s) = elim (starts_with (String.◌∷◌ c s) old) [
  | true ↦ new ++ replace_from old new (count old - 1) s
  | false ↦ String.◌∷◌ c (replace_from old new zero s)
]

-- ReplaceAll, for an old text that is not empty.
unfoldable pub replace_all : String → String → String → String
unfolding replace_from
replace_all s old new = replace_from old new 0 s

fields_test : fields " Linux  version 6.1 " ≡ "Linux" ∷ "version" ∷ "6.1" ∷ []
unfolding fields
fields_test = refl

replace_test : replace_all "a=@X@;@X@X@" "@X@" "7" ≡ "a=7;7X@"
unfolding replace_all
replace_test = refl

trim_test : trim_space " 0x12\n" ≡ "0x12"
unfolding trim_space
trim_test = refl

-- Texts with one beginning differ if what follows it differs.
pub append_ne : (s a b : String) → str_eq a b ≡ false → str_eq (s ++ a) (s ++ b) ≡ false
append_ne s a b h = elim (Bool-cases (str_eq (s ++ a) (s ++ b))) [
  | inr e ↦ e
  | inl e ↦
      let same = append_cancel_left s a b ((eq_iff (s ++ a) (s ++ b)).0 e) in
      cc ((eq_iff a b).1 same, h)
]
