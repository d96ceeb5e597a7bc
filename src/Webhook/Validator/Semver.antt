-- ===== src/Webhook/Validator/Semver.antt =====
-- The pattern `semverRegex` of pkg/webhook/cxidriver_validator.go,
-- ^v?(\d+)\.(\d+)\.(\d+)(-[a-zA-Z0-9.-]+)?(\+[a-zA-Z0-9.-]+)?$
-- The class holds no `+` and no digit or `.` can start a later part, so one walk without
-- backtracking matches it.
use Prim.Native.Char.{code}
use slingshot_operator.Prelude.{
  ℕ, String, Bool, true, false, ◌&&◌, ◌||◌, List, [], ◌∷◌, Option, none, some, leb, ◌==◌,
}

-- The characters of a text as their code points.
abbrev codes : String → List ℕ
codes String.[] = []
codes (String.◌∷◌ c s) = code c ∷ codes s

is_digit : ℕ → Bool
is_digit c = leb b'0' c && leb c b'9'

-- [a-zA-Z0-9.-]
is_word : ℕ → Bool
unfolding is_digit
is_word c =
    (leb b'a' c && leb c b'z') || (leb b'A' c && leb c b'Z') || is_digit c || c == b'.' || c == b'-'

-- What is left after the longest run of characters that pass the test.
skip : (ℕ → Bool) → List ℕ → List ℕ
skip p [] = []
skip p (c ∷ cs) = elim (p c) [ true ↦ skip p cs | false ↦ c ∷ cs ]

-- The same where the run is not empty.
skip_some : (ℕ → Bool) → List ℕ → Option (List ℕ)
unfolding skip
skip_some p [] = none
skip_some p (c ∷ cs) = elim (p c) [ true ↦ some (skip p cs) | false ↦ none ]

-- One given character.
expect : ℕ → List ℕ → Option (List ℕ)
expect k [] = none
expect k (c ∷ cs) = elim (c == k) [ true ↦ some cs | false ↦ none ]

abbrev optional_v : List ℕ → List ℕ
optional_v [] = []
optional_v (c ∷ cs) = elim (c == b'v') [ true ↦ cs | false ↦ c ∷ cs ]

-- A part that may be left out: its first character, then word characters.
optional_part : ℕ → List ℕ → Option (List ℕ)
unfolding skip_some is_word
optional_part k [] = some []
optional_part k (c ∷ cs) = elim (c == k) [ true ↦ skip_some is_word cs | false ↦ some (c ∷ cs) ]

infixl 5 ◌>>=◌
abbrev ◌>>=◌ : {A B : Type 0} → Option A → (A → Option B) → Option B
none >>= f = none
some a >>= f = f a

abbrev at_end : Option (List ℕ) → Bool
at_end (some []) = true
at_end _ = false

unfoldable pub is_semver : String → Bool
unfolding skip_some is_digit expect optional_part
is_semver s = at_end (do
  a ← skip_some is_digit (optional_v (codes s))
  b ← expect b'.' a
  c ← skip_some is_digit b
  d ← expect b'.' c
  e ← skip_some is_digit d
  f ← optional_part b'-' e
  optional_part b'+' f)
