-- ===== src/Flags.antt =====
-- What the programs of cmd take of Go's package flag: the declared flags with their values, and Parse
-- on the arguments of the command line, which ends the process on an error. Durations are read by
-- a parameter, time.ParseDuration.
pub mod Arguments
use Prim.Native.Char.{Char, code}
use slingshot_operator.Prelude.{
  ℕ, ◌≡◌, refl, String, Bool, true, false, ◌||◌, List, [], ◌∷◌, Option, none, some, ◌==◌, str_eq,
  if◌then◌else◌,
}
use slingshot_operator.Prelude.Dict.{Dict, lookup, insert}
use slingshot_operator.Prelude.Int.{ℤ, pos}
use slingshot_operator.Prelude.Decimal.Parse.{parse_bool}
use slingshot_operator.Prelude.Decimal.Literal.{parse_int}

-- The value of a flag, which also tells its kind. A duration is in nanoseconds.
pub data FlagValue : Type 0 where
  text_value : String → FlagValue
  int_value : ℤ → FlagValue
  duration_value : ℕ → FlagValue
  bool_value : Bool → FlagValue

-- The values after Parse, or the status that the process exits with.
pub data Parsed : Type 0 where
  parsed : Dict FlagValue → Parsed
  exited : ℕ → Parsed

pub data Argument : Type 0 where
  positional : Argument
  terminator : Argument
  bad : Argument
  flag_argument : String → Option String → Argument

abbrev before_name : Char → String × Option String → String × Option String
before_name c (name, value) = (String.◌∷◌ c name, value)

-- The name and what follows the first `=`.
unfoldable pub split_equals : String → String × Option String
split_equals String.[] = ("", none)
split_equals (String.◌∷◌ c s) = elim (code c == b'=') [
  | true ↦ ("", some s)
  | false ↦ before_name c (split_equals s)
]

abbrev as_flag : String × Option String → Argument
as_flag (name, value) = flag_argument name value

-- What stands behind the dashes.
unfoldable pub flag_of : String → Argument
unfolding split_equals
flag_of String.[] = bad
flag_of (String.◌∷◌ c s) =
    if code c == b'-' || code c == b'=' then bad else as_flag (split_equals (String.◌∷◌ c s))

unfoldable pub after_two_dashes : String → Argument
unfolding flag_of
after_two_dashes String.[] = terminator
after_two_dashes (String.◌∷◌ c s) = flag_of (String.◌∷◌ c s)

unfoldable pub argument_of : String → Argument
unfolding flag_of after_two_dashes
argument_of (String.◌∷◌ c (String.◌∷◌ d s)) =
    if code c == b'-'
    then (if code d == b'-' then after_two_dashes s else flag_of (String.◌∷◌ d s))
    else positional
argument_of _ = positional

module _ (parse_duration : String → Option ℕ) where
  abbrev some_value : {A : Type 0} → (A → FlagValue) → Option A → Option FlagValue
  some_value make none = none
  some_value make (some a) = some (make a)

  -- The flag with the text as its value, none if that is refused.
  unfoldable pub read_value : FlagValue → String → Option FlagValue
  unfolding parse_int parse_bool
  read_value (text_value _) s = some (text_value s)
  read_value (int_value _) s = some_value int_value (parse_int s)
  read_value (duration_value _) s = some_value duration_value (parse_duration s)
  read_value (bool_value _) s = some_value bool_value (parse_bool s)

  -- The value of a flag whose argument has none: `true`, or the next argument.
  abbrev implied : FlagValue → Option String
  implied (bool_value _) = some "true"
  implied _ = none

  abbrev value_text : FlagValue → Option String → Option String
  value_text old none = implied old
  value_text old (some text) = some text

  -- `awaited` is the flag that takes the next argument as its value.
  unfoldable pub parse_from : Option (String × FlagValue) → List String → Dict FlagValue → Parsed
  unfolding argument_of read_value lookup insert
  parse_from none [] values = parsed values
  parse_from (some _) [] values = exited 2
  parse_from (some (name, old)) (arg ∷ args) values = elim (read_value old arg) [
    | none ↦ exited 2
    | some new ↦ parse_from none args (insert name new values)
  ]
  parse_from none (arg ∷ args) values = elim (argument_of arg) [
    | positional ↦ parsed values
    | terminator ↦ parsed values
    | bad ↦ exited 2
    | flag_argument name text ↦ elim (lookup name values) [
      | none ↦ exited (if str_eq name "help" || str_eq name "h" then 0 else 2)
      | some old ↦ elim (value_text old text) [
        | none ↦ parse_from (some (name, old)) args values
        | some value ↦ elim (read_value old value) [
          | none ↦ exited 2
          | some new ↦ parse_from none args (insert name new values)
        ]
      ]
    ]
  ]

  unfoldable pub parse_flags : List String → Dict FlagValue → Parsed
  unfolding parse_from
  parse_flags args values = parse_from none args values

-- The values of declared flags.
abbrev text_or_empty : Option FlagValue → String
text_or_empty (some (text_value s)) = s
text_or_empty _ = ""

abbrev int_or_zero : Option FlagValue → ℤ
int_or_zero (some (int_value n)) = n
int_or_zero _ = pos 0

abbrev duration_or_zero : Option FlagValue → ℕ
duration_or_zero (some (duration_value n)) = n
duration_or_zero _ = 0

unfoldable pub text_of : String → Dict FlagValue → String
unfolding lookup
text_of name values = text_or_empty (lookup name values)

unfoldable pub int_of : String → Dict FlagValue → ℤ
unfolding lookup
int_of name values = int_or_zero (lookup name values)

abbrev bool_or_false : Option FlagValue → Bool
bool_or_false (some (bool_value b)) = b
bool_or_false _ = false

unfoldable pub bool_of : String → Dict FlagValue → Bool
unfolding lookup
bool_of name values = bool_or_false (lookup name values)

unfoldable pub duration_of : String → Dict FlagValue → ℕ
unfolding lookup
duration_of name values = duration_or_zero (lookup name values)

unknown_test :
    (pd : String → Option ℕ)
    → parse_flags pd ("--mode=supervisor" ∷ "--discover=auto" ∷ []) (("mode", text_value "") ∷ [])
      ≡ exited 2
unfolding parse_flags
unknown_test pd = refl
