-- ===== src/Flags/Arguments.antt =====
-- An argument of the form --name=value.
use Prim.Native.Char.{code}
use Prim.Native.String.{◌++◌ as cat}
use text.Mathlib.TextLemmas.{nil-append, cons-append, append_assoc}
use slingshot_operator.Prelude.{
  ℕ, List, ◌∷◌, Option, none, ◌≡◌, refl, sym, ap, ◌∙◌, String, Bool, true, false, not, ◌||◌, ◌&&◌,
  some, ◌==◌, arith,
}
use slingshot_operator.Prelude.Dict.{Dict, lookup, insert}
use slingshot_operator.Prelude.Int.{ℤ}
use slingshot_operator.Prelude.Decimal.Literal.{parse_int}
use slingshot_operator.Flags.{
  FlagValue, text_value, int_value, read_value, parse_from, flag_argument, before_name,
  split_equals, flag_of, as_flag, after_two_dashes, argument_of,
}

-- A name without `=`.
unfoldable pub has_equals : String → Bool
has_equals String.[] = false
has_equals (String.◌∷◌ c s) = (code c == b'=') || has_equals s

or_false : (a b : Bool) → (a || b) ≡ false → (a ≡ false) × (b ≡ false)
or_false a b h = ground arith

split_equals-append :
    (name value : String)
    → has_equals name ≡ false
    → split_equals (cat name (String.◌∷◌ "=" value)) ≡ (name, some value)
unfolding split_equals has_equals
split_equals-append String.[] value h = rw (nil-append (String.◌∷◌ "=" value)) refl
split_equals-append (String.◌∷◌ c name) value h =
    let (here, later) = or_false (code c == b'=') (has_equals name) h in
    rw (cons-append c name (String.◌∷◌ "=" value))
      (rw (here, split_equals) (ap (before_name c) (split_equals-append name value later)))

-- The text with the dashes and the sign apart.
flag_text :
    (name value : String)
    → cat (cat "--" (cat name "=")) value
      ≡ String.◌∷◌ "-" (String.◌∷◌ "-" (cat name (String.◌∷◌ "=" value)))
flag_text name value =
    append_assoc "--" (cat name "=") value
    ∙ cons-append "-" "-" (cat (cat name "=") value)
    ∙ ap (String.◌∷◌ "-") (
        cons-append "-" "" (cat (cat name "=") value)
        ∙ ap (String.◌∷◌ "-") (
            nil-append (cat (cat name "=") value)
            ∙ append_assoc name "=" value
            ∙ ap (cat name) (cons-append "=" "" value ∙ ap (String.◌∷◌ "=") (nil-append value))))

-- A name that is not empty, has no `=` and does not begin with a dash.
unfoldable pub is_flag_name : String → Bool
unfolding has_equals
is_flag_name String.[] = false
is_flag_name (String.◌∷◌ c s) = not (code c == b'-') && not (has_equals (String.◌∷◌ c s))

name_parts : (a b : Bool) → (not a && not b) ≡ true → (a ≡ false) × (b ≡ false)
name_parts a b h = ground arith

flag_of-equals :
    (name value : String)
    → is_flag_name name ≡ true
    → flag_of (cat name (String.◌∷◌ "=" value)) ≡ flag_argument name (some value)
unfolding is_flag_name flag_of has_equals
flag_of-equals String.[] value h = cc
flag_of-equals (String.◌∷◌ c s) value h =
    let (dash, equals) = name_parts (code c == b'-') (has_equals (String.◌∷◌ c s)) h in
    let (first, _) = or_false (code c == b'=') (has_equals s) equals in
    rw (cons-append c s (String.◌∷◌ "=" value)) (
      rw (dash, flag_of)
        (rw first (
          ap (λ (t : String). as_flag (split_equals t))
            (sym (cons-append c s (String.◌∷◌ "=" value)))
          ∙ ap as_flag (split_equals-append (String.◌∷◌ c s) value equals))))

two_dashes :
    (name value : String)
    → is_flag_name name ≡ true
    → after_two_dashes (cat name (String.◌∷◌ "=" value)) ≡ flag_of (cat name (String.◌∷◌ "=" value))
unfolding is_flag_name after_two_dashes
two_dashes String.[] value h = cc
two_dashes (String.◌∷◌ c s) value h = rw (cons-append c s (String.◌∷◌ "=" value)) refl

pub argument-flag :
    (name value : String)
    → is_flag_name name ≡ true
    → argument_of (cat (cat "--" (cat name "=")) value) ≡ flag_argument name (some value)
unfolding argument_of
argument-flag name value h =
    rw (flag_text name value) (two_dashes name value h ∙ flag_of-equals name value h)

-- A text flag, and a number flag, that is given as --name=value.
pub parse_text_flag :
    (parse_duration : String → Option ℕ) (arg name value old : String) (args : List String)
    (values : Dict FlagValue)
    → argument_of arg ≡ flag_argument name (some value)
    → lookup name values ≡ some (text_value old)
    → parse_from parse_duration none (arg ∷ args) values
      ≡ parse_from parse_duration none args (insert name (text_value value) values)
unfolding parse_from read_value
parse_text_flag parse_duration arg name value old args values a l = rw (a, parse_from) (rw (l) refl)

pub parse_int_flag :
    (parse_duration : String → Option ℕ) (arg name value : String) (old n : ℤ) (args : List String)
    (values : Dict FlagValue)
    → argument_of arg ≡ flag_argument name (some value)
    → lookup name values ≡ some (int_value old)
    → parse_int value ≡ some n
    → parse_from parse_duration none (arg ∷ args) values
      ≡ parse_from parse_duration none args (insert name (int_value n) values)
unfolding parse_from read_value
parse_int_flag parse_duration arg name value old n args values a l i =
    rw (a, parse_from) (rw (l) (rw (i) refl))
