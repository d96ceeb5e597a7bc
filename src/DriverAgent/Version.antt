-- ===== src/DriverAgent/Version.antt =====
-- pkg/driveragent/download.go: `extractVersionFromURL`. Each pattern is a marker, a `v` that some of
-- them allow, a text without `/`, and .zip at the end; the first place where it matches is taken.
pub mod Tag
pub mod Other
use Prim.Native.Char.{Char, code}
use slingshot_operator.Prelude.{
  ℕ, ◌≡◌, refl, String, Bool, true, false, Option, none, some, ◌==◌, str_eq, if◌then◌else◌,
}

-- What follows the prefix.
unfoldable pub strip_prefix : String → String → Option String
strip_prefix String.[] text = some text
strip_prefix (String.◌∷◌ c prefix) String.[] = none
strip_prefix (String.◌∷◌ c prefix) (String.◌∷◌ d text) = elim (code c == code d) [
  | true ↦ strip_prefix prefix text
  | false ↦ none
]

abbrev cons_some : Char → Option String → Option String
cons_some c none = none
cons_some c (some s) = some (String.◌∷◌ c s)

-- ([^/]*)\.zip$
unfoldable pub zip_stem : String → Option String
zip_stem String.[] = none
zip_stem (String.◌∷◌ c s) = elim (str_eq (String.◌∷◌ c s) ".zip") [
  | true ↦ some ""
  | false ↦ elim (code c == b'/') [ true ↦ none | false ↦ cons_some c (zip_stem s) ]
]

-- The `v` is taken if it may and something is left.
unfoldable pub without_v : Bool → String → String
without_v allowed (String.◌∷◌ v (String.◌∷◌ c s)) = elim (code v == b'v') [
  | true ↦ if allowed then String.◌∷◌ c s else String.◌∷◌ v (String.◌∷◌ c s)
  | false ↦ String.◌∷◌ v (String.◌∷◌ c s)
]
without_v allowed stem = stem

-- The group is not empty.
abbrev pub captured : Bool → Option String → Option String
captured allowed none = none
captured allowed (some String.[]) = none
captured allowed (some (String.◌∷◌ c s)) = some (without_v allowed (String.◌∷◌ c s))

-- A match at the beginning of the text.
unfoldable pub match_here : String → Bool → String → Option String
unfolding strip_prefix zip_stem without_v
match_here marker allowed text = elim (strip_prefix marker text) [
  | none ↦ none
  | some rest ↦ captured allowed (zip_stem rest)
]

unfoldable pub find_match : String → Bool → String → Option String
unfolding match_here
find_match marker allowed String.[] = none
find_match marker allowed (String.◌∷◌ c s) = elim (match_here marker allowed (String.◌∷◌ c s)) [
  | some version ↦ some version
  | none ↦ find_match marker allowed s
]

abbrev pub or_else : Option String → String → String
or_else none s = s
or_else (some t) s = t

unfoldable pub extract_version_from_url : String → String
unfolding find_match
extract_version_from_url url = or_else (find_match "/refs/tags/" true url) (
    or_else (find_match "/refs/heads/" false url)
      (or_else (find_match "/archive/" true url) "0.0.0"))

tag_test :
    extract_version_from_url "https://github.com/user/repo/archive/refs/tags/v1.2.3.zip" ≡ "1.2.3"
unfolding extract_version_from_url
tag_test = refl

branch_test :
    extract_version_from_url "https://github.com/user/repo/archive/refs/heads/main.zip" ≡ "main"
unfolding extract_version_from_url
branch_test = refl

short_test : extract_version_from_url "https://github.com/user/repo/archive/v1.2.3.zip" ≡ "1.2.3"
unfolding extract_version_from_url
short_test = refl
