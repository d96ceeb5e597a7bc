-- ===== src/Prelude/FilePath.antt =====
-- What the program takes of Go's package path/filepath on Unix.
use Prim.Native.String.{String, ◌++◌}
use mathlib.Core.Bool.{Bool, ◌||◌}
use mathlib.Core.List.{List, [], ◌∷◌, reverse}
use mathlib.Core.Path.{◌≡◌, refl}
use text.Mathlib.Text.{◌==◌ as str_eq, starts_with}
use slingshot_operator.Prelude.Tests.{if◌then◌else◌}
use slingshot_operator.Prelude.Text.{split, join}

-- What `..` does to the segments so far, the last one first: it takes one away, or stays where there
-- is none and the path is not rooted.
step_up : Bool → List String → List String
step_up rooted [] = if rooted then [] else ".." ∷ []
step_up rooted (top ∷ stack) = if str_eq top ".." then ".." ∷ top ∷ stack else stack

unfoldable pub resolve : Bool → List String → String → List String
unfolding step_up
resolve rooted stack part =
    if str_eq part "" || str_eq part "."
    then stack
    else if str_eq part ".."
    then step_up rooted stack
    else part ∷ stack

unfoldable pub resolve_all : Bool → List String → List String → List String
unfolding resolve
resolve_all rooted stack [] = stack
resolve_all rooted stack (part ∷ parts) = resolve_all rooted (resolve rooted stack part) parts

-- An empty result is ".".
abbrev pub or_dot : String → String
or_dot String.[] = "."
or_dot (String.◌∷◌ c s) = String.◌∷◌ c s

-- Clean
unfoldable pub clean : String → String
unfolding resolve_all split join
clean path =
    let rooted = starts_with path "/" in
    or_dot
      ((if rooted then "/" else "") ++ join "/" (reverse (resolve_all rooted [] (split b'/' path))))

-- Join of two elements, the first of them not empty.
unfoldable pub join_path : String → String → String
unfolding clean
join_path dir name = clean (if str_eq name "" then dir else dir ++ ("/" ++ name))

-- The last of the segments that are not empty, if there is one.
last_segment : String → List String → String
last_segment found [] = found
last_segment found (part ∷ parts) = last_segment (if str_eq part "" then found else part) parts

-- Base
unfoldable pub base : String → String
unfolding last_segment split
base path = if str_eq path "" then "." else last_segment "/" (split b'/' path)

-- All segments but the last.
but_last : List String → List String
but_last [] = []
but_last (part ∷ []) = []
but_last (part ∷ next ∷ parts) = part ∷ but_last (next ∷ parts)

-- Dir: what stands before the last separator, cleaned.
unfoldable pub dir : String → String
unfolding but_last split join clean
dir path =
    clean ((if starts_with path "/" then "/" else "") ++ join "/" (but_last (split b'/' path)))

clean_test : clean "/tmp/sbl/../sbl-evil//a/./b" ≡ "/tmp/sbl-evil/a/b"
unfolding clean
clean_test = refl

dir_test : dir "/lib/modules/6.1/cxi.ko" ≡ "/lib/modules/6.1"
unfolding dir
dir_test = refl

base_test : base "../../../0000:41:00.0" ≡ "0000:41:00.0"
unfolding base
base_test = refl
