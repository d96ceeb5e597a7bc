-- ===== src/Prelude/Dict.antt =====
-- Go's `map[string]V` as an association list, read and written by key. The nil map is the empty
-- one; an operation that depends on the order of a range takes the list's.
use Prim.Native.String.{String}
use mathlib.Core.Path.{◌≡◌, refl}
use mathlib.Core.Option.{Option, none, some}
use mathlib.Core.List.{List, [], ◌∷◌}
use native.Mathlib.Omega.{arith}
use text.Mathlib.Text.{◌==◌ as str_eq}
use text.Mathlib.TextEquality.{eq_iff}
use slingshot_operator.Prelude.Tests.{if◌then◌else◌}

abbrev pub Dict {ℓ} : Type ℓ → Type ℓ
Dict V = List (String × V)

module _ {ℓ} {V : Type ℓ} where
  -- v, ok := entries[key]
  unfoldable pub lookup : String → Dict V → Option V
  lookup key ((name, value) ∷ entries) = if str_eq name key then some value else lookup key entries
  lookup _ [] = none

  -- delete(entries, key)
  unfoldable pub delete : String → Dict V → Dict V
  delete key ((name, value) ∷ entries) =
      let rest = delete key entries in if str_eq name key then rest else (name, value) ∷ rest
  delete _ [] = []

  -- entries[key] = new
  unfoldable pub insert : String → V → Dict V → Dict V
  insert key new ((name, old) ∷ entries) =
      if str_eq name key then (key, new) ∷ entries else (name, old) ∷ insert key new entries
  insert key new [] = (key, new) ∷ []

  pub lookup-insert :
      (key other : String) (new : V) (entries : Dict V)
      → lookup other (insert key new entries)
        ≡ (if str_eq key other then some new else lookup other entries)
  unfolding lookup insert
  lookup-insert key other new ((name, old) ∷ entries) =
      let ih = lookup-insert key other new entries in
      ground (arith, ih, eq_iff name other, eq_iff name key, eq_iff key other)
  lookup-insert key other new [] = refl

  pub lookup-delete :
      (k j : String) (m : Dict V)
      → lookup j (delete k m) ≡ (if str_eq k j then none else lookup j m)
  unfolding lookup delete
  lookup-delete k j [] = ground arith
  lookup-delete k j ((i, w) ∷ m) =
      ground (arith, eq_iff k j, eq_iff i k, eq_iff i j, lookup-delete k j m)

-- m[k] in a map of texts: the empty text if the key is missing.
unfoldable pub get : String → Dict String → String
unfolding lookup
get k m = elim (lookup k m) [ some v ↦ v | none ↦ "" ]

pub get-insert :
    (k j v : String) (m : Dict String) → get j (insert k v m) ≡ (if str_eq k j then v else get j m)
unfolding get
get-insert k j v m = ground (arith, lookup-insert k j v m)

pub get-delete :
    (k j : String) (m : Dict String) → get j (delete k m) ≡ (if str_eq k j then "" else get j m)
unfolding get
get-delete k j m = ground (arith, lookup-delete k j m)
