-- ===== src/DriverAgent/Version/Other.antt =====
-- The version of a URL that no pattern of `extractVersionFromURL` matches.
use Prim.Native.Char.{code}
use slingshot_operator.Prelude.{
  ◌≡◌, refl, sym, ap, ◌∙◌, String, Bool, true, false, ◌||◌, none, some, inl, inr, ◌==◌, str_eq,
  Bool-cases, Option-cases, arith,
}
use slingshot_operator.Prelude.Text.{ends_with}
use slingshot_operator.DriverAgent.Version.{
  strip_prefix, zip_stem, match_here, find_match, extract_version_from_url,
}
use slingshot_operator.DriverAgent.Version.Tag.{some_inj, none_not_some}

or_false : (a b : Bool) → (a || b) ≡ false → (a ≡ false) × (b ≡ false)
or_false a b h = ground arith

zip_stem-not_zip : (s : String) → ends_with s ".zip" ≡ false → zip_stem s ≡ none
unfolding zip_stem ends_with
zip_stem-not_zip String.[] h = refl
zip_stem-not_zip (String.◌∷◌ c s) h =
    let (here, later) = or_false (str_eq (String.◌∷◌ c s) ".zip") (ends_with s ".zip") h in
    rw (here, zip_stem)
      (elim (Bool-cases (code c == b'/')) [
        | inl e ↦ rw e refl
        | inr f ↦ rw f (rw (zip_stem-not_zip s later) refl)
      ])

strip_prefix-not_zip :
    (p text rest : String)
    → ends_with text ".zip" ≡ false
    → strip_prefix p text ≡ some rest
    → ends_with rest ".zip" ≡ false
unfolding strip_prefix ends_with
strip_prefix-not_zip String.[] text rest h e =
    ap (λ (s : String). ends_with s ".zip") (sym (some_inj text rest e)) ∙ h
strip_prefix-not_zip (String.◌∷◌ c p) String.[] rest h e = absurd (none_not_some rest e)
strip_prefix-not_zip (String.◌∷◌ c p) (String.◌∷◌ d text) rest h e =
    let (_, later) = or_false (str_eq (String.◌∷◌ d text) ".zip") (ends_with text ".zip") h in
    elim (Bool-cases (code c == code d)) [
      | inl t ↦ strip_prefix-not_zip p text rest later (rw (t, strip_prefix) at e)
      | inr f ↦ absurd (none_not_some rest (rw (f, strip_prefix) at e))
    ]

match_here-not_zip :
    (marker : String) (allowed : Bool) (text : String)
    → ends_with text ".zip" ≡ false
    → match_here marker allowed text ≡ none
unfolding match_here
match_here-not_zip marker allowed text h = elim (Option-cases (strip_prefix marker text)) [
  | inl e ↦ rw (e, match_here) refl
  | inr (rest, e) ↦
      rw (e, match_here)
        (rw (zip_stem-not_zip rest (strip_prefix-not_zip marker text rest h e)) refl)
]

find_match-not_zip :
    (marker : String) (allowed : Bool) (text : String)
    → ends_with text ".zip" ≡ false
    → find_match marker allowed text ≡ none
unfolding find_match ends_with
find_match-not_zip marker allowed String.[] h = refl
find_match-not_zip marker allowed (String.◌∷◌ c s) h =
    let (_, later) = or_false (str_eq (String.◌∷◌ c s) ".zip") (ends_with s ".zip") h in
    rw (match_here-not_zip marker allowed (String.◌∷◌ c s) h, find_match)
      (find_match-not_zip marker allowed s later)

-- A URL that does not end with .zip, such as that of a .tar.gz archive, has the version 0.0.0.
pub version_of_other :
    (url : String) → ends_with url ".zip" ≡ false → extract_version_from_url url ≡ "0.0.0"
unfolding extract_version_from_url
version_of_other url h =
    rw
      (
        find_match-not_zip "/refs/tags/" true url h,
        find_match-not_zip "/refs/heads/" false url h,
        find_match-not_zip "/archive/" true url h,
      )
      refl
