-- ===== src/DriverAgent/Version/Tag.antt =====
-- The version that `extractVersionFromURL` finds.
use Prim.Native.Char.{Char, code}
use Prim.Native.String.{◌++◌ as cat, count}
use text.Mathlib.TextLemmas.{nil-append, cons-append, append_assoc, length-append, length-cons}
use slingshot_operator.Prelude.{
  suc, ◌≤◌, ◌≡◌, refl, sym, ap, ◌∙◌, String, Bool, true, false, ◌||◌, Option, none, some, inl, inr,
  ◌==◌, str_eq, eq_iff, Bool-cases, Option-cases, arith,
}
use slingshot_operator.DriverAgent.Version.{
  captured, strip_prefix, zip_stem, without_v, match_here, find_match, or_else,
  extract_version_from_url,
}

pub some_inj : {A : Type 0} (a b : A) → some a ≡ some b → a ≡ b
some_inj a b h = cc

pub none_not_some : {A : Type 0} (a : A) → none ≡ some a → ⊥
none_not_some a h = cc

true_not_false : true ≡ false → ⊥
true_not_false h = cc

unfoldable pub has_slash : String → Bool
has_slash String.[] = false
has_slash (String.◌∷◌ c s) = (code c == b'/') || has_slash s

has_slash-append : (a s : String) → has_slash s ≡ true → has_slash (cat a s) ≡ true
unfolding has_slash
has_slash-append String.[] s h = rw (nil-append s) h
has_slash-append (String.◌∷◌ c a) s h =
    rw (cons-append c a s, has_slash) (ground (arith, has_slash-append a s h))

zip_has_no_slash : true ≡ has_slash ".zip" → ⊥
unfolding has_slash
zip_has_no_slash h = cc

-- A text with a slash is not .zip and has no stem.
slash_not_zip : (s : String) → has_slash s ≡ true → str_eq s ".zip" ≡ false
slash_not_zip s h = elim (Bool-cases (str_eq s ".zip")) [
  | inl e ↦ absurd (zip_has_no_slash (sym h ∙ ap has_slash ((eq_iff s ".zip").0 e)))
  | inr f ↦ f
]

zip_stem-slash : (s : String) → has_slash s ≡ true → zip_stem s ≡ none
unfolding zip_stem has_slash
zip_stem-slash String.[] h = cc
zip_stem-slash (String.◌∷◌ c s) h =
    rw (slash_not_zip (String.◌∷◌ c s) h, zip_stem)
      (elim (Bool-cases (code c == b'/')) [
        | inl e ↦ rw e refl
        | inr f ↦ rw f (rw (zip_stem-slash s (rw (f, has_slash) at h)) refl)
      ])

-- What is left behind a prefix of a text that is no longer than `x` ends like the text.
strip_prefix-append :
    (p x s : String) (rest : String)
    → count p ≤ count x
    → strip_prefix p (cat x s) ≡ some rest
    → (y : String) × (rest ≡ cat y s)
unfolding strip_prefix
strip_prefix-append String.[] x s rest le h = (x, some_inj _ _ (sym h))
strip_prefix-append (String.◌∷◌ c p) String.[] s rest le h = absurd (omega (arith, length-cons c p))
strip_prefix-append (String.◌∷◌ c p) (String.◌∷◌ d x) s rest le h =
    elim (Bool-cases (code c == code d)) [
      | inl e ↦
          strip_prefix-append p x s rest (omega (arith, length-cons c p, length-cons d x))
            (rw (e, strip_prefix) at (rw (cons-append d x s) at h))
      | inr f ↦ absurd (none_not_some _ (rw (f, strip_prefix) at (rw (cons-append d x s) at h)))
    ]

long_not_zip : (c : Char) (s : String) → str_eq (String.◌∷◌ c (cat s ".zip")) ".zip" ≡ false
long_not_zip c s =
    let text = String.◌∷◌ c (cat s ".zip") in
    elim (Bool-cases (str_eq text ".zip")) [
      | inl e ↦
          let same = ap count ((eq_iff text ".zip").0 e) in
          absurd (omega (arith, same, length-cons c (cat s ".zip"), length-append s ".zip"))
      | inr f ↦ f
    ]

zip_stem-append : (stem : String) → has_slash stem ≡ false → zip_stem (cat stem ".zip") ≡ some stem
unfolding zip_stem has_slash
zip_stem-append String.[] h = refl
zip_stem-append (String.◌∷◌ c s) h = rw (cons-append c s ".zip") (
    rw (long_not_zip c s, zip_stem)
      (elim (Bool-cases (code c == b'/')) [
        | inl e ↦ absurd (true_not_false (rw (e, has_slash) at h))
        | inr f ↦ rw f (rw (zip_stem-append s (rw (f, has_slash) at h)) refl)
      ]))

-- The tail of a URL that starts before its last slash does not match.
match_here-slash :
    (marker : String) (allowed : Bool) (x s : String)
    → count marker ≤ count x
    → has_slash s ≡ true
    → match_here marker allowed (cat x s) ≡ none
unfolding match_here
match_here-slash marker allowed x s le h = elim (Option-cases (strip_prefix marker (cat x s))) [
  | inl e ↦ rw (e, match_here) refl
  | inr (rest, e) ↦
      let (y, r) = strip_prefix-append marker x s rest le e in
      rw (e, match_here) (rw (zip_stem-slash rest (ap has_slash r ∙ has_slash-append y s h)) refl)
]

-- A marker that ends with a slash is found at the last slash.
find_match-last :
    (marker : String) (allowed : Bool) (b t s version : String)
    → count marker ≤ suc (count t)
    → has_slash s ≡ true
    → find_match marker allowed (cat t s) ≡ some version
    → find_match marker allowed (cat b (cat t s)) ≡ some version
unfolding find_match
find_match-last marker allowed String.[] t s version le h m = rw (nil-append (cat t s)) m
find_match-last marker allowed (String.◌∷◌ c b) t s version le h m =
    let whole = sym (append_assoc (String.◌∷◌ c b) t s) in
    let here =
      match_here-slash marker allowed (cat (String.◌∷◌ c b) t) s
        (omega (arith, le, length-append (String.◌∷◌ c b) t, length-cons c b)) h in
    let path = sym (cons-append c b (cat t s)) ∙ whole in
    rw (cons-append c b (cat t s)) (
      rw (ap (match_here marker allowed) path ∙ here, find_match)
        (find_match-last marker allowed b t s version le h m))

captured_stem :
    (stem : String)
    → str_eq stem "" ≡ false
    → captured true (some stem) ≡ some (without_v true stem)
captured_stem String.[] h = absurd (true_not_false h)
captured_stem (String.◌∷◌ c s) h = refl

strip_prefix-cat : (p s : String) → strip_prefix p (cat p s) ≡ some s
unfolding strip_prefix
strip_prefix-cat String.[] s = ap some (nil-append s)
strip_prefix-cat (String.◌∷◌ c p) s = rw (cons-append c p s) (ground (arith, strip_prefix-cat p s))

match_tag :
    (tag : String)
    → has_slash tag ≡ false
    → str_eq tag "" ≡ false
    → match_here "/refs/tags/" true (cat "/refs/tags/" (cat tag ".zip")) ≡ some (without_v true tag)
unfolding match_here
match_tag tag n h =
    rw (strip_prefix-cat "/refs/tags/" (cat tag ".zip"), match_here)
      (ap (captured true) (zip_stem-append tag n) ∙ captured_stem tag h)

find_tag :
    (tag : String)
    → has_slash tag ≡ false
    → str_eq tag "" ≡ false
    → find_match "/refs/tags/" true (cat "/refs/tags/" (cat tag ".zip")) ≡ some (without_v true tag)
unfolding find_match
find_tag tag n h =
    let first = cons-append "/" "refs/tags/" (cat tag ".zip") in
    rw first
      (rw (ap (match_here "/refs/tags/" true) (sym first) ∙ match_tag tag n h, find_match) refl)

slash-has_slash : (s : String) → has_slash (cat "/" s) ≡ true
unfolding has_slash
slash-has_slash s = rw (cons-append "/" "" s) refl

-- For a tag that is not empty and has no slash, the version in the URL of its .zip archive, whatever
-- the URL begins with, is the tag, without a `v` that it begins with if more follows.
pub version_of_tag :
    (base tag : String)
    → has_slash tag ≡ false
    → str_eq tag "" ≡ false
    → extract_version_from_url (cat base (cat "/refs/tags/" (cat tag ".zip"))) ≡ without_v true tag
unfolding extract_version_from_url
version_of_tag base tag n h =
    let rest = cat tag ".zip" in
    let parts = append_assoc "/refs/tags" "/" rest in
    let found =
      find_match-last "/refs/tags/" true base "/refs/tags" (cat "/" rest) (without_v true tag)
        (omega arith) (slash-has_slash rest)
        (ap (find_match "/refs/tags/" true) (sym parts) ∙ find_tag tag n h) in
    let url = cat base (cat "/refs/tags/" rest) in
    let others =
      or_else (find_match "/refs/heads/" false url)
        (or_else (find_match "/archive/" true url) "0.0.0") in
    ap (λ (o : Option String). or_else o others)
      (ap (λ (u : String). find_match "/refs/tags/" true (cat base u)) parts ∙ found)
