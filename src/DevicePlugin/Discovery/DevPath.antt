-- ===== src/DevicePlugin/Discovery/DevPath.antt =====
-- The path of a device's file: filepath.Join of /dev and a name that is one segment.
use Prim.Native.Char.{code}
use Prim.Native.String.{◌++◌ as cat}
use text.Mathlib.TextLemmas.{nil-append, cons-append, append_assoc, append-nil}
use text.Mathlib.TextPositions.{starts_with-append}
use mathlib.Core.List.{reverse}
use slingshot_operator.Prelude.{
  starts_with, if◌then◌else◌, ◌≡◌, refl, sym, ap, ◌∙◌, String, Bool, true, false, ◌||◌, List, [],
  ◌∷◌, ◌==◌, str_eq, inl, inr, Bool-cases,
}
use slingshot_operator.Prelude.Text.{split, push, split_from, join}
use slingshot_operator.Prelude.FilePath.{or_dot, join_path, clean, resolve_all, resolve}

-- A directory's entry has no separator in its name.
unfoldable pub has_separator : String → Bool
has_separator String.[] = false
has_separator (String.◌∷◌ c s) = (code c == b'/') || has_separator s

true_not_false : true ≡ false → ⊥
true_not_false h = cc

split_segment : (cur s : String) → has_separator s ≡ false → split_from b'/' cur s ≡ cat cur s ∷ []
unfolding split_from has_separator
split_segment cur String.[] h = ap (λ (t : String). t ∷ []) (sym (append-nil cur))
split_segment cur (String.◌∷◌ c s) h = elim (Bool-cases (code c == b'/')) [
  | inl e ↦ absurd (true_not_false (rw (e, has_separator) at h))
  | inr e ↦
      rw (e, split_from)
        (split_segment (push cur c) s (rw (e, has_separator) at h)
          ∙ ap (λ (t : String). t ∷ [])
              (append_assoc cur (String.◌∷◌ c String.[]) s
                ∙ ap (cat cur) (cons-append c String.[] s ∙ ap (String.◌∷◌ c) (nil-append s))))
]

-- /dev/ and a name, character by character
abbrev dev_below : String → String
dev_below name =
    String.◌∷◌ "/" (String.◌∷◌ "d" (String.◌∷◌ "e" (String.◌∷◌ "v" (String.◌∷◌ "/" name))))

append_slash : (name : String) → cat "/" name ≡ String.◌∷◌ "/" name
append_slash name = cons-append "/" "" name ∙ ap (String.◌∷◌ "/") (nil-append name)

append_dev : (name : String) → cat "/dev" (cat "/" name) ≡ dev_below name
append_dev name =
    let below = cat "/" name in
    cons-append "/" "dev" below
    ∙ ap (String.◌∷◌ "/") (
        cons-append "d" "ev" below
        ∙ ap (String.◌∷◌ "d") (
            cons-append "e" "v" below
            ∙ ap (String.◌∷◌ "e") (
                cons-append "v" "" below
                ∙ ap (String.◌∷◌ "v") (nil-append below ∙ append_slash name))))

split_dev :
    (name : String)
    → has_separator name ≡ false
    → split_from b'/' "" (dev_below name) ≡ "" ∷ "dev" ∷ name ∷ []
unfolding split_from
split_dev name h =
    ap (λ (parts : List String). "" ∷ "dev" ∷ parts)
      (split_segment "" name h ∙ ap (λ (t : String). t ∷ []) (nil-append name))

resolve_dev :
    (name : String)
    → str_eq name "" ≡ false
    → str_eq name "." ≡ false
    → str_eq name ".." ≡ false
    → resolve_all true [] ("" ∷ "dev" ∷ name ∷ []) ≡ name ∷ "dev" ∷ []
unfolding resolve_all resolve
resolve_dev name e d u = rw (e) (rw (d) (rw u refl))

starts_dev : (name : String) → starts_with (dev_below name) "/" ≡ true
starts_dev name =
    ap (λ (t : String). starts_with t "/")
      (sym (cons-append "/" "" _ ∙ ap (String.◌∷◌ "/") (nil-append _)))
    ∙ starts_with-append "/" _

-- What Clean makes of the segments
abbrev rejoin : Bool → List String → String
rejoin rooted stack = or_dot (cat (if rooted then "/" else "") (join "/" (reverse stack)))

rejoin_dev : (name : String) → rejoin true (name ∷ "dev" ∷ []) ≡ dev_below name
unfolding join
rejoin_dev name = ap or_dot (sym (append_assoc "/" "dev" (cat "/" name)) ∙ append_dev name)

clean_dev :
    (name : String)
    → has_separator name ≡ false
    → str_eq name "" ≡ false
    → str_eq name "." ≡ false
    → str_eq name ".." ≡ false
    → clean (dev_below name) ≡ dev_below name
unfolding clean split
clean_dev name h e d u =
    let parts = split_from b'/' "" (dev_below name) in
    ap (λ (b : Bool). rejoin b (resolve_all b [] parts)) (starts_dev name)
    ∙ ap (λ (ps : List String). rejoin true (resolve_all true [] ps)) (split_dev name h)
    ∙ ap (rejoin true) (resolve_dev name e d u)
    ∙ rejoin_dev name

-- Join has nothing to do for a name below /dev.
pub join_dev :
    (name : String)
    → has_separator name ≡ false
    → str_eq name "" ≡ false
    → str_eq name "." ≡ false
    → str_eq name ".." ≡ false
    → join_path "/dev" name ≡ cat "/dev/" name
unfolding join_path
join_dev name h e d u = rw (e) (
    ap clean (append_dev name)
    ∙ clean_dev name h e d u
    ∙ sym (append_dev name)
    ∙ sym (append_assoc "/dev" "/" name))
