-- ===== src/DriverAgent/Source/Depth.antt =====
-- The bound on the depth of `copyDir` has no part in what it does.
use mathlib.Core.Path.{fun_ext}
use slingshot_operator.Prelude.{
  ℕ, ◌+◌, zero, suc, ◌≡◌, ◌<◌, refl, sym, ap, ◌∙◌, String, false, List, [], ◌∷◌, ◌⊎◌, inl, inr, All,
  Bool-cases, Sum-cases, arith,
}
use slingshot_operator.Prelude.FilePath.{join_path}
use slingshot_operator.Prelude.Action.{
  Action, Error, check, check_value, check_value_ok, check_value_err,
}
use slingshot_operator.Host.{FileError, DirEntry, FileInfo, Host, with_text}
use slingshot_operator.DriverAgent.Source.{copy_entries, copy_levels, copy_dir}

module _ {W : Type 0} (host : Host W) where
  -- In no state of the node directories below the path are nested more than `n` deep.
  abbrev pub IsShallow : ℕ → String → Type 0
  IsShallow zero src =
      (w : W) (info : FileInfo) → (host.stat src w).0 ≡ inr info → info.is_dir ≡ false
  IsShallow (suc n) src =
      (w : W) (es : List DirEntry)
      → (host.read_dir src w).0 ≡ inr es
      → All (λ e. IsShallow n (join_path src e.name)) es

  check_value_same :
      {A : Type 0} (context : String) (m : Action W (String ⊎ A)) (f g : A → Action W Error) (w : W)
      → ((a : A) → (m w).0 ≡ inr a → f a ≡ g a)
      → check_value context m f w ≡ check_value context m g w
  check_value_same context m f g w h = elim (Sum-cases (m w).0) [
    | inl (err, e) ↦ check_value_err context m f w err e ∙ sym (check_value_err context m g w err e)
    | inr (a, e) ↦
        check_value_ok context m f w a e
        ∙ ap (λ (k : Action W Error). k (m w).1) (h a e)
        ∙ sym (check_value_ok context m g w a e)
  ]

  with_text-inr :
      {A : Type 0} (m : Action W (FileError ⊎ A)) (w : W) (a : A)
      → (with_text m w).0 ≡ inr a
      → (m w).0 ≡ inr a
  with_text-inr m w a h = ground arith

  entries_same :
      (f g : String → String → Action W Error) (src dst : String) (es : List DirEntry)
      → All
          (λ (e : DirEntry).
            (dst' : String) → f (join_path src e.name) dst' ≡ g (join_path src e.name) dst')
          es
      → copy_entries host f src dst es ≡ copy_entries host g src dst es
  unfolding copy_entries
  entries_same f g src dst [] h = refl
  entries_same f g src dst (e ∷ es) (h, hs) =
      ap (λ (m : Action W Error). check "" m (copy_entries host f src dst es))
        (h (join_path dst e.name))
      ∙ ap (λ (k : Action W Error). check "" (g (join_path src e.name) (join_path dst e.name)) k)
          (entries_same f g src dst es hs)

  All-weaken :
      {P Q : DirEntry → Type 0} (es : List DirEntry)
      → ((e : DirEntry) → P e → Q e)
      → All P es
      → All Q es
  All-weaken [] f h = tt
  All-weaken (e ∷ es) f (h, hs) = (f e h, All-weaken es f hs)

  levels_same :
      (n a b : ℕ) (src dst : String)
      → IsShallow n src
      → n < a
      → n < b
      → copy_levels host a src dst ≡ copy_levels host b src dst
  unfolding copy_levels
  levels_same n zero b src dst h p q = absurd (omega arith)
  levels_same n (suc a) zero src dst h p q = absurd (omega arith)
  levels_same zero (suc a) (suc b) src dst h p q = fun_ext (λ w.
      check_value_same "" (with_text (host.stat src)) _ _ w
        (λ info e. rw (h w info (with_text-inr (host.stat src) w info e)) refl))
  levels_same (suc n) (suc a) (suc b) src dst h p q =
      let entries : (w : W) (es : List DirEntry)
          → (with_text (host.read_dir src) w).0 ≡ inr es
          → copy_entries host (copy_levels host a) src dst es
            ≡ copy_entries host (copy_levels host b) src dst es =
        λ w es e. entries_same (copy_levels host a) (copy_levels host b) src dst es (
          All-weaken es
            (λ x shallow dst'.
              levels_same n a b (join_path src x.name) dst' shallow (omega arith) (omega arith))
            (h w es (with_text-inr (host.read_dir src) w es e))) in
      fun_ext (λ w. check_value_same "" (with_text (host.stat src)) _ _ w (λ info e.
        elim (Bool-cases info.is_dir) [
          | inr f ↦ rw f refl
          | inl t ↦ rw t (
              ap (check "" (host.mkdir_all dst info.mode)) (
                fun_ext
                  (λ v. check_value_same "" (with_text (host.read_dir src)) _ _ v (entries v))))
        ]))

  -- If directories are never nested more than 4095 deep below a path, the copy of the path is the one
  -- with any larger bound: the bound has no part in it.
  pub copy_unbounded :
      (n k : ℕ) (src dst : String)
      → IsShallow n src
      → n < 4096
      → copy_dir host src dst ≡ copy_levels host (4096 + k) src dst
  unfolding copy_dir
  copy_unbounded n k src dst h p = levels_same n 4096 (4096 + k) src dst h p (omega arith)
