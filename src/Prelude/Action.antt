-- ===== src/Prelude/Action.antt =====
-- Stateful code: an action takes the state of the world to an answer and the state after it.
use Prim.Native.String.{String, ◌++◌}
use mathlib.Core.Logic.{◌⊎◌, inl, inr}
use mathlib.Core.Option.{Option, none, some}
use mathlib.Core.Path.{◌≡◌, refl, sym, ap, ◌∙◌}
use slingshot_operator.Prelude.Tests.{Option-cases}

abbrev pub Action : Type 0 → Type 0 → Type 0
Action W A = W → A × W

-- A Go error as its text, none for nil.
abbrev pub Error : Type 0
Error = Option String

module _ {W A B : Type 0} where
  infixl 5 ◌>>=◌ ◌>>◌
  abbrev pub ◌>>=◌ : Action W A → (A → Action W B) → Action W B
  ◌>>=◌ m f w = let (a, w') = m w in f a w'

  abbrev pub ◌>>◌ : Action W A → Action W B → Action W B
  ◌>>◌ m k w = k (m w).1

abbrev pub pure : {W A : Type 0} → A → Action W A
pure a w = (a, w)

pub some_not_none : {A : Type 0} (a : A) → some a ≡ none → ⊥
some_not_none a h = cc

module _ {W : Type 0} where
  -- if err := m(); err != nil { return fmt.Errorf("<context>%w", err) }, and then the rest
  abbrev pub check : String → Action W Error → Action W Error → Action W Error
  check context m rest = m >>= λ e. elim e [ none ↦ rest | some err ↦ pure (some (context ++ err)) ]

  -- The same for a call that answers a value and an error.
  abbrev pub check_value :
      {A : Type 0} → String → Action W (String ⊎ A) → (A → Action W Error) → Action W Error
  check_value context m rest =
      m >>= λ r. elim r [ inl err ↦ pure (some (context ++ err)) | inr a ↦ rest a ]

  -- How a checked call goes on, by its answer.
  pub check_ok :
      (context : String) (m rest : Action W Error) (w : W)
      → (m w).0 ≡ none
      → check context m rest w ≡ rest (m w).1
  check_ok context m rest w h = rw (h, check) refl

  pub check_err :
      (context : String) (m rest : Action W Error) (w : W) (err : String)
      → (m w).0 ≡ some err
      → check context m rest w ≡ (some (context ++ err), (m w).1)
  check_err context m rest w err h = rw (h, check) refl

  pub check-none :
      (context : String) (m rest : Action W Error) (w : W)
      → (check context m rest w).0 ≡ none
      → (m w).0 ≡ none
  check-none context m rest w h = elim (Option-cases (m w).0) [
    | inl e ↦ e
    | inr (err, e) ↦ absurd (
        some_not_none (context ++ err)
          (sym (ap (λ (r : Error × W). r.0) (check_err context m rest w err e)) ∙ h))
  ]

  -- What the code after a checked call, or the last call, leads to when the whole succeeds.
  pub check_after :
      (Q : W → Type 0) (context : String) (m rest : Action W Error)
      → ((v : W) → (rest v).0 ≡ none → Q (rest v).1)
      → (w : W) → (check context m rest w).0 ≡ none
      → Q (check context m rest w).1
  check_after Q context m rest q w h =
      let e = check_ok context m rest w (check-none context m rest w h) in
      rw e (q (m w).1 (sym (ap (λ (r : Error × W). r.0) e) ∙ h))

  pub check_last :
      (Q : W → Type 0) (context : String) (m : Action W Error)
      → ((v : W) → (m v).0 ≡ none → Q (m v).1)
      → (w : W) → (check context m (pure none) w).0 ≡ none
      → Q (check context m (pure none) w).1
  check_last Q context m q w h =
      let e = check-none context m (pure none) w h in
      rw (check_ok context m (pure none) w e) (q w e)

  pub check_value_ok :
      {A : Type 0} (context : String) (m : Action W (String ⊎ A)) (rest : A → Action W Error)
      (w : W) (a : A)
      → (m w).0 ≡ inr a
      → check_value context m rest w ≡ rest a (m w).1
  check_value_ok context m rest w a h = rw (h, check_value) refl

  pub check_value_err :
      {A : Type 0} (context : String) (m : Action W (String ⊎ A)) (rest : A → Action W Error)
      (w : W) (err : String)
      → (m w).0 ≡ inl err
      → check_value context m rest w ≡ (some (context ++ err), (m w).1)
  check_value_err context m rest w err h = rw (h, check_value) refl
