-- ===== src/Cmd/RetryHandler.antt =====
-- cmd/retry-handler/main.go
use Prim.Native.String.{◌++◌ as cat}
use slingshot_operator.Prelude.{
  ℕ, String, Bool, true, false, List, [], ◌∷◌, Option, ◌⊎◌, inl, inr, str_eq, if◌then◌else◌,
}
use slingshot_operator.Prelude.Dict.{Dict}
use slingshot_operator.Prelude.Int.{ℤ, pos}
use slingshot_operator.Prelude.Action.{Action, pure, ◌>>=◌}
use slingshot_operator.Host.{FileError, Host}
use slingshot_operator.Flags.{FlagValue, text_value, int_value, parse_flags, text_of, int_of}
use slingshot_operator.Cmd.Start.{and_then}

abbrev pub retry_handler_flags : Dict FlagValue
retry_handler_flags =
    ("mode", text_value "supervisor")
    ∷ ("device", text_value "")
    ∷ ("cxi-rh-path", text_value "/usr/bin/cxi_rh")
    ∷ ("health-port", int_value (pos 8080))
    ∷ []

-- The two modes: the supervisor, with the path of cxi_rh and its port, and one device, with the path.
pub data Mode : Type 0 where
  supervisor_mode : String → ℤ → Mode
  single_mode : String → String → Mode

-- The switch over the mode.
unfoldable pub mode_of : Dict FlagValue → ℕ ⊎ Mode
unfolding text_of int_of
mode_of values =
    let mode = text_of "mode" values in
    let device = text_of "device" values in
    let path = text_of "cxi-rh-path" values in
    if str_eq mode "supervisor"
    then inr (supervisor_mode path (int_of "health-port" values))
    else if str_eq mode "single"
    then (if str_eq device "" then inl 1 else inr (single_mode device path))
    else inl 1

unfoldable pub retry_handler_main : (String → Option ℕ) → List String → ℕ ⊎ Mode
unfolding parse_flags mode_of
retry_handler_main parse_duration args =
    and_then (parse_flags parse_duration args retry_handler_flags) mode_of

-- The path and the arguments that runSingleMode executes in the place of its process.
module _ {W : Type 0} (host : Host W) where
  abbrev is_missing : {A : Type 0} → FileError ⊎ A → Bool
  is_missing (inl err) = err.not_exist
  is_missing (inr _) = false

  unfoldable pub run_single_mode : String → String → Action W (ℕ ⊎ (String × List String))
  run_single_mode device path =
      let device_path = cat "/dev/" device in
      do
        found ← host.stat device_path
        elim (is_missing found) [
          | true ↦ pure (inl 1)
          | false ↦ (do
            there ← host.stat path
            pure (if is_missing there then inl 1 else inr (path, path ∷ "-d" ∷ device_path ∷ [])))
        ]
