-- ===== src/Cmd/Deployed.antt =====
-- The containers that the operator makes, run by the programs.
use Prim.Native.String.{◌++◌ as cat}
use slingshot_operator.Prelude.{
  ℕ, ◌≡◌, refl, ap, ◌∙◌, String, Bool, true, false, List, [], ◌∷◌, Option, none, some, inl, inr,
  ltb, length, if◌then◌else◌,
}
use slingshot_operator.Prelude.Dict.{Dict, lookup, insert}
use slingshot_operator.Prelude.Int.{pos}
use slingshot_operator.Webhook.Injector.{SidecarInjectorConfig, build_sidecar_container}
use slingshot_operator.Flags.{
  Parsed, FlagValue, text_value, int_value, flag_of, split_equals, read_value, argument_of,
  flag_argument, parse_from, parse_flags,
}
use slingshot_operator.Flags.Arguments.{is_flag_name, argument-flag, parse_text_flag}
use slingshot_operator.Cmd.Start.{and_then}
use slingshot_operator.Cmd.RetryHandler.{
  single_mode, retry_handler_flags, mode_of, retry_handler_main,
}

path_argument :
    (path : String)
    → argument_of (cat "--cxi-rh-path=" path) ≡ flag_argument "cxi-rh-path" (some path)
unfolding is_flag_name
path_argument path = argument-flag "cxi-rh-path" path refl

sidecar_flags :
    (parse_duration : String → Option ℕ) (path : String) (args : List String)
    → parse_flags parse_duration
        ("--mode=single" ∷ cat "--cxi-rh-path=" path ∷ args)
        retry_handler_flags
      ≡ parse_from parse_duration none args (
          ("mode", text_value "single")
          ∷ ("device", text_value "")
          ∷ ("cxi-rh-path", text_value path)
          ∷ ("health-port", int_value (pos 8080))
          ∷ [])
unfolding parse_flags parse_from argument_of flag_of split_equals read_value lookup insert
sidecar_flags parse_duration path args =
    parse_text_flag parse_duration (cat "--cxi-rh-path=" path) "cxi-rh-path" path "/usr/bin/cxi_rh"
      args _ (path_argument path) refl

-- The flags of the sidecar before its last argument.
abbrev sidecar_values : String → Dict FlagValue
sidecar_values path =
    ("mode", text_value "single")
    ∷ ("device", text_value "")
    ∷ ("cxi-rh-path", text_value path)
    ∷ ("health-port", int_value (pos 8080))
    ∷ []

sidecar_mode :
    (parse_duration : String → Option ℕ) (path : String) (has_device : Bool)
    → and_then
        (parse_from parse_duration none
          (if has_device then "--device=cxi0" ∷ [] else [])
          (sidecar_values path))
        mode_of
      ≡ (if has_device then inr (single_mode "cxi0" path) else inl 1)
unfolding parse_from argument_of flag_of split_equals read_value lookup insert mode_of
sidecar_mode parse_duration path true = refl
sidecar_mode parse_duration path false = refl

-- The sidecar that the webhook injects starts in the mode for one device, with the configured path,
-- if the webhook found a device in the pod, and exits with status 1 if it found none.
pub sidecar_starts :
    (parse_duration : String → Option ℕ) (config : SidecarInjectorConfig) (devices : List String)
    → retry_handler_main parse_duration (build_sidecar_container config devices).args
      ≡ (if ltb 0 (length devices) then inr (single_mode "cxi0" config.cxi_rh_path) else inl 1)
unfolding retry_handler_main build_sidecar_container
sidecar_starts parse_duration config devices =
    let has_device = ltb 0 (length devices) in
    ap (λ (r : Parsed). and_then r mode_of)
      (sidecar_flags parse_duration config.cxi_rh_path
        (if has_device then "--device=cxi0" ∷ [] else []))
    ∙ sidecar_mode parse_duration config.cxi_rh_path has_device
