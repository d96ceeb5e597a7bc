-- ===== src/Cmd/DriverAgent.antt =====
-- cmd/driver-agent/main.go
use slingshot_operator.Prelude.{
  ℕ, ◌*◌, ◌^◌, String, false, List, [], ◌∷◌, Option, ◌⊎◌, inl, inr, str_eq, if◌then◌else◌,
}
use slingshot_operator.Prelude.Dict.{Dict, get}
use slingshot_operator.Prelude.Int.{pos}
use slingshot_operator.Flags.{
  FlagValue, text_value, int_value, duration_value, parse_flags, text_of, int_of, duration_of,
}
use slingshot_operator.DriverAgent.Agent.{Config}
use slingshot_operator.Cmd.Start.{and_then}

abbrev driver_agent_flags : Dict String → Dict FlagValue
unfolding get
driver_agent_flags env =
    ("node-name", text_value (get "NODE_NAME" env))
    ∷ ("namespace", text_value (get "NAMESPACE" env))
    ∷ ("driver-source", text_value "preinstalled")
    ∷ ("dkms-source-url", text_value "")
    ∷ ("dkms-tag", text_value (get "DKMS_TAG" env))
    ∷ ("prebuilt-url", text_value "")
    ∷ ("health-port", int_value (pos 8081))
    ∷ ("poll-interval", duration_value (30 * 10 ^ 9))
    ∷ []

unfoldable pub driver_agent_main : (String → Option ℕ) → Dict String → List String → ℕ ⊎ Config
unfolding parse_flags text_of int_of duration_of get driver_agent_flags
driver_agent_main parse_duration env args =
    and_then (parse_flags parse_duration args (driver_agent_flags env)) (λ values.
      let node_name = text_of "node-name" values in
      let namespace = text_of "namespace" values in
      if str_eq node_name ""
      then inl 1
      else inr (record {
        node_name = node_name;
        namespace = if str_eq namespace "" then "slingshot-system" else namespace;
        driver_source = text_of "driver-source" values;
        dkms_source_url = text_of "dkms-source-url" values;
        dkms_pkg_name = "";
        dkms_pkg_version = "";
        dkms_tag = text_of "dkms-tag" values;
        dkms_platform = "";
        prebuilt_url = text_of "prebuilt-url" values;
        health_port = int_of "health-port" values;
        poll_interval = duration_of "poll-interval" values;
        switch_id_mask = 0;
        disable_labeling = false;
      }))
