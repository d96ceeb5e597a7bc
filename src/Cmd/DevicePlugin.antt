-- ===== src/Cmd/DevicePlugin.antt =====
-- cmd/device-plugin/main.go
use slingshot_operator.Prelude.{ℕ, String, List, [], ◌∷◌, Option, ◌⊎◌, inr}
use slingshot_operator.Prelude.Dict.{Dict}
use slingshot_operator.Prelude.Int.{pos, to_int32}
use slingshot_operator.Flags.{FlagValue, text_value, int_value, parse_flags, text_of, int_of}
use slingshot_operator.DevicePlugin.Plugin.{Config, default_resource_name, default_shared_capacity}
use slingshot_operator.Cmd.Start.{and_then}

abbrev device_plugin_flags : Dict FlagValue
device_plugin_flags =
    ("resource-name", text_value default_resource_name)
    ∷ ("sharing-mode", text_value "shared")
    ∷ ("shared-capacity", int_value default_shared_capacity)
    ∷ []

unfoldable pub device_plugin_main : (String → Option ℕ) → List String → ℕ ⊎ Config
unfolding parse_flags text_of int_of to_int32
device_plugin_main parse_duration args =
    and_then (parse_flags parse_duration args device_plugin_flags) (λ values. inr (record {
      resource_name = text_of "resource-name" values;
      sharing_mode = text_of "sharing-mode" values;
      shared_capacity = to_int32 (int_of "shared-capacity" values);
      health_port = pos 0;
    }))
