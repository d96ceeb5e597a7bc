-- ===== src/DevicePlugin/Plugin.antt =====
-- pkg/deviceplugin/plugin.go: the configuration, its defaults, and the plugin's state.
use slingshot_operator.Prelude.{String, List, [], Bool, false, str_eq, if◌then◌else◌}
use slingshot_operator.Prelude.Int.{ℤ, pos, int_eq}
use slingshot_operator.DevicePlugin.Device.{CxiDevice}

abbrev pub default_resource_name : String
default_resource_name = "hpe.com/cxi"

abbrev pub default_shared_capacity : ℤ
default_shared_capacity = pos 100

-- `SharingMode` is a string type: any text may stand there.
abbrev pub sharing_mode_shared : String
sharing_mode_shared = "shared"

abbrev pub sharing_mode_exclusive : String
sharing_mode_exclusive = "exclusive"

pub record Config : Type 0 where
  pub resource_name : String
  pub sharing_mode : String
  pub shared_capacity : ℤ  -- int32
  pub health_port : ℤ

-- `CXIDevicePlugin` without its servers, locks and channels.
pub record Plugin : Type 0 where
  pub config : Config
  pub devices : List CxiDevice
  pub ready : Bool

unfoldable pub new_plugin : Config → Plugin
new_plugin c = record {
  config = record {
    resource_name = if str_eq c.resource_name "" then default_resource_name else c.resource_name;
    sharing_mode = if str_eq c.sharing_mode "" then sharing_mode_shared else c.sharing_mode;
    shared_capacity =
        if int_eq c.shared_capacity (pos 0) then default_shared_capacity else c.shared_capacity;
    health_port = if int_eq c.health_port (pos 0) then pos 8082 else c.health_port;
  };
  devices = [];
  ready = false;
}
