-- ===== src/DevicePlugin/Allocate.antt =====
-- pkg/deviceplugin/plugin.go: `Allocate`. The child proves what a container is given.
pub mod Mounts
use slingshot_operator.Prelude.{
  ℕ, String, Bool, true, false, ◌&&◌, List, [], ◌∷◌, ◌++◌, Option, none, some, ltb, ◌==◌, str_eq,
  if◌then◌else◌, length, map,
}
use slingshot_operator.Prelude.Decimal.{itoa}
use slingshot_operator.Prelude.Dict.{Dict, insert}
use slingshot_operator.DevicePlugin.Device.{CxiDevice}
use slingshot_operator.DevicePlugin.Plugin.{Plugin, sharing_mode_shared, sharing_mode_exclusive}

pub record DeviceSpec : Type 0 where
  pub host_path : String
  pub container_path : String
  pub permissions : String

pub record ContainerAllocateResponse : Type 0 where
  pub devices : List DeviceSpec
  pub envs : Dict String

-- The inner loop over the plugin's devices, up to its `break`.
unfoldable pub find_device : String → List CxiDevice → Option CxiDevice
find_device id [] = none
find_device id (d ∷ ds) = if str_eq d.name id then some d else find_device id ds

abbrev pub to_list : Option CxiDevice → List CxiDevice
to_list none = []
to_list (some d) = d ∷ []

unfoldable pub find_devices : List String → List CxiDevice → List CxiDevice
unfolding find_device
find_devices [] ds = []
find_devices (id ∷ ids) ds = to_list (find_device id ds) ++ find_devices ids ds

-- A mode that is neither shared nor exclusive mounts nothing.
unfoldable pub devices_to_mount : Plugin → List String → List CxiDevice
unfolding find_devices
devices_to_mount p ids =
    if str_eq p.config.sharing_mode sharing_mode_exclusive
    then find_devices ids p.devices
    else if str_eq p.config.sharing_mode sharing_mode_shared
    then p.devices
    else []

abbrev pub device_spec : CxiDevice → DeviceSpec
device_spec d = record {
  host_path = d.device_path;
  container_path = d.device_path;
  permissions = "rw";
}

-- `devicesToMount[0].Name` where there is exactly one device, in exclusive mode.
abbrev pub single_device_env : Bool → List CxiDevice → Dict String → Dict String
single_device_env true (d ∷ []) envs = insert "CXI_DEVICE" d.name envs
single_device_env _ _ envs = envs

unfoldable pub allocate_envs : Bool → List CxiDevice → Dict String
unfolding insert
allocate_envs exclusive ds =
    if ltb 0 (length ds)
    then single_device_env exclusive ds (("CXI_DEVICE_COUNT", itoa (length ds)) ∷ [])
    else []

unfoldable pub allocate_container : Plugin → List String → ContainerAllocateResponse
unfolding devices_to_mount allocate_envs
allocate_container p ids =
    let ds = devices_to_mount p ids in
    record {
      devices = map device_spec ds;
      envs = allocate_envs (str_eq p.config.sharing_mode sharing_mode_exclusive) ds;
    }

-- `Allocate` never fails: one response for each container request, in order.
unfoldable pub allocate : Plugin → List (List String) → List ContainerAllocateResponse
unfolding allocate_container
allocate p requests = map (allocate_container p) requests
