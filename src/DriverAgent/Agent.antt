-- ===== src/DriverAgent/Agent.antt =====
-- pkg/driveragent/agent.go: the configuration with `NewAgent`'s defaults, the state of the agent with
-- the functions that read and write it, and the answers of the health server.
use Prim.Native.String.{◌++◌ as cat}
use slingshot_operator.Prelude.{
  ℕ, ◌*◌, ◌^◌, String, Bool, false, List, [], ◌∷◌, none, some, ◌==◌, str_eq, if◌then◌else◌,
}
use slingshot_operator.Prelude.Action.{Error}
use slingshot_operator.Prelude.Int.{ℤ, pos, int_eq, show_int}
use slingshot_operator.DevicePlugin.Device.{CxiDevice, default_switch_id_mask}

abbrev pub driver_source_dkms : String
driver_source_dkms = "dkms"

abbrev pub driver_source_prebuilt : String
driver_source_prebuilt = "prebuilt"

abbrev pub driver_source_preinstalled : String
driver_source_preinstalled = "preinstalled"

abbrev pub dkms_platform_cassini : String
dkms_platform_cassini = "cassini"

abbrev pub dkms_platform_rosetta : String
dkms_platform_rosetta = "rosetta"

-- The poll interval is in nanoseconds.
pub record Config : Type 0 where
  pub node_name : String
  pub namespace : String
  pub driver_source : String
  pub dkms_source_url : String
  pub dkms_pkg_name : String
  pub dkms_pkg_version : String
  pub dkms_tag : String
  pub dkms_platform : String
  pub prebuilt_url : String
  pub health_port : ℤ
  pub poll_interval : ℕ
  pub switch_id_mask : ℕ  -- uint32
  pub disable_labeling : Bool

pub record Agent : Type 0 where
  pub driver_ready : Bool
  pub last_error : String
  pub devices : List CxiDevice

-- The defaults that `NewAgent` fills in.
unfoldable pub new_config : Config → Config
new_config config = record config {
  health_port = if int_eq config.health_port (pos 0) then pos 8081 else config.health_port;
  poll_interval = if config.poll_interval == 0 then 30 * 10 ^ 9 else config.poll_interval;
  switch_id_mask =
      if config.switch_id_mask == 0 then default_switch_id_mask else config.switch_id_mask;
  dkms_platform =
      if str_eq config.dkms_platform "" then dkms_platform_cassini else config.dkms_platform;
}

abbrev pub new_agent : Agent
new_agent = record { driver_ready = false; last_error = ""; devices = [] }

unfoldable pub set_driver_ready : Bool → Agent → Agent
set_driver_ready ready a = record a {
  driver_ready = ready;
  last_error = if ready then "" else a.last_error;
}

unfoldable pub set_error : Error → Agent → Agent
set_error none a = record a { last_error = "" }
set_error (some err) a = record a { last_error = err }

abbrev pub is_ready : Agent → Bool
is_ready a = a.driver_ready

abbrev pub get_devices : Agent → List CxiDevice
get_devices a = a.devices

-- /readyz: the status code and the body.
unfoldable pub readyz : Agent → ℕ × String
readyz a = if is_ready a then (200, "ready\n") else (503, cat "not ready: " (cat a.last_error "\n"))

-- /status, with the function that stands for %q.
module _ (quote_text : String → String) where
  device_line : CxiDevice → String
  unfolding show_int
  device_line d = cat "    {\"name\": " (
      cat (quote_text d.name) (
        cat ", \"pci\": " (
          cat (quote_text d.pci_address) (
            cat ", \"numa\": " (
              cat (show_int d.numa_node)
                (cat ", \"link\": " (cat (quote_text d.link_state) "}")))))))

  -- A comma ends each line but the last.
  device_lines : List CxiDevice → String
  unfolding device_line
  device_lines [] = ""
  device_lines (d ∷ []) = cat (device_line d) "\n"
  device_lines (d ∷ e ∷ ds) = cat (device_line d) (cat ",\n" (device_lines (e ∷ ds)))

  unfoldable pub status_page : Config → Agent → String
  unfolding device_lines
  status_page config a = cat "{\n  \"node\": " (
      cat (quote_text config.node_name) (
        cat ",\n  \"driverReady\": " (
          cat (if a.driver_ready then "true" else "false") (
            cat ",\n" (
              cat
                (if str_eq a.last_error ""
                  then ""
                  else cat "  \"lastError\": " (cat (quote_text a.last_error) ",\n"))
                (cat "  \"devices\": [\n" (cat (device_lines a.devices) "  ]\n}\n")))))))
