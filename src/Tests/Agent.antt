-- ===== src/Tests/Agent.antt =====
-- The driver agent, the discovery of devices and the configuration at concrete inputs.
use slingshot_operator.Prelude.{
  ℕ, ◌≡◌, refl, String, false, List, [], ◌∷◌, none, some, inr, distinct,
}
use slingshot_operator.Prelude.Dict.{Dict, get, lookup}
use slingshot_operator.Prelude.Int.{pos}
use slingshot_operator.Prelude.Decimal.{itoa}
use slingshot_operator.Config.Env.{get_env_uint32}
use slingshot_operator.Config.Env.RoundTrip.{get_env_uint32-itoa}
use slingshot_operator.Host.{regular_file, TarStream}
use slingshot_operator.DevicePlugin.Device.{CxiDevice, invalid_nid, default_switch_id_mask}
use slingshot_operator.DevicePlugin.Discovery.{discover_devices}
use slingshot_operator.DevicePlugin.Discovery.DevPath.{has_separator}
use slingshot_operator.DevicePlugin.Discovery.Found.{Found, discover_found}
use slingshot_operator.DriverAgent.Agent.{Config, new_config, readyz}
use slingshot_operator.DriverAgent.Labels.{label_node, is_switch_label}
use slingshot_operator.DriverAgent.Labels.Exact.{last_text, labels_exact}
use slingshot_operator.DriverAgent.Devices.{update_node_labels}
use slingshot_operator.DriverAgent.Devices.Settle.{node_labels_settle}
use slingshot_operator.DriverAgent.Version.{extract_version_from_url, without_v}
use slingshot_operator.DriverAgent.Version.Tag.{has_slash, version_of_tag}
use slingshot_operator.DriverAgent.Archive.{extract_tar, extract_zip}
use slingshot_operator.DriverAgent.Archive.Confined.{Keeps, extract_confined}
use slingshot_operator.DriverAgent.Install.{now_ready, ensure_driver, start_agent}
use slingshot_operator.DriverAgent.Install.Ready.{start_answers}
use slingshot_operator.Tests.Machine.{
  Machine, node_host, node_client, class_entries, node-NodeLaws, IsLoaded, node-ModuleLaws, IsSafe,
  node-IsKeptBelow,
}

abbrev device : String → ℕ → CxiDevice
device name nid = record {
  name = name;
  device_path = "";
  pci_address = "";
  numa_node = pos 0;
  nid = nid;
  link_state = "1";
}

abbrev two_devices : List CxiDevice
two_devices = device "cxi0" 0x12345 ∷ device "cxi1" invalid_nid ∷ []

abbrev old_labels : Dict String
old_labels =
    ("slingshot.hpe.com/cxi1-switch-id", "64")
    ∷ ("slingshot.hpe.com/cxi9-switch-id", "64")
    ∷ ("kubernetes.io/os", "linux")
    ∷ []

abbrev pub machine : Machine
machine = record {
  loaded = [];
  written = [];
  node = record { name = "node1"; labels = old_labels };
  resources = [];
}

abbrev pub config : Config
config = record {
  node_name = "node1";
  namespace = "slingshot-system";
  driver_source = "prebuilt";
  dkms_source_url = "";
  dkms_pkg_name = "";
  dkms_pkg_version = "";
  dkms_tag = "";
  dkms_platform = "";
  prebuilt_url = "https://cache";
  health_port = pos 0;
  poll_interval = 0;
  switch_id_mask = default_switch_id_mask;
  disable_labeling = false;
}

labels_exact_example :
    lookup "slingshot.hpe.com/cxi0-switch-id"
      (label_node default_switch_id_mask two_devices old_labels).labels
    ≡ some "74560"
unfolding last_text itoa is_switch_label
labels_exact_example =
    labels_exact default_switch_id_mask two_devices old_labels "slingshot.hpe.com/cxi0-switch-id"

node_labels_settle_example :
    update_node_labels node_host node_client config two_devices
      (update_node_labels node_host node_client config two_devices machine).1
    ≡ (none, (update_node_labels node_host node_client config two_devices machine).1)
unfolding update_node_labels distinct itoa
node_labels_settle_example =
    node_labels_settle node_host node_client node-NodeLaws config two_devices machine refl refl

get_env_uint32-itoa_example :
    get_env_uint32 (("SWITCH_ID_MASK", "1048512") ∷ []) "SWITCH_ID_MASK" 7 ≡ 1048512
unfolding get itoa
get_env_uint32-itoa_example =
    get_env_uint32-itoa (("SWITCH_ID_MASK", "1048512") ∷ []) "SWITCH_ID_MASK" 1048512 7 refl

discover_found_example :
    (ds : List CxiDevice) × ((discover_devices node_host machine).0 ≡ inr ds)
    × Found class_entries ds
unfolding has_separator
discover_found_example = discover_found node_host machine class_entries refl (refl, (refl, tt))

version_of_tag_example :
    extract_version_from_url "https://github.com/user/repo/archive/refs/tags/v1.2.3.zip" ≡ "1.2.3"
unfolding has_slash without_v
version_of_tag_example = version_of_tag "https://github.com/user/repo/archive" "v1.2.3" refl refl

start_answers_example :
    (readyz (start_agent node_host config machine).0 ≡ (200, "ready\n"))
    × IsLoaded "cxi" (start_agent node_host config machine).1
unfolding ensure_driver new_config now_ready
start_answers_example = start_answers node_host IsLoaded node-ModuleLaws config machine

abbrev stream : TarStream
stream = record {
  entries =
      record { name = "lib/a.c"; mode = 420; kind = regular_file; content = "a" }
      ∷ record { name = "../../etc/passwd"; mode = 420; kind = regular_file; content = "b" }
      ∷ [];
  read_error = none;
}

extract_confined_example :
    Keeps IsSafe (extract_tar node_host "/tmp/sbl" stream)
    × Keeps IsSafe (extract_zip node_host "/tmp/sbl" "/tmp/download-1.zip")
extract_confined_example =
    extract_confined node_host "/tmp/sbl" IsSafe node-IsKeptBelow stream "/tmp/download-1.zip"

-- An entry that leaves the destination is refused, but not one for a sibling directory whose name
-- begins with that of the destination.
abbrev entry : String → TarStream
entry name = record {
  entries = record { name = name; mode = 420; kind = regular_file; content = "a" } ∷ [];
  read_error = none;
}

escape_test :
    extract_tar node_host "/tmp/sbl" (entry "../../etc/passwd") machine
    ≡ (some "invalid tar path: ../../etc/passwd", machine)
unfolding extract_tar
escape_test = refl

sibling_test :
    (extract_tar node_host "/tmp/sbl" (entry "../sbl-old/a.c") machine).1.written
    ≡ "/tmp/sbl-old/a.c" ∷ []
unfolding extract_tar
sibling_test = refl
