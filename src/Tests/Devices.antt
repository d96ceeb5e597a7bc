-- ===== src/Tests/Devices.antt =====
-- The resources of the devices at a concrete input.
use slingshot_operator.Prelude.{
  ◌≡◌, refl, String, false, List, [], ◌∷◌, Option, none, some, inr, str_eq, eq_iff, eq_refl, arith,
}
use slingshot_operator.Prelude.Int.{negsuc}
use slingshot_operator.Prelude.FilePath.{join_path}
use slingshot_operator.Api.Device.{CxiDeviceStatus, CxiDeviceResource, empty_device_status}
use slingshot_operator.Kube.Client.{Fetch, found}
use slingshot_operator.DevicePlugin.Device.{CxiDevice, invalid_nid}
use slingshot_operator.DevicePlugin.Discovery.{discover_devices, discover_device}
use slingshot_operator.DriverAgent.Agent.{new_agent}
use slingshot_operator.DriverAgent.Devices.{
  get_driver_version, update_device, update_all, update_devices,
}
use slingshot_operator.DriverAgent.Devices.Published.{
  PublishLaws, Published, update_devices-Published,
}
use slingshot_operator.DriverAgent.Devices.Gone.{gone_stays}
use slingshot_operator.Tests.Machine.{Machine, node_host, node_client, find_resource}
use slingshot_operator.Tests.Agent.{config, machine}

abbrev status_of : Fetch CxiDeviceResource → Option CxiDeviceStatus
status_of (found x) = some x.status
status_of _ = none

abbrev NodeShows : String → CxiDeviceStatus → Machine → Type 0
NodeShows n s w = status_of (find_resource n w.resources) ≡ some s

found_resource :
    (n : String) (x : CxiDeviceResource) (xs : List CxiDeviceResource)
    → find_resource n xs ≡ found x
    → x.name ≡ n
found_resource n x [] h = cc
found_resource n x (y ∷ ys) h = ground (arith, eq_iff y.name n, found_resource n x ys)

own_status :
    (x : CxiDeviceResource) (xs : List CxiDeviceResource)
    → status_of (find_resource x.name (x ∷ xs)) ≡ some x.status
own_status x xs = rw (eq_refl x.name) refl

other_status :
    (n : String) (s : CxiDeviceStatus) (x : CxiDeviceResource) (xs : List CxiDeviceResource)
    → str_eq n x.name ≡ false
    → status_of (find_resource n xs) ≡ some s
    → status_of (find_resource n (x ∷ xs)) ≡ some s
other_status n s x xs differ h = ground (arith, eq_iff x.name n, eq_iff n x.name)

version_unknown : (w : Machine) → (get_driver_version node_host w).0 ≡ "unknown"
unfolding get_driver_version
version_unknown w = refl

version_pure : (w : Machine) → (get_driver_version node_host w).1 ≡ w
unfolding get_driver_version
version_pure w = refl

node-PublishLaws : PublishLaws node_host node_client "unknown" NodeShows
node-PublishLaws = record {
  steady = version_unknown;
  read_version = λ n s w h. rw (version_pure w) h;
  get_device = λ n m s w h. h;
  found_name = λ n x w h. found_resource n x w.resources h;
  create_other = λ n s x differ w h. other_status n s x w.resources differ h;
  update_shows = λ x w h. own_status x w.resources;
  update_other = λ n s x differ w h. other_status n s x w.resources differ h;
  get_node = λ n m s w h. h;
  update_node = λ n s x w h. h;
}

-- The device that the node has
abbrev device : CxiDevice
device = record {
  name = "cxi0";
  device_path = "/dev/cxi0";
  pci_address = "0000:41:00.0";
  numa_node = negsuc 0;
  nid = invalid_nid;
  link_state = "unknown";
}

discovered : (discover_devices node_host machine).0 ≡ inr (device ∷ [])
unfolding discover_devices discover_device join_path
discovered = refl

update_devices-Published_example :
    Published node_host node_client config node-PublishLaws device
      (update_devices node_host node_client config new_agent machine).1
unfolding update_device update_all discover_devices discover_device
update_devices-Published_example =
    update_devices-Published node_host node_client config node-PublishLaws new_agent [] [] device
      machine discovered tt refl

-- A device that the node had before
abbrev had_cxi9 : Machine
had_cxi9 = record machine {
  resources = record { name = "node1-cxi9"; labels = []; status = empty_device_status } ∷ [];
}

gone_stays_example :
    NodeShows "node1-cxi9" empty_device_status
      (update_devices node_host node_client config new_agent had_cxi9).1
unfolding discover_devices discover_device join_path
gone_stays_example =
    gone_stays node_host node_client config node-PublishLaws "node1-cxi9" empty_device_status
      new_agent had_cxi9 (refl, tt) refl
