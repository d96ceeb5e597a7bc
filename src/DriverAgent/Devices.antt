-- ===== src/DriverAgent/Devices.antt =====
-- pkg/driveragent/agent.go: `updateDevices`, `updateCXIDeviceStatus`, `updateNodeLabels` and
-- `getDriverVersion`.
pub mod Settle
pub mod Described
pub mod Published
pub mod Gone
use Prim.Native.String.{◌++◌ as cat}
use slingshot_operator.Prelude.{
  ℕ, String, Bool, true, false, not, ◌||◌, List, [], ◌∷◌, Option, none, some, ◌⊎◌, inl, inr, ◌==◌,
  str_eq, if◌then◌else◌,
}
use slingshot_operator.Prelude.Text.{trim_space}
use slingshot_operator.Prelude.Action.{Action, Error, pure, check, check_value, ◌>>=◌, ◌>>◌}
use slingshot_operator.Prelude.Int.{ℤ, pos, negsuc, to_int32}
use slingshot_operator.Api.Device.{
  CxiDeviceStatus, CxiDeviceResource, cxi_device_type_pf, link_state_up, link_state_down,
  link_state_unknown, health_status_healthy, health_status_unhealthy, health_status_unknown,
  no_retry_status, empty_device_status,
}
use slingshot_operator.Kube.Client.{found, not_found, failed}
use slingshot_operator.Kube.NodeClient.{Node, NodeClient}
use slingshot_operator.Host.{Host}
use slingshot_operator.DevicePlugin.Device.{CxiDevice, switch_id, invalid_nid}
use slingshot_operator.DevicePlugin.Discovery.{discover_devices}
use slingshot_operator.DriverAgent.Agent.{Config, Agent, set_error}
use slingshot_operator.DriverAgent.Labels.{LabelUpdate, label_node}

-- The driver writes 1 for a link that is up and 0 for one that is down.
unfoldable pub link_state_of : String → String
link_state_of state =
    if str_eq state "1" || str_eq state "up"
    then link_state_up
    else if str_eq state "0" || str_eq state "down"
    then link_state_down
    else link_state_unknown

unfoldable pub health_of : String → String
health_of link_state =
    if str_eq link_state link_state_down
    then health_status_unhealthy
    else if str_eq link_state link_state_unknown
    then health_status_unknown
    else health_status_healthy

-- The status of a device, under the given version of the driver.
unfoldable pub device_status : Config → String → CxiDevice → CxiDeviceStatus
unfolding link_state_of health_of switch_id to_int32
device_status config version dev =
    let link_state = link_state_of dev.link_state in
    record {
      node = config.node_name;
      device = dev.name;
      device_type = cxi_device_type_pf;
      pci_address = dev.pci_address;
      numa_node = to_int32 dev.numa_node;
      nid = dev.nid;
      switch_id =
          if not (dev.nid == invalid_nid)
          then to_int32 (switch_id dev config.switch_id_mask)
          else negsuc 0;
      link_speed = "";
      link_state = link_state;
      driver_version = version;
      cassini_generation = pos 0;
      retry_handler = no_retry_status;
      health = record { status = health_of link_state; message = "" };
      conditions = [];
    }

abbrev pub device_name : Config → CxiDevice → String
device_name config dev = cat config.node_name (cat "-" dev.name)

abbrev pub new_device : Config → CxiDevice → CxiDeviceResource
new_device config dev = record {
  name = device_name config dev;
  labels =
      ("slingshot.hpe.com/node", config.node_name) ∷ ("slingshot.hpe.com/device", dev.name) ∷ [];
  status = empty_device_status;
}

module _ {W : Type 0} (host : Host W) where
  unfoldable pub get_driver_version : Action W String
  get_driver_version = do
    r ← host.read_file "/sys/module/cxi_ss1/version"
    pure (elim r [ inl _ ↦ "unknown" | inr text ↦ text ])

module _ {W : Type 0} (host : Host W) (c : NodeClient W) (config : Config) where
  -- The status of the resource is written anew.
  pub publish : CxiDevice → CxiDeviceResource → Action W Error
  unfolding device_status trim_space get_driver_version
  publish dev existing = do
    version ← get_driver_version host
    check "failed to update CXIDevice status: "
        (c.update_cxi_device_status
          (record existing { status = device_status config (trim_space version) dev }))
        (pure none)

  unfoldable pub update_device : CxiDevice → Action W Error
  unfolding publish
  update_device dev = do
    r ← c.get_cxi_device (device_name config dev)
    elim r [
      | failed err ↦ pure (some (cat "failed to get CXIDevice: " err))
      | found existing ↦ publish dev existing
      | not_found ↦
          let fresh = new_device config dev in
          check "failed to create CXIDevice: " (c.create_cxi_device fresh) (publish dev fresh)
    ]

  unfoldable pub write_labels : List CxiDevice → Node → Action W Error
  unfolding label_node
  write_labels devices node =
      let update = label_node config.switch_id_mask devices node.labels in
      if not update.changed
      then pure none
      else check "failed to update node labels: "
          (c.update_node (record node { labels = update.labels })) (pure none)

  unfoldable pub update_node_labels : List CxiDevice → Action W Error
  unfolding write_labels
  update_node_labels devices =
      check_value "failed to get node: " (c.get_node config.node_name) (write_labels devices)

  -- Errors of single devices are logged and left.
  unfoldable pub update_all : List CxiDevice → Action W Unit
  unfolding update_device
  update_all [] = pure tt
  update_all (dev ∷ devs) = do _ ← update_device dev; update_all devs

  -- The agent and the world around it.
  unfoldable pub update_devices : Agent → Action W Agent
  unfolding discover_devices set_error update_all update_node_labels
  update_devices a = do
    r ← discover_devices host
    elim r [
      | inl err ↦ pure (set_error (some err) a)
      | inr devices ↦ (do
        _ ← update_all devices
        _ ← if config.disable_labeling then pure none else update_node_labels devices
        pure (record a { devices = devices }))
    ]
