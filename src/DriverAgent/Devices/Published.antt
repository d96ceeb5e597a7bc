-- ===== src/DriverAgent/Devices/Published.antt =====
-- What the CXIDevice resources say after the agent has looked at the devices.
use Prim.Native.String.{◌++◌ as cat}
use slingshot_operator.Prelude.{
  ◌≡◌, refl, String, false, List, [], ◌∷◌, ◌++◌, none, inl, inr, All, str_eq, arith,
}
use slingshot_operator.Prelude.Text.{trim_space, append_ne}
use slingshot_operator.Prelude.Action.{check_after}
use slingshot_operator.Api.Device.{CxiDeviceStatus, CxiDeviceResource}
use slingshot_operator.Kube.Client.{Fetch-cases, found}
use slingshot_operator.Kube.Frame.{Keeps}
use slingshot_operator.Kube.NodeClient.{Node, NodeClient}
use slingshot_operator.Host.{Host}
use slingshot_operator.DevicePlugin.Device.{CxiDevice}
use slingshot_operator.DevicePlugin.Discovery.{discover_devices}
use slingshot_operator.DriverAgent.Agent.{Config, Agent}
use slingshot_operator.DriverAgent.Labels.{label_node}
use slingshot_operator.DriverAgent.Devices.Described.{Describes, status-Describes}
use slingshot_operator.DriverAgent.Devices.{
  device_status, device_name, new_device, get_driver_version, publish, update_device, write_labels,
  update_node_labels, update_all, update_devices,
}

-- `Shows` tells that the resource of a name has a status. No one else writes to the resources, and
-- the version of the module is `version` all the time.
pub record PublishLaws {W : Type 0} (host : Host W) (c : NodeClient W) (version : String)
    (Shows : String → CxiDeviceStatus → W → Type 0) : Type 0 where
  pub steady : (w : W) → (get_driver_version host w).0 ≡ version
  pub read_version :
      (n : String) (s : CxiDeviceStatus) → Keeps (Shows n s) (get_driver_version host)
  pub get_device : (n m : String) (s : CxiDeviceStatus) → Keeps (Shows n s) (c.get_cxi_device m)
  pub found_name :
      (n : String) (x : CxiDeviceResource) (w : W) → (c.get_cxi_device n w).0 ≡ found x → x.name ≡ n
  pub create_other :
      (n : String) (s : CxiDeviceStatus) (x : CxiDeviceResource)
      → str_eq n x.name ≡ false
      → Keeps (Shows n s) (c.create_cxi_device x)
  pub update_shows :
      (x : CxiDeviceResource) (w : W)
      → (c.update_cxi_device_status x w).0 ≡ none
      → Shows x.name x.status (c.update_cxi_device_status x w).1
  pub update_other :
      (n : String) (s : CxiDeviceStatus) (x : CxiDeviceResource)
      → str_eq n x.name ≡ false
      → Keeps (Shows n s) (c.update_cxi_device_status x)
  pub get_node : (n m : String) (s : CxiDeviceStatus) → Keeps (Shows n s) (c.get_node m)
  pub update_node :
      (n : String) (s : CxiDeviceStatus) (x : Node) → Keeps (Shows n s) (c.update_node x)

module _ {W : Type 0} (host : Host W) (c : NodeClient W) (config : Config) {version : String}
    {Shows : String → CxiDeviceStatus → W → Type 0} (laws : PublishLaws host c version Shows) where
  -- The resource of a device has the status that the agent makes of it.
  abbrev Written : CxiDevice → W → Type 0
  Written dev = Shows (device_name config dev) (device_status config (trim_space version) dev)

  publish-Shows :
      (dev : CxiDevice) (x : CxiDeviceResource) (w : W)
      → (publish host c config dev x w).0 ≡ none
      → Shows x.name
          (device_status config (trim_space version) dev)
          (publish host c config dev x w).1
  unfolding publish
  publish-Shows dev x w h =
      let w' = (get_driver_version host w).1 in
      let x' = record x { status = device_status config (trim_space version) dev } in
      ground (arith, laws.steady w, laws.update_shows x' w')

  publish-Keeps :
      (n : String) (s : CxiDeviceStatus) (dev : CxiDevice) (x : CxiDeviceResource)
      → str_eq n x.name ≡ false
      → Keeps (Shows n s) (publish host c config dev x)
  unfolding publish
  publish-Keeps n s dev x differ w h =
      let (v, w') = get_driver_version host w in
      let x' = record x { status = device_status config (trim_space v) dev } in
      ground (arith, laws.update_other n s x' differ w' (laws.read_version n s w h))

  -- The update of a device that succeeded
  update-Written :
      (dev : CxiDevice) (w : W)
      → (update_device host c config dev w).0 ≡ none
      → Written dev (update_device host c config dev w).1
  unfolding update_device
  update-Written dev w h =
      let w' = (c.get_cxi_device (device_name config dev) w).1 in
      let fresh = new_device config dev in
      elim (Fetch-cases (c.get_cxi_device (device_name config dev) w).0) [
        | inl e ↦
            let k =
              check_after (Written dev) "failed to create CXIDevice: " (c.create_cxi_device fresh)
                (publish host c config dev fresh) (publish-Shows dev fresh) w' in
            ground (arith, e, k)
        | inr (inl (m, e)) ↦ ground (arith, e)
        | inr (inr (old, e)) ↦
            let named = laws.found_name (device_name config dev) old w e in
            ground (arith, e, named, publish-Shows dev old w')
      ]

  pub update-Keeps :
      (n : String) (s : CxiDeviceStatus) (dev : CxiDevice)
      → str_eq n (device_name config dev) ≡ false
      → Keeps (Shows n s) (update_device host c config dev)
  unfolding update_device
  update-Keeps n s dev differ w h =
      let w' = (c.get_cxi_device (device_name config dev) w).1 in
      let h' = laws.get_device n (device_name config dev) s w h in
      let fresh = new_device config dev in
      elim (Fetch-cases (c.get_cxi_device (device_name config dev) w).0) [
        | inl e ↦
            let made = laws.create_other n s fresh differ w' h' in
            let w'' = (c.create_cxi_device fresh w').1 in
            ground (arith, e, made, publish-Keeps n s dev fresh differ w'' made)
        | inr (inl (m, e)) ↦ ground (arith, e, h')
        | inr (inr (old, e)) ↦
            let named = laws.found_name (device_name config dev) old w e in
            ground (arith, e, publish-Keeps n s dev old (rw named differ) w' h')
      ]

  update_all-Keeps :
      (dev : CxiDevice) (devs : List CxiDevice)
      → All (λ (x : CxiDevice). str_eq dev.name x.name ≡ false) devs
      → Keeps (Written dev) (update_all host c config devs)
  unfolding update_all
  update_all-Keeps dev [] differ w h = h
  update_all-Keeps dev (x ∷ xs) (differ, more) w h =
      let names =
        append_ne config.node_name (cat "-" dev.name) (cat "-" x.name)
          (append_ne "-" dev.name x.name differ) in
      update_all-Keeps dev xs more (update_device host c config x w).1
        (update-Keeps _ _ x names w h)

  update_all-append :
      (xs ys : List CxiDevice) (w : W)
      → update_all host c config (xs ++ ys) w
        ≡ update_all host c config ys (update_all host c config xs w).1
  unfolding update_all
  update_all-append [] ys w = refl
  update_all-append (x ∷ xs) ys w = update_all-append xs ys (update_device host c config x w).1

  write-Keeps :
      (n : String) (s : CxiDeviceStatus) (devs : List CxiDevice) (node : Node)
      → Keeps (Shows n s) (write_labels host c config devs node)
  unfolding write_labels
  write-Keeps n s devs node w h =
      let update = label_node config.switch_id_mask devs node.labels in
      ground (arith, h, laws.update_node n s (record node { labels = update.labels }) w h)

  pub labels-Keeps :
      (n : String) (s : CxiDeviceStatus) (devs : List CxiDevice)
      → Keeps (Shows n s) (update_node_labels host c config devs)
  unfolding update_node_labels
  labels-Keeps n s devs w h = grind (arith, laws.get_node, write-Keeps)

  -- The resource of a device, named for the node and the device, shows the device.
  abbrev pub Published : CxiDevice → W → Type 0
  Published dev w =
      (s : CxiDeviceStatus) × Shows (cat config.node_name (cat "-" dev.name)) s w
      × Describes config.node_name config.switch_id_mask version dev s

  -- Under the laws of the client, after the agent has looked at the devices the resource of a device
  -- that was found shows the device, if its own update returned no error: its node, name, address,
  -- NUMA node and NID, the masked NID as the switch or -1 for a NID that is not known, the link and
  -- the health by the state that the driver wrote, and the driver's version. The errors of other
  -- devices and of the labels do not matter. The devices after it have other names.
  pub update_devices-Published :
      (a : Agent) (before after : List CxiDevice) (dev : CxiDevice) (w : W)
      → (discover_devices host w).0 ≡ inr (before ++ dev ∷ after)
      → All (λ (x : CxiDevice). str_eq dev.name x.name ≡ false) after
      → let w' = (update_all host c config before (discover_devices host w).1).1 in
        (update_device host c config dev w').0 ≡ none
        → Published dev (update_devices host c config a w).1
  unfolding update_devices
  update_devices-Published a before after dev w e differ ok =
      let w1 = (discover_devices host w).1 in
      let devs = before ++ dev ∷ after in
      let w' = (update_all host c config before w1).1 in
      let kept =
        update_all-Keeps dev after differ (update_device host c config dev w').1
          (update-Written dev w' ok) in
      let updated : Written dev (update_all host c config devs w1).1 =
        rw (update_all-append before (dev ∷ after) w1) kept in
      let labelled = labels-Keeps _ _ devs (update_all host c config devs w1).1 updated in
      let written : Written dev (update_devices host c config a w).1 =
        ground (arith, e, updated, labelled) in
      (device_status config (trim_space version) dev, written, status-Describes config version dev)
