-- ===== src/DriverAgent/Devices/Gone.antt =====
-- What becomes of the resource of a device that is gone.
use slingshot_operator.Prelude.{
  ◌≡◌, String, false, List, [], ◌∷◌, ◌⊎◌, inl, inr, All, str_eq, Sum-cases, arith,
}
use slingshot_operator.Api.Device.{CxiDeviceStatus}
use slingshot_operator.Kube.Frame.{Keeps}
use slingshot_operator.Kube.NodeClient.{NodeClient}
use slingshot_operator.Host.{Host}
use slingshot_operator.DevicePlugin.Device.{CxiDevice}
use slingshot_operator.DevicePlugin.Discovery.{discover_devices}
use slingshot_operator.DriverAgent.Agent.{Config, Agent}
use slingshot_operator.DriverAgent.Devices.{device_name, update_device, update_all, update_devices}
use slingshot_operator.DriverAgent.Devices.Published.{PublishLaws, update-Keeps, labels-Keeps}

-- The discovery failed, or found no device whose resource has the name.
abbrev pub IsGone : Config → String → String ⊎ List CxiDevice → Type 0
IsGone config n (inl err) = Unit {0}
IsGone config n (inr devices) =
    All (λ (x : CxiDevice). str_eq n (device_name config x) ≡ false) devices

module _ {W : Type 0} (host : Host W) (c : NodeClient W) (config : Config) {version : String}
    {Shows : String → CxiDeviceStatus → W → Type 0} (laws : PublishLaws host c version Shows) where
  All-Keeps :
      (n : String) (s : CxiDeviceStatus) (devices : List CxiDevice)
      → All (λ (x : CxiDevice). str_eq n (device_name config x) ≡ false) devices
      → Keeps (Shows n s) (update_all host c config devices)
  unfolding update_all
  All-Keeps n s [] gone w h = h
  All-Keeps n s (x ∷ xs) (differ, gone) w h =
      All-Keeps n s xs gone (update_device host c config x w).1
        (update-Keeps host c config laws n s x differ w h)

  -- Under the laws of the client, an update leaves the resource of a device that was not found as it
  -- is: it goes on to show the status that was published last.
  pub gone_stays :
      (n : String) (s : CxiDeviceStatus) (a : Agent) (w : W)
      → IsGone config n (discover_devices host w).0
      → Shows n s (discover_devices host w).1
      → Shows n s (update_devices host c config a w).1
  unfolding update_devices
  gone_stays n s a w gone h =
      let w1 = (discover_devices host w).1 in
      elim (Sum-cases (discover_devices host w).0) [
        | inl (err, e) ↦ ground (arith, e, h)
        | inr (devices, e) ↦
            let kept = All-Keeps n s devices (rw e at gone) w1 h in
            let w2 = (update_all host c config devices w1).1 in
            ground (arith, e, kept, labels-Keeps host c config laws n s devices w2 kept)
      ]
