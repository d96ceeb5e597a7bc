-- ===== src/DriverAgent/Devices/Described.antt =====
-- What a CXIDevice resource is to show of a device, and that `updateCXIDeviceStatus` writes it.
use Prim.Native.Nat.{bit_and}
use slingshot_operator.Prelude.{
  ℕ, ◌≡◌, ◌≢◌, refl, String, false, ◌⊎◌, inl, inr, str_eq, eq_iff, ◌==◌, Bool-cases, arith,
}
use slingshot_operator.Prelude.Text.{trim_space}
use slingshot_operator.Prelude.Int.{ℤ, pos, negsuc, to_int32}
use slingshot_operator.Api.Device.{CxiDeviceStatus}
use slingshot_operator.DevicePlugin.Device.{CxiDevice, switch_id}
use slingshot_operator.DriverAgent.Agent.{Config}
use slingshot_operator.DriverAgent.Devices.{link_state_of, health_of, device_status}

-- What the resource shows of the link and its health: the driver writes 1 or up for a link that is up,
-- and 0 or down for one that is down.
abbrev pub ShowsLink : (state link health : String) → Type 0
ShowsLink state link health =
    (((state ≡ "1") ⊎ (state ≡ "up")) × (link ≡ "up") × (health ≡ "Healthy"))
    ⊎ ((((state ≡ "0") ⊎ (state ≡ "down")) × (link ≡ "down") × (health ≡ "Unhealthy"))
        ⊎ ((state ≢ "1")
            × (state ≢ "up")
            × (state ≢ "0")
            × (state ≢ "down")
            × (link ≡ "unknown")
            × (health ≡ "Unknown")))

-- The masked NID, and -1 where the NID is not known.
abbrev pub ShowsSwitch : (mask nid : ℕ) → ℤ → Type 0
ShowsSwitch mask nid id =
    ((nid ≡ 4294967295) × (id ≡ negsuc 0))
    ⊎ ((nid ≢ 4294967295) × (id ≡ to_int32 (pos (bit_and nid mask))))

-- What a status says of a device on a node, with the text of the driver's version.
pub record Describes (node : String) (mask : ℕ) (version : String) (dev : CxiDevice)
    (s : CxiDeviceStatus) : Type 0 where
  pub node_shown : s.node ≡ node
  pub name_shown : s.device ≡ dev.name
  pub type_shown : s.device_type ≡ "pf"
  pub address_shown : s.pci_address ≡ dev.pci_address
  pub numa_shown : s.numa_node ≡ to_int32 dev.numa_node
  pub nid_shown : s.nid ≡ dev.nid
  pub switch_shown : ShowsSwitch mask dev.nid s.switch_id
  pub link_shown : ShowsLink dev.link_state s.link_state s.health.status
  pub version_shown : s.driver_version ≡ trim_space version

str_ne : (s t : String) → str_eq s t ≡ false → s ≢ t
str_ne s t h p = cc ((eq_iff s t).1 p, h)

link_shows :
    (state : String) → ShowsLink state (link_state_of state) (health_of (link_state_of state))
unfolding link_state_of health_of
link_shows state = elim (Bool-cases (str_eq state "1")) [
  | inl e ↦ inl (inl ((eq_iff state "1").0 e), rw e refl, rw e refl)
  | inr one ↦ elim (Bool-cases (str_eq state "up")) [
    | inl e ↦ inl (inr ((eq_iff state "up").0 e), rw (one) (rw e refl), rw (one) (rw e refl))
    | inr up ↦ elim (Bool-cases (str_eq state "0")) [
      | inl e ↦ inr (
          inl (
            inl ((eq_iff state "0").0 e),
            rw (one) (rw (up) (rw e refl)),
            rw (one) (rw (up) (rw e refl)),
          ))
      | inr nought ↦ elim (Bool-cases (str_eq state "down")) [
        | inl e ↦ inr (
            inl (
              inr ((eq_iff state "down").0 e),
              rw (one) (rw (up) (rw (nought) (rw e refl))),
              rw (one) (rw (up) (rw (nought) (rw e refl))),
            ))
        | inr down ↦ inr (
            inr (
              str_ne state "1" one,
              str_ne state "up" up,
              str_ne state "0" nought,
              str_ne state "down" down,
              rw (one) (rw (up) (rw (nought) (rw (down) refl))),
              rw (one) (rw (up) (rw (nought) (rw (down) refl))),
            ))
      ]
    ]
  ]
]

switch_shows :
    (config : Config) (dev : CxiDevice)
    → ShowsSwitch config.switch_id_mask dev.nid (device_status config "" dev).switch_id
unfolding device_status switch_id
switch_shows config dev = elim (Bool-cases (dev.nid == 4294967295)) [
  | inl e ↦ inl (ground arith, rw e refl)
  | inr e ↦ inr ((λ p. ground arith), rw e refl)
]

pub status-Describes :
    (config : Config) (version : String) (dev : CxiDevice)
    → Describes config.node_name config.switch_id_mask version dev
        (device_status config (trim_space version) dev)
unfolding device_status
status-Describes config version dev = record {
  node_shown = refl;
  name_shown = refl;
  type_shown = refl;
  address_shown = refl;
  numa_shown = refl;
  nid_shown = refl;
  switch_shown = switch_shows config dev;
  link_shown = link_shows dev.link_state;
  version_shown = refl;
}
