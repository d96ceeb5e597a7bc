-- ===== src/Metrics/Scrape/Links.antt =====
-- The gauges of the links after a scrape.
use slingshot_operator.Prelude.{
  ◌≡◌, refl, ap, ◌∙◌, String, ◌&&◌, List, [], ◌∷◌, Option, some, ◌⊎◌, inl, inr, str_eq, eq_iff,
  if◌then◌else◌, length, Bool-cases,
}
use slingshot_operator.Prelude.Dict.{Dict, lookup, insert, lookup-insert}
use slingshot_operator.Prelude.Int.{ℤ}
use slingshot_operator.DevicePlugin.Device.{CxiDevice}
use slingshot_operator.Metrics.Scrape.{
  Gauges, series_of, set_gauge, gauge, link_value, record_device, record_devices, scrape_devices,
}

-- The value by the last of the devices with the name and the address, and `o` if there is none.
unfoldable pub last_link : List CxiDevice → String → String → Option ℤ → Option ℤ
last_link [] device pci o = o
last_link (d ∷ ds) device pci o =
    last_link ds device pci (
      if str_eq d.name device && str_eq d.pci_address pci
      then some (link_value d.link_state)
      else o)

gauge-set :
    (device pci d p : String) (value : ℤ) (m : Dict (Dict ℤ))
    → gauge d p (set_gauge device pci value m)
      ≡ (if str_eq device d && str_eq pci p then some value else gauge d p m)
unfolding gauge set_gauge
gauge-set device pci d p value m =
    let inner = insert pci value (series_of (lookup device m)) in
    elim (Bool-cases (str_eq device d)) [
      | inl e ↦ rw (lookup-insert device d inner m) (
          rw e (
            lookup-insert pci p value (series_of (lookup device m))
            ∙ ap
                (λ (name : String).
                  if str_eq pci p then some value else lookup p (series_of (lookup name m)))
                ((eq_iff device d).0 e)))
      | inr e ↦ rw (lookup-insert device d inner m) (rw e refl)
    ]

gauge-devices :
    (ds : List CxiDevice) (device pci : String) (g : Gauges)
    → gauge device pci (record_devices ds g).device_link_state
      ≡ last_link ds device pci (gauge device pci g.device_link_state)
unfolding record_devices record_device last_link
gauge-devices [] device pci g = refl
gauge-devices (d ∷ ds) device pci g =
    gauge-devices ds device pci (record_device d g)
    ∙ ap (last_link ds device pci)
        (gauge-set d.name d.pci_address device pci (link_value d.link_state) g.device_link_state)

-- The value after a scrape, by the answer of the discovery and the value before.
abbrev pub link_after : String ⊎ List CxiDevice → String → String → Option ℤ → Option ℤ
link_after (inl err) device pci o = o
link_after (inr ds) device pci o = last_link ds device pci o

-- After a scrape the gauge of a link has the value of the last device that was found with the name and
-- the address: 1 for up, 0 for down and -1 otherwise. It keeps its value if there is no such device,
-- or if the discovery failed.
pub links_exact :
    (r : String ⊎ List CxiDevice) (device pci : String) (g : Gauges)
    → gauge device pci (scrape_devices r g).device_link_state ≡ elim r [
      | inl _ ↦ gauge device pci g.device_link_state
      | inr ds ↦ last_link ds device pci (gauge device pci g.device_link_state)
    ]
unfolding scrape_devices
links_exact (inl err) device pci g = refl
links_exact (inr ds) device pci g =
    gauge-devices ds device pci (record g { device_count = some (length ds) })
