-- ===== src/DevicePlugin/Advertise.antt =====
-- pkg/deviceplugin/plugin.go: `buildDeviceList` and the stream of `ListAndWatch`. The child proves
-- what kubelet sees.
pub mod Ids
use Prim.Native.String.{◌++◌ as cat}
use slingshot_operator.Prelude.{
  ℕ, zero, suc, String, Bool, true, false, not, ◌&&◌, List, [], ◌∷◌, ◌++◌, Option, none, some,
  str_eq, if◌then◌else◌, map, ◌+◌,
}
use slingshot_operator.Prelude.Decimal.{itoa}
use slingshot_operator.Prelude.Int.{ℤ, int_eq, is_nonneg, rounds}
use slingshot_operator.Prelude.Action.{Action, Error, pure, ◌>>=◌}
use slingshot_operator.DevicePlugin.Device.{CxiDevice}
use slingshot_operator.DevicePlugin.Plugin.{Plugin, sharing_mode_shared, sharing_mode_exclusive}

-- `pluginapi.Device`: the topology is the list of its NUMA nodes, none for nil.
pub record Device : Type 0 where
  pub id : String
  pub health : String
  pub topology : Option (List ℤ)

abbrev pub healthy : String
healthy = "Healthy"

-- One device of exclusive mode.
unfoldable pub exclusive_device : CxiDevice → Device
exclusive_device d = record {
  id = d.name;
  health = healthy;
  topology = if is_nonneg d.numa_node then some (d.numa_node ∷ []) else none;
}

-- `seen[n]`
pub mem_int : ℤ → List ℤ → Bool
mem_int n [] = false
mem_int n (x ∷ xs) = elim (int_eq x n) [ true ↦ true | false ↦ mem_int n xs ]

-- The loop that collects the NUMA nodes; what was seen is what was collected.
pub numa_nodes : List ℤ → List CxiDevice → List ℤ
unfolding mem_int
numa_nodes nodes [] = nodes
numa_nodes nodes (d ∷ ds) =
    numa_nodes
      (if is_nonneg d.numa_node && not (mem_int d.numa_node nodes)
        then nodes ++ d.numa_node ∷ []
        else nodes)
      ds

pub shared_topology : List CxiDevice → Option (List ℤ)
unfolding numa_nodes
shared_topology ds = elim (numa_nodes [] ds) [ [] ↦ none | n ∷ ns ↦ some (n ∷ ns) ]

pub shared_id : ℕ → String
shared_id i = cat "shared-" (itoa i)

-- The loop over `i`, with the rounds that are left.
pub shared_devices : List CxiDevice → ℕ → ℕ → List Device
unfolding shared_topology shared_id
shared_devices ds i zero = []
shared_devices ds i (suc n) =
    record { id = shared_id i; health = healthy; topology = shared_topology ds }
    ∷ shared_devices ds (i + 1) n

unfoldable pub build_device_list : Plugin → List Device
unfolding exclusive_device shared_devices
build_device_list p =
    if str_eq p.config.sharing_mode sharing_mode_exclusive
    then map exclusive_device p.devices
    else if str_eq p.config.sharing_mode sharing_mode_shared
    then shared_devices p.devices 0 (rounds p.config.shared_capacity)
    else []

-- What the loop of `ListAndWatch` waits for: the closed `stopCh`, or a device on `health`.
pub data WatchEvent : Type 0 where
  stop : WatchEvent
  health_update : String → String → WatchEvent

-- The health of the devices with the id of the event.
unfoldable pub apply_health : String → String → List Device → List Device
apply_health id health [] = []
apply_health id health (d ∷ ds) =
    (if str_eq d.id id then record d { health = health } else d) ∷ apply_health id health ds

module _ {W : Type 0} (send : List Device → Action W Error) where
  -- The loop, by the events: none while it waits, or what `ListAndWatch` returns. `send` is stream.Send;
  -- its error ends the loop.
  unfoldable pub watch : Plugin → List WatchEvent → Action W (Option Error)
  unfolding apply_health build_device_list
  watch p [] = pure none
  watch p (stop ∷ es) = pure (some none)
  watch p (health_update id health ∷ es) =
      send (apply_health id health (build_device_list p)) >>= λ err. elim err [
        | none ↦ watch p es
        | some e ↦ pure (some (some e))
      ]

  unfoldable pub list_and_watch : Plugin → List WatchEvent → Action W (Option Error)
  unfolding watch build_device_list
  list_and_watch p es = send (build_device_list p) >>= λ err. elim err [
    | none ↦ watch p es
    | some e ↦ pure (some (some e))
  ]
