-- ===== src/DevicePlugin/Prefer.antt =====
-- pkg/deviceplugin/plugin.go: `selectPreferredDevices`, the choice of devices for a container by
-- NUMA node. The children prove what the choice is.
pub mod Refinement
pub mod Guarantees
use slingshot_operator.Prelude.{
  ℕ, zero, suc, String, Bool, true, false, List, [], ◌∷◌, ◌++◌, Option, none, some, leb, str_eq,
  if◌then◌else◌, length, take, mem,
}
use slingshot_operator.Prelude.Dict.{Dict, lookup, insert}
use slingshot_operator.Prelude.Int.{ℤ, pos, negsuc, int_eq, is_nonneg}
use slingshot_operator.DevicePlugin.Device.{CxiDevice}
use slingshot_operator.DevicePlugin.Plugin.{Plugin, sharing_mode_shared}

-- The loop of `buildNUMAMap` over the devices that are left.
numa_map_from : Dict ℤ → List CxiDevice → Dict ℤ
numa_map_from m [] = m
numa_map_from m (d ∷ ds) = numa_map_from (insert d.name d.numa_node m) ds

unfoldable pub build_numa_map : Plugin → Dict ℤ
unfolding numa_map_from
build_numa_map p = numa_map_from [] p.devices

-- Append ids until `result` has `count` of them: the loop over the devices of one kind.
pub fill : ℕ → List String → List String → List String
fill count result [] = result
fill count result (id ∷ ids) = elim (leb count (length result)) [
  | true ↦ result
  | false ↦ fill count (result ++ id ∷ []) ids
]

-- The same loop over the must-include devices, which also marks what it takes.
pub take_must : ℕ → List String → List String → List String → List String × List String
take_must count result selected [] = (result, selected)
take_must count result selected (id ∷ ids) = elim (leb count (length result)) [
  | true ↦ (result, selected)
  | false ↦ take_must count (result ++ id ∷ []) (id ∷ selected) ids
]

-- The first id whose NUMA node is known and not negative; -1 if there is none.
pub first_numa : Dict ℤ → List String → ℤ
first_numa m [] = negsuc 0
first_numa m (id ∷ ids) = elim (lookup id m) [
  | none ↦ first_numa m ids
  | some n ↦ let rest = first_numa m ids in if is_nonneg n then n else rest
]

-- `preferredNUMA`: from the must-include devices, else from the available ones.
unfoldable pub preferred_numa : Dict ℤ → List String → List String → ℤ
unfolding first_numa
preferred_numa m must available =
    let n = first_numa m must in if is_nonneg n then n else first_numa m available

-- `numaMap[id]`: 0 for an id that is not in the map.
unfoldable pub numa_of : Dict ℤ → String → ℤ
numa_of m id = elim (lookup id m) [ none ↦ pos 0 | some n ↦ n ]

-- The loop that separates the available devices, less those selected.
pub separate :
    Dict ℤ → ℤ → List String → List String → List String → List String → List String × List String
separate m pref selected same different [] = (same, different)
separate m pref selected same different (id ∷ ids) = elim (mem id selected) [
  | true ↦ separate m pref selected same different ids
  | false ↦ elim (int_eq (numa_of m id) pref) [
    | true ↦ separate m pref selected (same ++ id ∷ []) different ids
    | false ↦ separate m pref selected same (different ++ id ∷ []) ids
  ]
]

-- The part after the must-include loop.
pub complete : Dict ℤ → ℕ → List String → List String → List String → List String → List String
unfolding separate fill preferred_numa numa_of
complete m count result selected must available =
    let pref = preferred_numa m must available in
    let (same, different) = separate m pref selected [] [] available in
    fill count (fill count result same) different

pub select_exclusive : Dict ℤ → ℕ → List String → List String → List String
unfolding take_must complete
select_exclusive m count available must =
    let (result, selected) = take_must count [] [] must in
    if leb count (length result) then result else complete m count result selected must available

pub select_positive : Plugin → List String → List String → ℕ → List String
unfolding select_exclusive build_numa_map
select_positive p available must count =
    if str_eq p.config.sharing_mode sharing_mode_shared
    then (if leb (length available) count then available else take count available)
    else select_exclusive (build_numa_map p) count available must

-- nil and the empty slice are one list.
unfoldable pub select_preferred_devices : Plugin → List String → List String → ℤ → List String
unfolding select_positive
select_preferred_devices p available must (pos zero) = []
select_preferred_devices p available must (pos (suc n)) = select_positive p available must (suc n)
select_preferred_devices p available must (negsuc n) = []

pub record ContainerPreferredAllocationRequest : Type 0 where
  pub available_device_ids : List String
  pub must_include_device_ids : List String
  pub allocation_size : ℤ

-- `GetPreferredAllocation`: one answer for each container request, in order.
unfoldable pub get_preferred_allocation :
    Plugin → List ContainerPreferredAllocationRequest → List (List String)
unfolding select_preferred_devices
get_preferred_allocation p [] = []
get_preferred_allocation p (r ∷ rs) =
    select_preferred_devices p r.available_device_ids r.must_include_device_ids r.allocation_size
    ∷ get_preferred_allocation p rs
