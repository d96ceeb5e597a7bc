-- ===== src/Tests/Allocation.antt =====
-- The device plugin at concrete inputs.
use slingshot_operator.DevicePlugin.Prefer.Guarantees.{select_fills}
use slingshot_operator.Prelude.{
  ◌+◌, min, not, ◌≡◌, refl, String, true, none, some, List, [], ◌∷◌, inr, length, map, mem, take,
  distinct,
}
use slingshot_operator.Prelude.Dict.{lookup, insert}
use slingshot_operator.Prelude.Int.{ℤ, pos}
use slingshot_operator.DevicePlugin.Device.{CxiDevice}
use slingshot_operator.DevicePlugin.Plugin.{Plugin}
use slingshot_operator.DevicePlugin.Advertise.{
  Device, build_device_list, apply_health, list_and_watch, WatchEvent, health_update, stop,
}
use slingshot_operator.DevicePlugin.Advertise.Ids.{ids}
use slingshot_operator.Prelude.Action.{Action, Error}
use slingshot_operator.DevicePlugin.Allocate.{allocate_container, device_spec}
use slingshot_operator.DevicePlugin.Allocate.Mounts.{allocate_all}
use slingshot_operator.DevicePlugin.Prefer.{select_preferred_devices, build_numa_map}
use slingshot_operator.DevicePlugin.Prefer.Refinement.{keep, preference, select-eq-take}

abbrev cxi : String → String → ℤ → CxiDevice
cxi name path node = record {
  name = name;
  device_path = path;
  pci_address = "0000:41:00.0";
  numa_node = node;
  nid = 0x12345;
  link_state = "1";
}

abbrev three : List CxiDevice
three =
    cxi "cxi0" "/dev/cxi0" (pos 0)
    ∷ cxi "cxi1" "/dev/cxi1" (pos 1)
    ∷ cxi "cxi2" "/dev/cxi2" (pos 1)
    ∷ []

abbrev plugin : String → ℤ → Plugin
plugin mode capacity = record {
  config = record {
    resource_name = "hpe.com/cxi";
    sharing_mode = mode;
    shared_capacity = capacity;
    health_port = pos 8082;
  };
  devices = three;
  ready = true;
}

abbrev exclusive : Plugin
exclusive = plugin "exclusive" (pos 100)

abbrev shared : Plugin
shared = plugin "shared" (pos 5)

abbrev all_ids : List String
all_ids = "cxi0" ∷ "cxi1" ∷ "cxi2" ∷ []

-- Two devices beside `cxi1`: the one on its node comes first.
prefers_node :
    select_preferred_devices exclusive all_ids ("cxi1" ∷ []) (pos 2) ≡ "cxi1" ∷ "cxi2" ∷ []
unfolding select_preferred_devices lookup insert mem
prefers_node = refl

select-eq-take_example :
    select_preferred_devices exclusive all_ids ("cxi1" ∷ []) (pos 2)
    ≡ take 2 (preference (build_numa_map exclusive) all_ids ("cxi1" ∷ []))
select-eq-take_example = select-eq-take exclusive all_ids ("cxi1" ∷ []) 2 refl

select_fills_example :
    length (select_preferred_devices exclusive all_ids ("cxi1" ∷ []) (pos 9))
    ≡ min 9 (1 + length (keep (λ id. not (mem id ("cxi1" ∷ []))) all_ids))
select_fills_example = select_fills exclusive all_ids ("cxi1" ∷ []) refl 9

-- A stream that keeps the responses, and takes at most two of them.
abbrev two_at_most : List Device → Action (List (List Device)) Error
two_at_most r [] = (none, r ∷ [])
two_at_most r (a ∷ []) = (none, r ∷ a ∷ [])
two_at_most r (a ∷ b ∷ sent) = (some "closed", a ∷ b ∷ sent)

abbrev unhealthy : String → WatchEvent
unhealthy id = health_update id "Unhealthy"

-- The third response is refused, which ends the stream.
stream_test :
    list_and_watch two_at_most exclusive
      (unhealthy "cxi0" ∷ unhealthy "cxi1" ∷ unhealthy "cxi2" ∷ stop ∷ [])
      []
    ≡ (
      some (some "closed"),
      apply_health "cxi0" "Unhealthy" (build_device_list exclusive)
          ∷ build_device_list exclusive
          ∷ [],
    )
unfolding list_and_watch
stream_test = refl

allocate_all_example :
    (allocate_container exclusive (ids (build_device_list exclusive))).devices
    ≡ map device_spec three
unfolding distinct mem
allocate_all_example = allocate_all exclusive (inr (refl, refl))
