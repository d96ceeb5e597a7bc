-- ===== src/DevicePlugin/Allocate/Mounts.antt =====
-- What a container is given: its mounts and its environment.
use slingshot_operator.Prelude.{
  ◌≡◌, refl, ap, String, Bool, true, false, List, [], ◌∷◌, ◌++◌, Option, none, some, eq_iff,
  eq_refl, if◌then◌else◌, inl, inr, length, map, mem, mem-append, sym, ◌⊎◌, ltb, is_some,
  length-append, distinct, length-map, arith,
}
use mathlib.Core.List.{append_assoc, map-append}
use slingshot_operator.DevicePlugin.Prefer.Refinement.{keep}
use slingshot_operator.Prelude.Decimal.{itoa}
use slingshot_operator.Prelude.Dict.{lookup}
use slingshot_operator.DevicePlugin.Device.{CxiDevice}
use slingshot_operator.DevicePlugin.Plugin.{Plugin, sharing_mode_shared, sharing_mode_exclusive}
use slingshot_operator.DevicePlugin.Advertise.{build_device_list}
use slingshot_operator.DevicePlugin.Advertise.Ids.{ids, ids-exclusive}
use slingshot_operator.DevicePlugin.Allocate.{
  find_device, find_devices, devices_to_mount, device_spec, to_list, allocate_envs,
  allocate_container,
}

abbrev pub names : List CxiDevice → List String
names = map (λ d. d.name)

-- A device whose name does not occur before it is the one that is found.
find_device_middle :
    (xs ys : List CxiDevice) (d : CxiDevice)
    → mem d.name (names xs) ≡ false
    → find_device d.name (xs ++ d ∷ ys) ≡ some d
unfolding find_device mem
find_device_middle [] ys d h = rw (eq_refl d.name)
find_device_middle (x ∷ xs) ys d h = ground (arith, find_device_middle xs ys d)

distinct_middle :
    (xs ys : List String) (n : String) → distinct (xs ++ n ∷ ys) ≡ true → mem n xs ≡ false
unfolding distinct mem
distinct_middle [] ys n h = refl
distinct_middle (x ∷ xs) ys n h =
    ground (arith, distinct_middle xs ys n, mem-append x xs (n ∷ ys), eq_iff n x, eq_iff x n)

find_all :
    (xs ys : List CxiDevice)
    → distinct (names (xs ++ ys)) ≡ true
    → find_devices (names ys) (xs ++ ys) ≡ ys
unfolding find_devices
find_all xs [] h = refl
find_all xs (d ∷ ys) h =
    rw
      (find_device_middle xs ys d
        (distinct_middle (names xs) (names ys) d.name (rw map-append at h)))
      (ap (λ ds. d ∷ ds)
        (rw (sym (append_assoc xs (d ∷ []) ys))
          (find_all (xs ++ d ∷ []) ys (rw (append_assoc xs (d ∷ []) ys) h))))

-- A container that is allocated every advertised device is given every physical device, in order:
-- in exclusive mode if the devices have names of their own, in shared mode always.
pub allocate_all :
    (p : Plugin)
    → (p.config.sharing_mode ≡ sharing_mode_shared)
      ⊎ ((p.config.sharing_mode ≡ sharing_mode_exclusive) × (distinct (names p.devices) ≡ true))
    → (allocate_container p (ids (build_device_list p))).devices ≡ map device_spec p.devices
unfolding allocate_container build_device_list
allocate_all p (inl shared) = rw shared
allocate_all p (inr (exclusive, own)) =
    rw exclusive (rw (ids-exclusive p.devices) (ap (map device_spec) (find_all [] p.devices own)))

-- In exclusive mode a device before which no other has its name is allocated as itself: one mount,
-- of its own path, and an environment with the count 1 and its name.
pub allocate_one :
    (p : Plugin) (xs ys : List CxiDevice) (d : CxiDevice)
    → p.config.sharing_mode ≡ sharing_mode_exclusive
    → p.devices ≡ xs ++ d ∷ ys
    → mem d.name (names xs) ≡ false
    → allocate_container p (d.name ∷ []) ≡ record {
      devices = device_spec d ∷ [];
      envs = ("CXI_DEVICE_COUNT", "1") ∷ ("CXI_DEVICE", d.name) ∷ [];
    }
unfolding allocate_container itoa
allocate_one p xs ys d exclusive e own = rw (exclusive, e, find_device_middle xs ys d own)

count_env :
    (exclusive : Bool) (ds : List CxiDevice)
    → lookup "CXI_DEVICE_COUNT" (allocate_envs exclusive ds)
      ≡ (if ltb 0 (length ds) then some (itoa (length ds)) else none)
unfolding allocate_envs lookup
count_env exclusive [] = refl
count_env true (d ∷ []) = refl
count_env false (d ∷ []) = refl
count_env true (d ∷ e ∷ ds) = ground arith
count_env false (d ∷ e ∷ ds) = ground arith

find_device-is_some :
    (id : String) (ds : List CxiDevice) → is_some (find_device id ds) ≡ mem id (names ds)
unfolding find_device mem
find_device-is_some id [] = refl
find_device-is_some id (d ∷ ds) = ground (arith, find_device-is_some id ds)

length-to_list : (o : Option CxiDevice) → length (to_list o) ≡ (if is_some o then 1 else 0)
length-to_list none = refl
length-to_list (some d) = refl

length-find_devices :
    (ids : List String) (ds : List CxiDevice)
    → length (find_devices ids ds) ≡ length (keep (λ id. mem id (names ds)) ids)
unfolding find_devices keep
length-find_devices [] ds = refl
length-find_devices (id ∷ ids) ds = ground (
  arith,
  length-append (to_list (find_device id ds)) (find_devices ids ds),
  length-to_list (find_device id ds),
  find_device-is_some id ds,
  length-find_devices ids ds,
)

-- Of any request, in any mode: the count in the environment is the number of mounts, and it is left
-- out exactly when nothing is mounted.
pub allocate_count :
    (p : Plugin) (ids : List String)
    → let r = allocate_container p ids in
      lookup "CXI_DEVICE_COUNT" r.envs
      ≡ (if ltb 0 (length r.devices) then some (itoa (length r.devices)) else none)
unfolding allocate_container lookup
allocate_count p ids =
    rw (length-map device_spec (devices_to_mount p ids)) (count_env _ (devices_to_mount p ids))

-- In exclusive mode there are as many mounts as requested ids that some device has: an id that no
-- device has is dropped without an error.
pub allocate_known :
    (p : Plugin) (ids : List String)
    → p.config.sharing_mode ≡ sharing_mode_exclusive
    → length (allocate_container p ids).devices ≡ length (keep (λ id. mem id (names p.devices)) ids)
unfolding allocate_container
allocate_known p ids h =
    rw (length-map device_spec (devices_to_mount p ids))
      (unfold devices_to_mount in rw h (length-find_devices ids p.devices))
