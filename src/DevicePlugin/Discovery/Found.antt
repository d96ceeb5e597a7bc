-- ===== src/DevicePlugin/Discovery/Found.antt =====
-- Which devices `DiscoverDevices` finds.
use Prim.Native.String.{◌++◌ as cat}
use text.Mathlib.TextEquality.{starts_with_iff}
use slingshot_operator.Prelude.{
  ◌≡◌, refl, sym, ap, All, str_eq, eq_iff, String, Bool, true, false, ◌&&◌, ◌||◌, starts_with,
  arith, List, [], ◌∷◌, false, ◌⊎◌, inl, inr, Bool-cases,
}
use slingshot_operator.Prelude.FilePath.{join_path}
use slingshot_operator.Host.{DirEntry, Host}
use slingshot_operator.DevicePlugin.Device.{CxiDevice}
use slingshot_operator.DevicePlugin.Discovery.DevPath.{has_separator, join_dev}
use slingshot_operator.DevicePlugin.Discovery.{
  sys_class_cxi, is_device_entry, discover_device, discover_entries, discover_devices,
}

-- A directory or a symbolic link whose name is cxi with any text behind it.
abbrev pub IsDevice : DirEntry → Type 0
IsDevice e =
    ((e.is_dir ≡ true) ⊎ (e.is_symlink ≡ true)) × ((rest : String) × (e.name ≡ cat "cxi" rest))

-- The devices of a directory, in its order: one for each entry that is a device.
pub data Found : List DirEntry → List CxiDevice → Type 0 where
  none_left : Found [] []
  device :
      {e : DirEntry} {es : List DirEntry} {d : CxiDevice} {ds : List CxiDevice}
      → IsDevice e
      → d.name ≡ e.name
      → d.device_path ≡ cat "/dev/" e.name
      → Found es ds
      → Found (e ∷ es) (d ∷ ds)
  other :
      {e : DirEntry} {es : List DirEntry} {ds : List CxiDevice}
      → ¬ IsDevice e
      → Found es ds
      → Found (e ∷ es) ds

and_parts : (a b : Bool) → (a && b) ≡ true → (a ≡ true) × (b ≡ true)
and_parts true true h = (refl, refl)
and_parts true false h = cc
and_parts false b h = cc

or_parts : (a b : Bool) → (a || b) ≡ true → (a ≡ true) ⊎ (b ≡ true)
or_parts true b h = inl refl
or_parts false true h = inr refl
or_parts false false h = cc

entry-IsDevice : (e : DirEntry) → is_device_entry e ≡ true → IsDevice e
entry-IsDevice e h =
    let (kind, start) = and_parts (e.is_dir || e.is_symlink) (starts_with e.name "cxi") h in
    let (rest, same) = (starts_with_iff e.name "cxi").0 start in
    (or_parts e.is_dir e.is_symlink kind, (rest, sym same))

entry_other : (e : DirEntry) → is_device_entry e ≡ false → ¬ IsDevice e
entry_other e h (kind, (rest, same)) =
    let start = (starts_with_iff e.name "cxi").1 (rest, sym same) in
    elim kind [ inl d ↦ ground (arith, h, start, d) | inr l ↦ ground (arith, h, start, l) ]

other_text :
    (name text : String)
    → starts_with name "cxi" ≡ true
    → starts_with text "cxi" ≡ false
    → str_eq name text ≡ false
other_text name text t f = elim (Bool-cases (str_eq name text)) [
  | inl e ↦ cc ((eq_iff name text).0 e, t, f)
  | inr d ↦ d
]

device_path_of :
    (e : DirEntry)
    → is_device_entry e ≡ true
    → has_separator e.name ≡ false
    → join_path "/dev" e.name ≡ cat "/dev/" e.name
device_path_of e h one =
    let start = (and_parts (e.is_dir || e.is_symlink) (starts_with e.name "cxi") h).1 in
    join_dev e.name one (other_text e.name "" start refl) (other_text e.name "." start refl)
      (other_text e.name ".." start refl)

module _ {W : Type 0} (host : Host W) where
  entries-Found :
      (es : List DirEntry) (w : W)
      → All (λ (e : DirEntry). has_separator e.name ≡ false) es
      → Found es (discover_entries host es w).0
  unfolding discover_entries discover_device
  entries-Found [] w names = none_left
  entries-Found (e ∷ es) w (name, names) = elim (Bool-cases (is_device_entry e)) [
    | inl t ↦
        rw (t, discover_entries)
          (device (entry-IsDevice e t) refl (device_path_of e t name)
            (entries-Found es (discover_device host e.name w).1 names))
    | inr f ↦ rw (f, discover_entries) (other (entry_other e f) (entries-Found es w names))
  ]

  discover_read :
      (w : W) (entries : List DirEntry)
      → (host.read_dir sys_class_cxi w).0 ≡ inr entries
      → discover_devices host w ≡ (
        inr (discover_entries host entries (host.read_dir sys_class_cxi w).1).0,
        (discover_entries host entries (host.read_dir sys_class_cxi w).1).1,
      )
  unfolding discover_devices
  discover_read w entries h = rw (h, discover_devices) refl

  -- If /sys/class/cxi can be read, and the names of its entries have no separator, as the names of
  -- files have none, devices are found, whatever else fails: one for each directory or symbolic link
  -- in it whose name begins with cxi, in its order, with that name and the path of that name in /dev;
  -- and no other.
  pub discover_found :
      (w : W) (entries : List DirEntry)
      → (host.read_dir sys_class_cxi w).0 ≡ inr entries
      → All (λ (e : DirEntry). has_separator e.name ≡ false) entries
      → (ds : List CxiDevice) × ((discover_devices host w).0 ≡ inr ds) × Found entries ds
  discover_found w entries h names =
      let w' = (host.read_dir sys_class_cxi w).1 in
      (
        (discover_entries host entries w').0,
        ap (λ (r : (String ⊎ List CxiDevice) × W). r.0) (discover_read w entries h),
        entries-Found entries w' names,
      )
