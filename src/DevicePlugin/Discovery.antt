-- ===== src/DevicePlugin/Discovery.antt =====
-- pkg/deviceplugin/discovery.go: `DiscoverDevices`, `discoverDevice` and `parseNID`. The children have
-- `WatchDevices` and `pollDevices`, and prove which devices are found.
pub mod DevPath
pub mod Found
pub mod Watch
pub mod Begin
use Prim.Native.String.{◌++◌ as cat}
use slingshot_operator.Prelude.{
  ℕ, String, Bool, true, false, not, ◌&&◌, ◌||◌, List, [], ◌∷◌, ◌++◌, Option, none, some, ◌⊎◌, inl,
  inr, if◌then◌else◌, starts_with,
}
use slingshot_operator.Prelude.Int.{ℤ, negsuc}
use slingshot_operator.Prelude.Text.{trim_space}
use slingshot_operator.Prelude.FilePath.{join_path, base}
use slingshot_operator.Prelude.Decimal.Parse.{parse_uint, atoi}
use slingshot_operator.Prelude.Action.{Action, pure, ◌>>=◌}
use slingshot_operator.Host.{FileError, DirEntry, Host}
use slingshot_operator.DevicePlugin.Device.{CxiDevice, invalid_nid}

abbrev pub sys_class_cxi : String
sys_class_cxi = "/sys/class/cxi"

-- s[2:]
abbrev drop_two : String → String
drop_two (String.◌∷◌ a (String.◌∷◌ b s)) = s
drop_two _ = ""

-- What is answered beside an error is looked at by no caller.
unfoldable pub parse_nid : String → Option ℕ
unfolding trim_space parse_uint
parse_nid text =
    let s = trim_space text in
    if starts_with s "0x" || starts_with s "0X"
    then parse_uint 16 32 (drop_two s)
    else parse_uint 10 32 s

-- A file's text, if it was read, and what is made of it.
abbrev with_file : {A : Type 0} → FileError ⊎ String → A → (String → A) → A
with_file (inl err) otherwise use_text = otherwise
with_file (inr text) otherwise use_text = use_text text

abbrev or_else : {A : Type 0} → Option A → A → A
or_else none a = a
or_else (some a) _ = a

-- A directory or a symbolic link whose name begins with cxi.
abbrev pub is_device_entry : DirEntry → Bool
is_device_entry e = (e.is_dir || e.is_symlink) && starts_with e.name "cxi"

module _ {W : Type 0} (host : Host W) where
  -- The error is nil on every path and is left out.
  unfoldable pub discover_device : String → Action W CxiDevice
  unfolding parse_nid trim_space atoi base join_path
  discover_device name =
      let sys_path = join_path sys_class_cxi name in
      let device_dir = join_path sys_path "device" in
      let properties = join_path device_dir "properties" in
      do
        link ← host.read_link device_dir
        numa ← host.read_file (join_path device_dir "numa_node")
        nid ← host.read_file (join_path properties "nid")
        state ← host.read_file (join_path properties "link")
        pure (record {
          name = name;
          device_path = join_path "/dev" name;
          pci_address = with_file link "" base;
          numa_node = with_file numa (negsuc 0) (λ s. or_else (atoi (trim_space s)) (negsuc 0));
          nid = with_file nid invalid_nid (λ s. or_else (parse_nid (trim_space s)) invalid_nid);
          link_state = with_file state "unknown" trim_space;
        })

  discover_entries : List DirEntry → Action W (List CxiDevice)
  discover_entries [] = pure []
  discover_entries (e ∷ es) = elim (is_device_entry e) [
    | true ↦ (do d ← discover_device e.name; ds ← discover_entries es; pure (d ∷ ds))
    | false ↦ discover_entries es
  ]

  -- The devices, or the text of an error. A missing directory means that there is no device.
  unfoldable pub discover_devices : Action W (String ⊎ List CxiDevice)
  unfolding discover_entries
  discover_devices = do
    r ← host.read_dir sys_class_cxi
    elim r [
      | inl err ↦
          pure
            (if err.not_exist then inr [] else inl (cat "failed to read /sys/class/cxi: " err.text))
      | inr entries ↦ (do ds ← discover_entries entries; pure (inr ds))
    ]
