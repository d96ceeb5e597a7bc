-- ===== src/DevicePlugin/Discovery/Begin.antt =====
-- pkg/deviceplugin/discovery.go: how `WatchDevices` begins, up to its loop or to `pollDevices`, and what
-- the listener of a node that is polled comes to know. That `stopCh` is closed while the first list
-- waits for its receiver is left out.
use Prim.Native.String.{◌++◌ as cat}
use slingshot_operator.Prelude.{
  ℕ, ◌≡◌, refl, String, Bool, true, false, List, [], ◌∷◌, none, some, ◌⊎◌, inl, inr, length,
  if◌then◌else◌, arith,
}
use slingshot_operator.Prelude.Action.{Action, Error, pure, ◌>>=◌}
use slingshot_operator.Host.{FileError, FileInfo, Host}
use slingshot_operator.DevicePlugin.Device.{CxiDevice}
use slingshot_operator.DevicePlugin.Discovery.{sys_class_cxi, discover_devices}
use slingshot_operator.DevicePlugin.Discovery.Watch.{poll_devices}

-- The channel of the updates is closed, or the loop or `pollDevices` begins.
pub data WatchMode : Type 0 where
  ended : WatchMode
  polling : WatchMode
  watching : WatchMode

abbrev is_missing : FileError ⊎ FileInfo → Bool
is_missing (inl err) = err.not_exist
is_missing (inr info) = false

module _ {W : Type 0} (host : Host W) (add : String → Action W Error) where
  -- `add` is watcher.Add.
  unfoldable pub watch_directory : Action W WatchMode
  watch_directory = do
    r ← host.stat sys_class_cxi
    if is_missing r
        then pure polling
        else add sys_class_cxi >>= λ err. pure (elim err [ none ↦ watching | some _ ↦ polling ])

  -- By the answer of fsnotify.NewWatcher: the error, or how it goes on and the lists that were sent
  unfoldable pub watch_devices :
      (new_watcher : Error) → Action W (String ⊎ (WatchMode × List (List CxiDevice)))
  unfolding discover_devices watch_directory
  watch_devices (some err) = pure (inl (cat "failed to create fsnotify watcher: " err))
  watch_devices none = discover_devices host >>= λ r. elim r [
    | inl err ↦ pure (inr (ended, []))
    | inr devices ↦ watch_directory >>= λ mode. pure (inr (mode, devices ∷ []))
  ]

-- The list that was sent last, and the one that was found last
abbrev pub last_sent : List CxiDevice → List (List CxiDevice) → List CxiDevice
last_sent devices [] = devices
last_sent devices (d ∷ ds) = last_sent d ds

abbrev pub last_found : List CxiDevice → List (String ⊎ List CxiDevice) → List CxiDevice
last_found devices [] = devices
last_found devices (inl err ∷ rs) = last_found devices rs
last_found devices (inr d ∷ rs) = last_found d rs

-- Did a poll find a device?
abbrev pub has_found : List (String ⊎ List CxiDevice) → Bool
has_found [] = false
has_found (inl err ∷ rs) = has_found rs
has_found (inr [] ∷ rs) = has_found rs
has_found (inr (d ∷ ds) ∷ rs) = true

-- From a count on that the listener knows, it knows the count.
poll_follows :
    (n : ℕ) (known found : List CxiDevice) (rs : List (String ⊎ List CxiDevice))
    → length known ≡ n
    → length found ≡ n
    → length (last_sent known (poll_devices n rs)) ≡ length (last_found found rs)
unfolding poll_devices
poll_follows n known found [] k f = omega (arith, k, f)
poll_follows n known found (inl err ∷ rs) k f = poll_follows n known found rs k f
poll_follows n known found (inr ds ∷ rs) k f =
    ground (arith, poll_follows n known ds rs k, poll_follows (length ds) ds ds rs refl refl)

-- A node that is polled: the listener knows the number of the devices that the last discovery
-- found, as soon as a poll has found one. Until then it goes on with the first list, which may hold
-- devices that are gone.
pub polled_count :
    (first : List CxiDevice) (rs : List (String ⊎ List CxiDevice))
    → length (last_sent first (poll_devices 0 rs))
      ≡ (if has_found rs then length (last_found [] rs) else length first)
unfolding poll_devices
polled_count first [] = refl
polled_count first (inl err ∷ rs) = polled_count first rs
polled_count first (inr [] ∷ rs) = polled_count first rs
polled_count first (inr (d ∷ ds) ∷ rs) =
    ground (arith, poll_follows (length (d ∷ ds)) (d ∷ ds) (d ∷ ds) rs refl refl)
