-- ===== src/DevicePlugin/Discovery/Watch.antt =====
-- pkg/deviceplugin/discovery.go: the loop of `WatchDevices` once the directory is watched, and
-- `pollDevices`. Of a timer it matters whether it will fire; the scheduler, the kernel and the clock
-- choose the next input. The end by the closed channel is left out.
use slingshot_operator.Prelude.{
  ℕ, ◌≡◌, refl, ap, String, Bool, true, false, not, ◌&&◌, ◌||◌, List, [], ◌∷◌, ◌⊎◌, inl, inr, ◌==◌,
  if◌then◌else◌, length, starts_with, arith,
}
use slingshot_operator.Prelude.FilePath.{base}
use slingshot_operator.DevicePlugin.Device.{CxiDevice}

-- Whether an update is pending and the timer will fire, and the lists that were sent, the last first.
pub record Watch : Type 0 where
  pub pending_update : Bool
  pub armed : Bool
  pub sent : List (List CxiDevice)

-- What the loop selects: an event with whether it creates or removes the path, an error of the
-- watcher, and the timer with the answer of the discovery.
pub data Input : Type 0 where
  event : Bool → String → Input
  watcher_error : Input
  timer : String ⊎ List CxiDevice → Input

-- Does the event tell of a device that came or went?
unfoldable pub is_change : Bool → String → Bool
unfolding base
is_change op path = op && starts_with (base path) "cxi"

unfoldable pub on_event : Bool → String → Watch → Watch
unfolding is_change
on_event op path w =
    if is_change op path && not w.pending_update
    then record { pending_update = true; armed = true; sent = w.sent }
    else w

abbrev send : String ⊎ List CxiDevice → List (List CxiDevice) → List (List CxiDevice)
send (inl err) sent = sent
send (inr devices) sent = devices ∷ sent

unfoldable pub on_timer : String ⊎ List CxiDevice → Watch → Watch
on_timer r w = record { pending_update = false; armed = false; sent = send r w.sent }

-- The runs of the loop, by their inputs, the last first, from the first list that is sent. The timer
-- was stopped before the loop, and fires once for each time that it was set.
pub data WatchRun (first : List CxiDevice) : List Input → Watch → Type 0 where
  begun : WatchRun first [] (record { pending_update = false; armed = false; sent = first ∷ [] })
  saw_event :
      (op : Bool) (path : String) (inputs : List Input) (w : Watch)
      → WatchRun first inputs w
      → WatchRun first (event op path ∷ inputs) (on_event op path w)
  saw_error :
      (inputs : List Input) (w : Watch)
      → WatchRun first inputs w
      → WatchRun first (watcher_error ∷ inputs) w
  fired :
      (r : String ⊎ List CxiDevice) (inputs : List Input) (w : Watch)
      → w.armed ≡ true
      → WatchRun first inputs w
      → WatchRun first (timer r ∷ inputs) (on_timer r w)

-- Has a device come or gone since a list was sent last?
unfoldable pub is_unsent : List Input → Bool
unfolding is_change
is_unsent [] = false
is_unsent (event op path ∷ inputs) = if is_change op path then true else is_unsent inputs
is_unsent (watcher_error ∷ inputs) = is_unsent inputs
is_unsent (timer (inl err) ∷ inputs) = is_unsent inputs
is_unsent (timer (inr devices) ∷ inputs) = false

-- Did the discovery fail with a change unsent, after which no list was sent?
unfoldable pub is_lost : List Input → Bool
unfolding is_unsent
is_lost [] = false
is_lost (event op path ∷ inputs) = is_lost inputs
is_lost (watcher_error ∷ inputs) = is_lost inputs
is_lost (timer (inl err) ∷ inputs) = is_unsent inputs
is_lost (timer (inr devices) ∷ inputs) = false

-- The lists that the discovery answered to the timer, the last one first, and the first list before
-- them.
unfoldable pub answered : List CxiDevice → List Input → List (List CxiDevice)
answered first [] = first ∷ []
answered first (event op path ∷ inputs) = answered first inputs
answered first (watcher_error ∷ inputs) = answered first inputs
answered first (timer (inl err) ∷ inputs) = answered first inputs
answered first (timer (inr devices) ∷ inputs) = devices ∷ answered first inputs

-- In every run of the loop a device has come or gone since a list was sent last exactly if the timer
-- is set to fire, or a discovery failed with the change unsent: only a discovery that fails drops a
-- change. An update is pending exactly if the timer is set, and what was sent is the first list and
-- what the discovery answered.
pub WatchRun-armed :
    (first : List CxiDevice) (inputs : List Input) (w : Watch)
    → WatchRun first inputs w
    → (is_unsent inputs ≡ (w.armed || is_lost inputs))
      × (w.pending_update ≡ w.armed)
      × (w.sent ≡ answered first inputs)
unfolding is_unsent is_lost answered on_event on_timer
WatchRun-armed first _ _ begun = (refl, refl, refl)
WatchRun-armed first _ _ (saw_event op path inputs w run) =
    let (a, p, s) = WatchRun-armed first inputs w run in
    (ground (arith, a, p), ground (arith, p), ground (arith, s))
WatchRun-armed first _ _ (saw_error inputs w run) = WatchRun-armed first inputs w run
WatchRun-armed first _ _ (fired (inl err) inputs w e run) =
    let (a, p, s) = WatchRun-armed first inputs w run in (refl, refl, s)
WatchRun-armed first _ _ (fired (inr devices) inputs w e run) =
    let (a, p, s) = WatchRun-armed first inputs w run in
    (refl, refl, ap (λ (ls : List (List CxiDevice)). devices ∷ ls) s)

-- pollDevices, by the answers of the discovery: a list is sent when its length is not that of the last
-- list that was sent.
unfoldable pub poll_devices : ℕ → List (String ⊎ List CxiDevice) → List (List CxiDevice)
poll_devices last [] = []
poll_devices last (inl err ∷ rs) = poll_devices last rs
poll_devices last (inr devices ∷ rs) = elim (length devices == last) [
  | true ↦ poll_devices last rs
  | false ↦ devices ∷ poll_devices (length devices) rs
]
