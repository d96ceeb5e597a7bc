-- ===== src/DriverAgent/Watch/Told.antt =====
-- What the agent tells while it runs: the installation of the driver and the answers of the discovery
-- alone decide its state.
use Prim.Native.String.{◌++◌ as cat}
use slingshot_operator.Prelude.{
  ℕ, ◌≡◌, refl, ap, ◌∙◌, String, true, false, List, [], ◌∷◌, none, some, ◌⊎◌, inl, inr, arith,
}
use slingshot_operator.Prelude.Action.{Error, some_not_none}
use slingshot_operator.Kube.NodeClient.{NodeClient}
use slingshot_operator.Host.{Host}
use slingshot_operator.DevicePlugin.Device.{CxiDevice}
use slingshot_operator.DevicePlugin.Discovery.{discover_devices}
use slingshot_operator.DriverAgent.Agent.{
  Config, Agent, new_config, new_agent, readyz, set_error, set_driver_ready,
}
use slingshot_operator.DriverAgent.Install.{ensure_driver, recorded, start_agent}
use slingshot_operator.DriverAgent.Install.Ways.{ModuleLaws, Outcome}
use slingshot_operator.DriverAgent.Install.Ready.{module_of, ensure-Installs}
use slingshot_operator.DriverAgent.Devices.{update_devices}
use slingshot_operator.DriverAgent.Watch.{
  start_with_client, launched, Watcher, WatcherRun, begun, updated, ticked, left, closed, changed,
}

abbrev Answers : Type 0
Answers = List (String ⊎ List CxiDevice)

-- The devices of the last discovery that succeeded
unfoldable pub last_found : Answers → List CxiDevice
last_found [] = []
last_found (inl err ∷ answers) = last_found answers
last_found (inr devices ∷ answers) = devices

-- The error of the last discovery that failed, or the given text if none has
unfoldable pub last_failure : String → Answers → String
last_failure err [] = err
last_failure err (inl e ∷ answers) = e
last_failure err (inr devices ∷ answers) = last_failure err answers

-- The agent, by the error of the installation and the answers of the discovery
unfoldable pub told : Error → Answers → Agent
unfolding last_found last_failure
told none answers = record {
  driver_ready = true;
  last_error = last_failure "" answers;
  devices = last_found answers;
}
told (some err) answers = record {
  driver_ready = false;
  last_error = last_failure err answers;
  devices = last_found answers;
}

-- What /readyz answers
unfoldable pub ready_page : Error → Answers → ℕ × String
unfolding last_failure
ready_page none answers = (200, "ready\n")
ready_page (some err) answers = (503, cat "not ready: " (cat (last_failure err answers) "\n"))

readyz-told : (e : Error) (answers : Answers) → readyz (told e answers) ≡ ready_page e answers
unfolding readyz told ready_page
readyz-told none answers = refl
readyz-told (some err) answers = refl

told-failed :
    (e : Error) (err : String) (answers : Answers)
    → set_error (some err) (told e answers) ≡ told e (inl err ∷ answers)
unfolding told set_error
told-failed none err answers = refl
told-failed (some x) err answers = refl

told-found :
    (e : Error) (devices : List CxiDevice) (answers : Answers)
    → record (told e answers) { devices = devices } ≡ told e (inr devices ∷ answers)
unfolding told
told-found none devices answers = refl
told-found (some x) devices answers = refl

-- The state of the agent after an update
abbrev heard : Agent → String ⊎ List CxiDevice → Agent
heard a (inl err) = set_error (some err) a
heard a (inr devices) = record a { devices = devices }

heard-told :
    (e : Error) (answer : String ⊎ List CxiDevice) (answers : Answers)
    → heard (told e answers) answer ≡ told e (answer ∷ answers)
heard-told e (inl err) answers = told-failed e err answers
heard-told e (inr devices) answers = told-found e devices answers

module _ {W : Type 0} (host : Host W) where
  no_laws : ModuleLaws host (λ name w. Unit)
  no_laws = record {
    load = λ name w h. tt;
    keep = λ name other w h. tt;
    listed = λ name text w h k. tt;
  }

  recorded-told :
      (name : String) (r : Error × (Agent × W))
      → Outcome host (λ name w. Unit) no_laws name new_agent r
      → (recorded r).0 ≡ told r.0 []
  unfolding recorded set_error set_driver_ready told
  recorded-told name (none, (a, w)) (e, l) = e
  recorded-told name (some err, (a, w)) e = ap (set_error (some err)) e

  update-heard :
      (c : NodeClient W) (config : Config) (a : Agent) (w : W)
      → (update_devices host c config a w).0 ≡ heard a (discover_devices host w).0
  unfolding update_devices
  update-heard c config a w = ground arith

  first_told :
      (config : Config) (w : W)
      → (start_agent host config w).0
        ≡ told (ensure_driver host (new_config config) (new_agent, w)).0 []
  unfolding start_agent
  first_told config w =
      recorded-told (module_of (new_config config))
        (ensure_driver host (new_config config) (new_agent, w))
        (ensure-Installs host (λ name w. Unit) no_laws (new_config config) new_agent w)

  -- Starting fails exactly if the client cannot be made, and the installation has no part in that.
  start_succeeds :
      (config : Config) (in_cluster new_client : Error) (w : W)
      → (start_with_client host config in_cluster new_client w).0.0 ≡ none
      → launched (start_with_client host config in_cluster new_client w) ≡ start_agent host config w
  unfolding start_with_client
  start_succeeds config none none w h = refl
  start_succeeds config none (some err) w h = absurd (some_not_none _ h)
  start_succeeds config (some err) client w h = absurd (some_not_none _ h)

  module _ (c : NodeClient W) (config : Config) where
    run-told :
        (e : Error) (first : Agent × W) (answers : Answers) (r : Watcher W)
        → first.0 ≡ told e []
        → WatcherRun host c config first answers r
        → r.agent ≡ told e answers
    run-told e first _ _ h begun = h
    run-told e first _ _ h (updated answers r p run) =
        update-heard c (new_config config) r.agent r.world
        ∙ ap (λ (a : Agent). heard a (discover_devices host r.world).0)
            (run-told e first answers r h run)
        ∙ heard-told e (discover_devices host r.world).0 answers
    run-told e first _ _ h (ticked answers r p run) = run-told e first answers r h run
    run-told e first _ _ h (left answers r p q run) = run-told e first answers r h run
    run-told e first _ _ h (closed answers r p run) = run-told e first answers r h run
    run-told e first _ _ h (changed answers r w run) = run-told e first answers r h run

    -- In every run of an agent whose `Start` succeeded, whatever happens to the node and the cluster in
    -- between, its state is decided by the error of the installation and the answers of the discovery:
    -- it is ready exactly if the installation succeeded, its devices are those that were found last, and
    -- its last error is that of the last discovery that failed, even if later ones succeeded, or else
    -- that of the installation. So /readyz keeps its status code: the installation is not tried again.
    pub watcher_told :
        (in_cluster new_client : Error) (w : W) (answers : Answers) (r : Watcher W)
        → (start_with_client host config in_cluster new_client w).0.0 ≡ none
        → WatcherRun host c config
            (launched (start_with_client host config in_cluster new_client w))
            answers
            r
        → let e = (ensure_driver host (new_config config) (new_agent, w)).0 in
          (r.agent ≡ told e answers) × (readyz r.agent ≡ ready_page e answers)
    watcher_told in_cluster new_client w answers r ok run =
        let e = (ensure_driver host (new_config config) (new_agent, w)).0 in
        let started =
          ap (λ (s : Agent × W). s.0) (start_succeeds config in_cluster new_client w ok) in
        let state : r.agent ≡ told e answers =
          run-told e _ answers r (started ∙ first_told config w) run in
        (state, ap readyz state ∙ readyz-told e answers)
