-- ===== src/DriverAgent/Watch.antt =====
-- pkg/driveragent/agent.go: `Start` whole, the loop of `runDeviceWatcher` and `Stop`. The clock and the
-- scheduler choose the next step, and between two steps anyone may change the node and the cluster.
-- Only the loop writes the agent's state after `Start`, so an update is one step.
pub mod Told
use Prim.Native.String.{◌++◌ as cat}
use slingshot_operator.Prelude.{◌≡◌, String, Bool, true, false, List, [], ◌∷◌, none, some, ◌⊎◌}
use slingshot_operator.Prelude.Action.{Action, Error, pure, ◌>>=◌}
use slingshot_operator.Kube.NodeClient.{NodeClient}
use slingshot_operator.Host.{Host}
use slingshot_operator.DevicePlugin.Device.{CxiDevice}
use slingshot_operator.DevicePlugin.Discovery.{discover_devices}
use slingshot_operator.DriverAgent.Agent.{Config, Agent, new_config, new_agent}
use slingshot_operator.DriverAgent.Install.{start_agent}
use slingshot_operator.DriverAgent.Devices.{update_devices}

-- `Start`, by the answers of rest.InClusterConfig and client.New
unfoldable pub start_with_client :
    {W : Type 0} → Host W → Config → (in_cluster new_client : Error) → Action W (Error × Agent)
unfolding start_agent
start_with_client host config (some err) new_client =
    pure (some (cat "failed to get in-cluster config: " err), new_agent)
start_with_client host config none (some err) =
    pure (some (cat "failed to create client: " err), new_agent)
start_with_client host config none none = start_agent host config >>= λ a. pure (none, a)

-- The agent and the world after `Start`
abbrev pub launched : {W : Type 0} → (Error × Agent) × W → Agent × W
launched ((err, a), w) = (a, w)

-- Where the loop is: in `updateDevices`, in the `select`, or ended.
pub data WatcherPhase : Type 0 where
  updating : WatcherPhase
  selecting : WatcherPhase
  ended : WatcherPhase

pub record Watcher (W : Type 0) : Type 0 where
  pub agent : Agent
  pub world : W
  pub phase : WatcherPhase
  pub stopped : Bool

abbrev pub watcher_of : {W : Type 0} → Agent × W → Watcher W
watcher_of (a, w) = record { agent = a; world = w; phase = updating; stopped = false }

abbrev pub after_update : {W : Type 0} → Watcher W → Agent × W → Watcher W
after_update r (a, w) = record r { agent = a; world = w; phase = selecting }

module _ {W : Type 0} (host : Host W) (c : NodeClient W) (config : Config) where
  -- The runs of the loop, by the answers of the discovery, the last first, from what `Start` left.
  pub data WatcherRun (first : Agent × W)
      : List (String ⊎ List CxiDevice) → Watcher W → Type 0 where
    begun : WatcherRun first [] (watcher_of first)
    updated :
        (answers : List (String ⊎ List CxiDevice)) (r : Watcher W)
        → r.phase ≡ updating
        → WatcherRun first answers r
        → WatcherRun first
            ((discover_devices host r.world).0 ∷ answers)
            (after_update r (update_devices host c (new_config config) r.agent r.world))
    ticked :
        (answers : List (String ⊎ List CxiDevice)) (r : Watcher W)
        → r.phase ≡ selecting
        → WatcherRun first answers r
        → WatcherRun first answers (record r { phase = updating })
    left :
        (answers : List (String ⊎ List CxiDevice)) (r : Watcher W)
        → r.phase ≡ selecting
        → r.stopped ≡ true
        → WatcherRun first answers r
        → WatcherRun first answers (record r { phase = ended })
    closed :
        (answers : List (String ⊎ List CxiDevice)) (r : Watcher W)
        → r.stopped ≡ false
        → WatcherRun first answers r
        → WatcherRun first answers (record r { stopped = true })
    changed :
        (answers : List (String ⊎ List CxiDevice)) (r : Watcher W) (w : W)
        → WatcherRun first answers r
        → WatcherRun first answers (record r { world = w })
