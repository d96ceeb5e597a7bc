-- ===== src/Tests/Watcher.antt =====
-- The loop of the driver agent at a concrete input: the installation fails, and the device is found.
use slingshot_operator.Prelude.{◌≡◌, refl, String, true, List, [], ◌∷◌, none, some, ◌⊎◌}
use slingshot_operator.DevicePlugin.Device.{CxiDevice}
use slingshot_operator.DevicePlugin.Discovery.{discover_devices}
use slingshot_operator.DriverAgent.Agent.{Config, Agent, readyz, new_config}
use slingshot_operator.DriverAgent.Devices.{update_devices}
use slingshot_operator.DriverAgent.Watch.{
  start_with_client, launched, Watcher, watcher_of, after_update, updating, ended, WatcherRun,
  begun, updated, ticked, left, closed, changed,
}
use slingshot_operator.DriverAgent.Watch.Told.{told, ready_page, watcher_told}
use slingshot_operator.Tests.Machine.{Machine, node_host, node_client}
use slingshot_operator.Tests.Agent.{config, machine}

abbrev no_url : Config
no_url = record config { prebuilt_url = "" }

abbrev first : Agent × Machine
first = launched (start_with_client node_host no_url none none machine)

abbrev once : Watcher Machine
once =
    after_update (watcher_of first)
      (update_devices node_host node_client (new_config no_url) first.0 first.1)

-- cxi is loaded by hand, and another update begins when `Stop` is called.
abbrev by_hand : Watcher Machine
by_hand = record once { world = machine; phase = updating; stopped = true }

abbrev twice : Watcher Machine
twice =
    after_update by_hand
      (update_devices node_host node_client (new_config no_url) by_hand.agent by_hand.world)

abbrev answers : List (String ⊎ List CxiDevice)
answers = (discover_devices node_host machine).0 ∷ (discover_devices node_host first.1).0 ∷ []

twice-WatcherRun :
    WatcherRun node_host node_client no_url first answers (record twice { phase = ended })
twice-WatcherRun = left _ _ refl refl (
    updated _ by_hand refl (
      changed _ (record once { phase = updating; stopped = true }) machine
        (closed _ (record once { phase = updating }) refl
          (ticked _ once refl (updated [] (watcher_of first) refl begun)))))

watcher_told_example :
    (twice.agent ≡ told (some "prebuilt URL not configured") answers)
    × (readyz twice.agent ≡ ready_page (some "prebuilt URL not configured") answers)
unfolding start_with_client
watcher_told_example =
    watcher_told node_host node_client no_url none none machine answers
      (record twice { phase = ended }) refl twice-WatcherRun
