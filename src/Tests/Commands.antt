-- ===== src/Tests/Commands.antt =====
-- The main programs with the containers that the operator and the webhook make, and the watch of the
-- devices.
use slingshot_operator.Prelude.{
  ℕ, ◌≡◌, refl, String, true, false, ◌||◌, List, [], ◌∷◌, Option, none, some, inl, inr, length,
  arith,
}
use slingshot_operator.Prelude.Dict.{get}
use slingshot_operator.Prelude.Int.{pos}
use slingshot_operator.DevicePlugin.Device.{CxiDevice}
use slingshot_operator.DevicePlugin.Discovery.Watch.{
  Watch, Input, event, timer, on_event, on_timer, begun, saw_event, fired, is_unsent, is_lost,
  answered, poll_devices, WatchRun-armed,
}
use slingshot_operator.DevicePlugin.Discovery.Begin.{
  polling, watch_directory, last_sent, polled_count,
}
use slingshot_operator.Tests.Machine.{node_host}
use slingshot_operator.Tests.Agent.{machine}
use slingshot_operator.Prelude.Action.{pure}
use slingshot_operator.Webhook.Injector.{SidecarInjectorConfig, build_sidecar_container}
use slingshot_operator.Controller.DaemonSets.RetryHandler.{retry_handler_container}
use slingshot_operator.Controller.DaemonSets.MetricsExporter.{
  metrics_port, metrics_exporter_container,
}
use slingshot_operator.Cmd.RetryHandler.{single_mode, retry_handler_main}
use slingshot_operator.Cmd.MetricsExporter.{metrics_exporter_main}
use slingshot_operator.Cmd.Deployed.{sidecar_starts}
use slingshot_operator.Config.Env.{get_env, get_env_bool}
use slingshot_operator.Webhook.Setup.{cxi_driver_validator}
use slingshot_operator.Cmd.Operator.{operator_main}
use slingshot_operator.Cmd.Operator.Chart.{chart_args, webhook_server, chart_webhooks}
use slingshot_operator.Cmd.Exporter.{exporter_url, exporter_starts, started}
use slingshot_operator.Tests.Reconciler.{driver}

abbrev no_duration : String → Option ℕ
no_duration s = none

abbrev config : SidecarInjectorConfig
config = record {
  use_native_sidecar = true;
  resource_name = "hpe.com/cxi";
  cxi_rh_path = "/opt/cxi_rh";
  retry_handler_image = "";
}

sidecar_starts_example :
    retry_handler_main no_duration (build_sidecar_container config ("cxi0" ∷ [])).args
    ≡ inr (single_mode "cxi0" "/opt/cxi_rh")
sidecar_starts_example = sidecar_starts no_duration config ("cxi0" ∷ [])

exporter_starts_example :
    metrics_exporter_main no_duration
      (inl "")
      (("NODE_NAME", "node1") ∷ [])
      (metrics_exporter_container (driver "a")).args
    ≡ inr (started "node1" 9090 "http://localhost:8080")
unfolding get metrics_port exporter_url
exporter_starts_example =
    exporter_starts no_duration (inl "") (("NODE_NAME", "node1") ∷ []) (driver "a") 9090 refl
      (omega arith) refl

-- The container of the retry handler exits with status 2: the flag --discover is not declared.
retry_handler_test :
    retry_handler_main no_duration (retry_handler_container (driver "a")).args ≡ inl 2
unfolding retry_handler_main retry_handler_container
retry_handler_test = refl

abbrev one : CxiDevice
one = record {
  name = "cxi0";
  device_path = "";
  pci_address = "";
  numa_node = pos 0;
  nid = 0;
  link_state = "1";
}

abbrev other : CxiDevice
other = record one { name = "cxi1" }

abbrev path : String
path = "/sys/class/cxi/cxi1"

abbrev start_watch : Watch
start_watch = record { pending_update = false; armed = false; sent = [] ∷ [] }

-- A change, a discovery that fails, which drops it, and another change
abbrev inputs : List Input
inputs = event true path ∷ timer (inl "gone") ∷ event true path ∷ []

abbrev end_watch : Watch
end_watch = on_event true path (on_timer (inl "gone") (on_event true path start_watch))

WatchRun-armed_example :
    (is_unsent inputs ≡ (end_watch.armed || is_lost inputs))
    × (end_watch.pending_update ≡ end_watch.armed)
    × (end_watch.sent ≡ answered [] inputs)
unfolding on_event on_timer
WatchRun-armed_example = WatchRun-armed [] inputs end_watch (
    saw_event true path (timer (inl "gone") ∷ event true path ∷ [])
      (on_timer (inl "gone") (on_event true path start_watch))
      (fired (inl "gone") (event true path ∷ []) (on_event true path start_watch) refl
        (saw_event true path [] start_watch begun)))

-- The change before a failed discovery is lost: no timer is set for it.
lost_test : is_lost (timer (inl "gone") ∷ event true path ∷ []) ≡ true
unfolding is_lost is_unsent
lost_test = refl

-- A device that takes the place of another between two polls is not noticed.
poll_test : poll_devices 0 (inr (one ∷ []) ∷ inr (other ∷ []) ∷ []) ≡ (one ∷ []) ∷ []
unfolding poll_devices
poll_test = refl

-- The device that was there first is gone at the first poll, and the listener is not told.
polled_count_example : length (last_sent (one ∷ []) (poll_devices 0 (inr [] ∷ inl "gone" ∷ []))) ≡ 1
polled_count_example = polled_count (one ∷ []) (inr [] ∷ inl "gone" ∷ [])

-- Where the directory is missing or cannot be watched it is polled.
polling_test :
    (watch_directory node_host (λ path. pure (some "no space left on device")) machine).0 ≡ polling
unfolding watch_directory
polling_test = refl

-- The chart with both webhooks disabled
chart_webhooks_example :
    webhook_server (operator_main no_duration [] [] (chart_args true false false))
    ≡ ("/validate-cxi-hpe-com-v1-cxidriver" ∷ [], "")
unfolding get_env_bool
chart_webhooks_example = chart_webhooks no_duration [] [] true false false refl refl

-- The arguments of config/manager/manager.yaml
manager_test :
    operator_main no_duration []
      (("OPERATOR_NAMESPACE", "fabric") ∷ [])
      ("--leader-elect" ∷ "--health-probe-bind-address=:8081" ∷ [])
    ≡ inr (record {
      metrics_bind_address = "0";
      secure_serving = true;
      metrics_certificate = record { dir = ""; cert_name = ""; key_name = "" };
      webhook_certificate = record { dir = ""; cert_name = ""; key_name = "" };
      http1_only = true;
      health_probe_bind_address = ":8081";
      leader_election = true;
      leader_election_id = "bf7f9b28.hpe.com";
      namespace = "fabric";
      webhooks = ("/validate-cxi-hpe-com-v1-cxidriver", cxi_driver_validator) ∷ [];
    })
unfolding operator_main get_env get_env_bool
manager_test = refl
