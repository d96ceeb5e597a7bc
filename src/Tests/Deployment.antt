-- ===== src/Tests/Deployment.antt =====
-- The cluster in memory keeps the DaemonSets and webhooks that are written to it, and a run for a
-- driver at a concrete input.
use slingshot_operator.Prelude.{
  ◌≡◌, ◌≢◌, refl, String, false, List, [], ◌∷◌, Option, none, some, str_eq, eq_iff, eq_refl, mem,
  arith,
}
use slingshot_operator.Prelude.Dict.{get, lookup}
use slingshot_operator.Api.{CxiDriver}
use slingshot_operator.Kube.Workload.{
  DaemonSet, DaemonSetSpec, MutatingWebhook, WebhookConfiguration,
}
use slingshot_operator.Kube.Client.{Fetch, found}
use slingshot_operator.Controller.Singleton.{is_active_cxi_driver, get_active_cxi_driver}
use slingshot_operator.Controller.Apply.Deploys.{DeployLaws}
use slingshot_operator.Controller.Conditions.{set_component_condition}
use slingshot_operator.Controller.DaemonSets.DriverAgent.{build_driver_agent_daemon_set}
use slingshot_operator.Controller.DaemonSets.DevicePlugin.{build_device_plugin_daemon_set}
use slingshot_operator.Controller.DaemonSets.RetryHandler.{build_retry_handler_daemon_set}
use slingshot_operator.Controller.DaemonSets.MetricsExporter.{build_metrics_exporter_daemon_set}
use slingshot_operator.Controller.Apply.{
  reconcile_driver_agent, reconcile_device_plugin, reconcile_retry_handler,
  reconcile_metrics_exporter,
}
use slingshot_operator.Controller.Status.{finished, requeue_after, update_status}
use slingshot_operator.Controller.Reconcile.{reconcile_driver}
use slingshot_operator.Kube.Frame.{IsWorkloadProperty}
use slingshot_operator.Controller.Reconcile.Untouched.{writes_wanted_only}
use slingshot_operator.Controller.Reconcile.Deployed.{AsSpecified, reconcile_deploys}
use slingshot_operator.Tests.Cluster.{Cluster, memory, find_daemon_set, find_webhook}
use slingshot_operator.Tests.Reconciler.{driver, two}

abbrev spec_of : Fetch DaemonSet → Option DaemonSetSpec
spec_of (found x) = some x.spec
spec_of _ = none

abbrev webhooks_of : Fetch WebhookConfiguration → Option (List MutatingWebhook)
webhooks_of (found x) = some x.webhooks
webhooks_of _ = none

abbrev MemoryRuns : String → String → DaemonSetSpec → Cluster → Type 0
MemoryRuns s n y w = spec_of (find_daemon_set s n w.daemon_sets) ≡ some y

abbrev MemoryCalls : String → List MutatingWebhook → Cluster → Type 0
MemoryCalls n ys w = webhooks_of (find_webhook n w.webhooks) ≡ some ys

own_spec :
    (x : DaemonSet) (xs : List DaemonSet)
    → spec_of (find_daemon_set x.namespace x.name (x ∷ xs)) ≡ some x.spec
own_spec x xs = rw (eq_refl x.namespace, eq_refl x.name) refl

other_spec :
    (s n : String) (y : DaemonSetSpec) (x : DaemonSet) (xs : List DaemonSet)
    → str_eq n x.name ≡ false
    → spec_of (find_daemon_set s n xs) ≡ some y
    → spec_of (find_daemon_set s n (x ∷ xs)) ≡ some y
other_spec s n y x xs differ h = ground (arith, eq_iff x.name n, eq_iff n x.name)

own_webhooks :
    (x : WebhookConfiguration) (xs : List WebhookConfiguration)
    → webhooks_of (find_webhook x.name (x ∷ xs)) ≡ some x.webhooks
own_webhooks x xs = rw (eq_refl x.name) refl

found_names :
    (s n : String) (x : DaemonSet) (xs : List DaemonSet)
    → find_daemon_set s n xs ≡ found x
    → (x.namespace ≡ s) × (x.name ≡ n)
found_names s n x [] h = cc
found_names s n x (y ∷ ys) h =
    ground (arith, eq_iff y.namespace s, eq_iff y.name n, found_names s n x ys)

found_webhook_name :
    (n : String) (x : WebhookConfiguration) (xs : List WebhookConfiguration)
    → find_webhook n xs ≡ found x
    → x.name ≡ n
found_webhook_name n x [] h = cc
found_webhook_name n x (y ∷ ys) h = ground (arith, eq_iff y.name n, found_webhook_name n x ys)

memory-DeployLaws : DeployLaws memory MemoryRuns MemoryCalls
memory-DeployLaws = record {
  runs_settled = λ s n x. record {
    get_driver = λ m w h. h;
    update_driver_status = λ d w h. h;
    get_daemon_set = λ t m w h. h;
    get_webhook = λ m w h. h;
    retry_on_conflict = λ m keeps w h. keeps w h;
  };
  calls_settled = λ n xs. record {
    get_driver = λ m w h. h;
    update_driver_status = λ d w h. h;
    get_daemon_set = λ t m w h. h;
    get_webhook = λ m w h. h;
    retry_on_conflict = λ m keeps w h. keeps w h;
  };
  found_daemon_set = λ s n x w h. found_names s n x w.daemon_sets h;
  found_webhook = λ n x w h. found_webhook_name n x w.webhooks h;
  owner = λ d x h. (refl, refl, refl);
  create_runs = λ x w h. own_spec x w.daemon_sets;
  update_runs = λ x w h. own_spec x w.daemon_sets;
  create_other = λ s n y x differ w h. other_spec s n y x w.daemon_sets differ h;
  update_other = λ s n y x differ w h. other_spec s n y x w.daemon_sets differ h;
  create_calls = λ x w h. own_webhooks x w.webhooks;
  update_calls = λ x w h. own_webhooks x w.webhooks;
  create_webhook_runs = λ s n y x w h. h;
  update_webhook_runs = λ s n y x w h. h;
  create_calls_kept = λ n ys x w h. h;
  update_calls_kept = λ n ys x w h. h;
}

finished_run : (reconcile_driver memory "ns" (driver "a") two).0 ≡ finished
unfolding reconcile_driver is_active_cxi_driver get_active_cxi_driver lookup get mem
    reconcile_driver_agent set_component_condition reconcile_device_plugin
    build_driver_agent_daemon_set build_device_plugin_daemon_set reconcile_retry_handler
    build_retry_handler_daemon_set reconcile_metrics_exporter build_metrics_exporter_daemon_set
    update_status
finished_run = refl

not_failed : (reconcile_driver memory "ns" (driver "a") two).0 ≢ requeue_after 30
not_failed h = cc (finished_run, h)

reconcile_deploys_example :
    AsSpecified memory memory-DeployLaws "ns"
      (driver "a")
      (reconcile_driver memory "ns" (driver "a") two).1
unfolding is_active_cxi_driver get_active_cxi_driver lookup get mem
reconcile_deploys_example =
    reconcile_deploys memory memory-DeployLaws "ns" (driver "a") two refl refl refl not_failed

memory-Runs_kept : (s n : String) (y : DaemonSetSpec) → IsWorkloadProperty memory (MemoryRuns s n y)
memory-Runs_kept s n y = record {
  get_driver = λ m w h. h;
  update_driver = λ d w h. h;
  update_driver_status = λ d w h. h;
  get_webhook = λ m w h. h;
  delete_webhook = λ x w h. h;
  get_config_map = λ m k w h. h;
  create_config_map = λ x w h. h;
  update_config_map = λ x w h. h;
  retry_on_conflict = λ m keeps w h. keeps w h;
}

-- The driver with its retry handler in the mode of sidecars
abbrev moved : CxiDriver
moved = record (driver "a") {
  spec = record (driver "a").spec {
    retry_handler = record (driver "a").spec.retry_handler { mode = "sidecar" };
  };
}

abbrev old_handler : DaemonSet
old_handler = build_retry_handler_daemon_set "ns" (driver "a")

abbrev deployed : Cluster
deployed = record two { daemon_sets = old_handler ∷ [] }

-- The retry handler that was deployed before the change of the mode still runs.
writes_wanted_only_example :
    MemoryRuns "ns" "a-retry-handler" old_handler.spec
      (reconcile_driver memory "ns" moved deployed).1
unfolding mem build_driver_agent_daemon_set build_device_plugin_daemon_set
    build_retry_handler_daemon_set build_metrics_exporter_daemon_set
writes_wanted_only_example =
    writes_wanted_only memory memory-DeployLaws "ns" moved "a-retry-handler" old_handler.spec
      (memory-Runs_kept "ns" "a-retry-handler" old_handler.spec) deployed refl refl
