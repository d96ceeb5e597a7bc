-- ===== src/Controller/Reconcile.antt =====
-- internal/controller/cxidriver_controller.go: `Reconcile`. Its returned error is nil on every path
-- and is left out. The children prove what a run does to the cluster.
pub mod Frame
pub mod Failure
pub mod Release
pub mod Component
pub mod Wanted
pub mod Steps
pub mod Deployed
pub mod Untouched
use Prim.Native.String.{◌++◌ as cat}
use slingshot_operator.Prelude.{
  String, Bool, true, false, Option, none, some, str_eq, if◌then◌else◌,
}
use slingshot_operator.Api.{CxiDriver}
use slingshot_operator.Kube.Client.{
  Fetch, found, not_found, failed, Action, Error, Client, pure, ◌>>=◌, ◌>>◌,
}
use slingshot_operator.Controller.Singleton.{
  get_active_cxi_driver, set_active_cxi_driver, is_active_cxi_driver,
}
use slingshot_operator.Controller.Conditions.{
  set_condition, remove_condition, set_component_condition, set_degraded_condition,
  condition_type_available, condition_type_progressing, condition_type_degraded,
  condition_type_driver_agent_ready, condition_type_device_plugin_ready,
  condition_type_retry_handler_ready, condition_type_metrics_exporter_ready, condition_true,
  condition_false,
}
use slingshot_operator.Controller.Apply.{
  reconcile_driver_agent, reconcile_device_plugin, reconcile_retry_handler,
  reconcile_metrics_exporter,
}
use slingshot_operator.Controller.Webhook.{cleanup_resources}
use slingshot_operator.Controller.Status.{
  Result, finished, requeue_after, update_status, update_status_with_retry,
}

abbrev pub cxi_driver_finalizer : String
cxi_driver_finalizer = "cxi.hpe.com/finalizer"

module _ {W : Type 0} (c : Client W) (namespace : String) where
  -- Clear the active driver if it is `name`; errors are logged only.
  unfoldable pub release : String → Action W Result
  release name = do
    a ← get_active_cxi_driver c namespace
    elim (str_eq a.0 name) [
      | true ↦ (do _ ← set_active_cxi_driver c namespace ""; pure finished)
      | false ↦ pure finished
    ]

  -- The finalizer is gone only after the cleanup.
  unfoldable pub finalize : CxiDriver → Action W Result
  unfolding release
  finalize d = do
    e ← cleanup_resources c d
    elim e [
      | some _ ↦ pure (requeue_after 5)
      | none ↦ (do
        e' ← c.update_driver (c.remove_finalizer cxi_driver_finalizer d)
        elim e' [ some _ ↦ pure (requeue_after 5) | none ↦ release d.name ])
    ]

  unfoldable pub reconcile_deletion : CxiDriver → Action W Result
  unfolding finalize
  reconcile_deletion d =
      if c.contains_finalizer cxi_driver_finalizer d then finalize d else pure finished

  -- The conditions of a driver that is ignored beside `active`.
  unfoldable pub ignored : String → CxiDriver → CxiDriver
  ignored active d =
      set_condition c condition_type_available condition_false "Ignored"
        "Another CXIDriver is already managing this cluster"
        (set_condition c condition_type_degraded condition_true "AnotherCXIDriverActive"
          (cat "CXIDriver \"" (cat active "\" is already active; this resource is ignored")) d)

  unfoldable pub ignore_driver : CxiDriver → Action W Result
  unfolding ignored
  ignore_driver d = do
    a ← get_active_cxi_driver c namespace
    update_status_with_retry c (ignored a.0 d)

  -- The conditions of a driver one of whose components failed.
  unfoldable pub component_failed : String → String → String → CxiDriver → CxiDriver
  component_failed kind reason message d =
      set_degraded_condition c reason message
        (set_component_condition c kind false "Failed" message d)

  -- One component, and what follows it.
  unfoldable pub component :
      String
      → String
      → String
      → (CxiDriver → Action W Error)
      → (CxiDriver → Action W Result)
      → CxiDriver
      → Action W Result
  unfolding component_failed
  component kind reason ready_message act next d = do
    e ← act d
    elim e [
      | some m ↦ (do
        _ ← update_status_with_retry c (component_failed kind reason m d)
        pure (requeue_after 30))
      | none ↦ next (set_component_condition c kind true "Ready" ready_message d)
    ]

  -- A component that may be switched off.
  unfoldable pub optional_component :
      Bool
      → String
      → String
      → String
      → (CxiDriver → Action W Error)
      → (CxiDriver → Action W Result)
      → CxiDriver
      → Action W Result
  unfolding component
  optional_component enabled kind reason ready_message act next d =
      if enabled
      then component kind reason ready_message act next d
      else next (remove_condition c kind d)

  unfoldable pub finish : CxiDriver → Action W Result
  finish d = do
    e ← update_status c namespace d
    elim e [ some _ ↦ pure (requeue_after 5) | none ↦ pure finished ]

  unfoldable pub metrics_exporter_step : CxiDriver → Action W Result
  unfolding optional_component finish
  metrics_exporter_step d =
      optional_component d.spec.metrics_exporter.enabled condition_type_metrics_exporter_ready
        "MetricsExporterFailed" "Metrics exporter DaemonSet is ready"
        (reconcile_metrics_exporter c namespace) finish d

  unfoldable pub retry_handler_step : CxiDriver → Action W Result
  unfolding optional_component metrics_exporter_step
  retry_handler_step d =
      optional_component d.spec.retry_handler.enabled condition_type_retry_handler_ready
        "RetryHandlerFailed" "Retry handler is ready" (reconcile_retry_handler c namespace)
        metrics_exporter_step d

  unfoldable pub device_plugin_step : CxiDriver → Action W Result
  unfolding optional_component retry_handler_step
  device_plugin_step d =
      optional_component d.spec.device_plugin.enabled condition_type_device_plugin_ready
        "DevicePluginFailed" "Device plugin DaemonSet is ready"
        (reconcile_device_plugin c namespace) retry_handler_step d

  unfoldable pub reconcile_components : CxiDriver → Action W Result
  unfolding component device_plugin_step
  reconcile_components d =
      component condition_type_driver_agent_ready "DriverAgentFailed"
        "Driver agent DaemonSet is ready" (reconcile_driver_agent c namespace) device_plugin_step
        (set_condition c condition_type_progressing condition_true "Reconciling"
          "Reconciling CXIDriver resources" d)

  -- The finalizer stands before any resource is created.
  unfoldable pub reconcile_active : CxiDriver → Action W Result
  unfolding reconcile_components
  reconcile_active d =
      if c.contains_finalizer cxi_driver_finalizer d then reconcile_components d else (do
        e ← c.update_driver (c.add_finalizer cxi_driver_finalizer d)
        elim e [
          | some _ ↦ pure (requeue_after 5)
          | none ↦ pure (record { requeue = true; requeue_after = 0 })
        ])

  decide : CxiDriver → Bool × Error → Action W Result
  unfolding ignore_driver reconcile_active
  decide d (active, some _) = pure (requeue_after 5)
  decide d (true, none) = reconcile_active d
  decide d (false, none) = ignore_driver d

  unfoldable pub reconcile_driver : CxiDriver → Action W Result
  unfolding reconcile_deletion decide
  reconcile_driver d = elim d.deletion_timestamp [
    | some _ ↦ reconcile_deletion d
    | none ↦ (do a ← is_active_cxi_driver c namespace d.name; decide d a)
  ]

  unfoldable pub reconcile : String → Action W Result
  unfolding release reconcile_driver
  reconcile name = do
    r ← c.get_driver name
    elim r [
      | not_found ↦ release name
      | failed _ ↦ pure (requeue_after 5)
      | found d ↦ reconcile_driver d
    ]
