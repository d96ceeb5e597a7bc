-- ===== src/Controller/Reconcile/Untouched.antt =====
-- Which DaemonSets a run leaves alone.
use Prim.Native.String.{◌++◌ as cat}
use slingshot_operator.Prelude.{
  ◌≡◌, refl, String, Bool, true, false, ◌&&◌, none, some, inl, inr, List, map, mem, str_eq, eq_iff,
  Bool-cases, Option-cases, arith,
}
use slingshot_operator.Api.{CxiDriver, CxiDriverStatus}
use slingshot_operator.Kube.Workload.{DaemonSet, DaemonSetSpec, MutatingWebhook}
use slingshot_operator.Kube.Client.{Action, Error, Client}
use slingshot_operator.Kube.Frame.{Keeps, IsWorkloadProperty}
use slingshot_operator.Controller.Conditions.{
  set_condition, remove_condition, set_component_condition, condition_type_driver_agent_ready,
  condition_type_device_plugin_ready, condition_type_retry_handler_ready,
  condition_type_metrics_exporter_ready, condition_type_progressing, condition_true,
}
use slingshot_operator.Controller.Singleton.{is_active_cxi_driver}
use slingshot_operator.Controller.Singleton.Frame.{Keeps-is_active}
use slingshot_operator.Controller.DaemonSets.DriverAgent.{build_driver_agent_daemon_set}
use slingshot_operator.Controller.DaemonSets.DevicePlugin.{build_device_plugin_daemon_set}
use slingshot_operator.Controller.DaemonSets.RetryHandler.{build_retry_handler_daemon_set}
use slingshot_operator.Controller.DaemonSets.MetricsExporter.{build_metrics_exporter_daemon_set}
use slingshot_operator.Controller.Apply.{
  apply_daemon_set, reconcile_driver_agent, reconcile_device_plugin, reconcile_retry_handler,
  reconcile_metrics_exporter,
}
use slingshot_operator.Controller.Apply.Deploys.{DeployLaws, apply-Keeps, webhook-Keeps}
use slingshot_operator.Controller.Status.{Result}
use slingshot_operator.Controller.Reconcile.{
  cxi_driver_finalizer, component, optional_component, component_failed, finish,
  metrics_exporter_step, retry_handler_step, device_plugin_step, reconcile_components,
  reconcile_active, decide, reconcile_driver,
}
use slingshot_operator.Controller.Reconcile.Frame.{
  Keeps-update_status, Keeps-deletion, Keeps-ignore,
}
use slingshot_operator.Controller.Reconcile.Wanted.{wanted_daemon_sets, as_daemon_set, finish-Keeps}
use slingshot_operator.Controller.Reconcile.Component.{at}

module _ {W : Type 0} (c : Client W) (namespace : String) (d : CxiDriver) (P : W → Type 0)
    (keeps : IsWorkloadProperty c P) where
  abbrev pub StepKeeps : {A : Type 0} → (CxiDriver → Action W A) → Type 0
  StepKeeps m = (s : CxiDriverStatus) → Keeps P (m (at c namespace d s))

  module _ (kind reason message : String) (act : CxiDriver → Action W Error)
      (next : CxiDriver → Action W Result) where
    component-Keeps :
        StepKeeps act
        → StepKeeps next
        → StepKeeps (component c namespace kind reason message act next)
    unfolding component component_failed set_component_condition set_condition
    component-Keeps a n s w h =
        let d' = at c namespace d s in
        let w' = (act d' w).1 in
        elim (Option-cases (act d' w).0) [
          | inl e ↦
              let s' = (set_component_condition c kind true "Ready" message d').status in
              ground (arith, e, n s' w' (a s w h))
          | inr (m, e) ↦
              let failed = component_failed c namespace kind reason m d' in
              ground (arith, e, Keeps-update_status c namespace P keeps failed w' (a s w h))
        ]

    optional-Keeps :
        (enabled : Bool)
        → (enabled ≡ true → StepKeeps act)
        → StepKeeps next
        → StepKeeps (optional_component c namespace enabled kind reason message act next)
    unfolding optional_component remove_condition
    optional-Keeps true a n s = component-Keeps (a refl) n s
    optional-Keeps false a n s = n (remove_condition c kind (at c namespace d s)).status

module _ {W : Type 0} (c : Client W) {Runs : String → String → DaemonSetSpec → W → Type 0}
    {Calls : String → List MutatingWebhook → W → Type 0} (laws : DeployLaws c Runs Calls)
    (namespace : String) (d : CxiDriver) (n : String) (y : DaemonSetSpec)
    (keeps : IsWorkloadProperty c (Runs namespace n y)) where
  abbrev Kept : W → Type 0
  Kept = Runs namespace n y

  applied :
      (x : DaemonSet)
      → str_eq x.name n ≡ false
      → StepKeeps c namespace d Kept keeps (λ d'. apply_daemon_set c namespace d' x)
  applied x differ s =
      apply-Keeps c laws namespace namespace n y (at c namespace d s) x
        (ground (arith, differ, eq_iff x.name n, eq_iff n x.name))

  abbrev named : String → Bool
  named part = str_eq (cat d.name part) n

  exporter-Keeps :
      (d.spec.metrics_exporter.enabled && named "-metrics-exporter") ≡ false
      → StepKeeps c namespace d Kept keeps (metrics_exporter_step c namespace)
  unfolding metrics_exporter_step reconcile_metrics_exporter build_metrics_exporter_daemon_set
  exporter-Keeps other =
      optional-Keeps c namespace d Kept keeps condition_type_metrics_exporter_ready
        "MetricsExporterFailed" "Metrics exporter DaemonSet is ready"
        (reconcile_metrics_exporter c namespace) (finish c namespace)
        d.spec.metrics_exporter.enabled
        (λ on. applied (build_metrics_exporter_daemon_set namespace d) (ground (arith, on, other)))
        (λ s. finish-Keeps c namespace Kept (laws.runs_settled namespace n y) (at c namespace d s))

  handler-acts :
      (d.spec.retry_handler.enabled && as_daemon_set d && named "-retry-handler") ≡ false
      → d.spec.retry_handler.enabled ≡ true
      → StepKeeps c namespace d Kept keeps (reconcile_retry_handler c namespace)
  unfolding reconcile_retry_handler build_retry_handler_daemon_set
  handler-acts other on s w h =
      let d' = at c namespace d s in
      elim (Bool-cases (as_daemon_set d)) [
        | inl e ↦
            let differ : named "-retry-handler" ≡ false = ground (arith, on, e, other) in
            ground (arith, e, applied (build_retry_handler_daemon_set namespace d) differ s w h)
        | inr e ↦ ground (arith, e, h, webhook-Keeps c laws namespace namespace n y d' w)
      ]

  handler-Keeps :
      (d.spec.retry_handler.enabled && as_daemon_set d && named "-retry-handler") ≡ false
      → (d.spec.metrics_exporter.enabled && named "-metrics-exporter") ≡ false
      → StepKeeps c namespace d Kept keeps (retry_handler_step c namespace)
  unfolding retry_handler_step
  handler-Keeps other e =
      optional-Keeps c namespace d Kept keeps condition_type_retry_handler_ready
        "RetryHandlerFailed" "Retry handler is ready" (reconcile_retry_handler c namespace)
        (metrics_exporter_step c namespace) d.spec.retry_handler.enabled (handler-acts other)
        (exporter-Keeps e)

  plugin-Keeps :
      (d.spec.device_plugin.enabled && named "-device-plugin") ≡ false
      → StepKeeps c namespace d Kept keeps (retry_handler_step c namespace)
      → StepKeeps c namespace d Kept keeps (device_plugin_step c namespace)
  unfolding device_plugin_step reconcile_device_plugin build_device_plugin_daemon_set
  plugin-Keeps other next =
      optional-Keeps c namespace d Kept keeps condition_type_device_plugin_ready
        "DevicePluginFailed" "Device plugin DaemonSet is ready"
        (reconcile_device_plugin c namespace) (retry_handler_step c namespace)
        d.spec.device_plugin.enabled
        (λ on. applied (build_device_plugin_daemon_set namespace d) (ground (arith, on, other)))
        next

  components-Keeps :
      named "-driver-agent" ≡ false
      → StepKeeps c namespace d Kept keeps (device_plugin_step c namespace)
      → Keeps Kept (reconcile_components c namespace d)
  unfolding reconcile_components set_condition reconcile_driver_agent build_driver_agent_daemon_set
  components-Keeps other next =
      let d' =
        set_condition c condition_type_progressing condition_true "Reconciling"
          "Reconciling CXIDriver resources" d in
      component-Keeps c namespace d Kept keeps condition_type_driver_agent_ready "DriverAgentFailed"
        "Driver agent DaemonSet is ready" (reconcile_driver_agent c namespace)
        (device_plugin_step c namespace) (applied (build_driver_agent_daemon_set namespace d) other)
        next d'.status

  all-Keeps :
      mem n (map (λ (x : DaemonSet). x.name) (wanted_daemon_sets namespace d)) ≡ false
      → Keeps Kept (reconcile_components c namespace d)
  unfolding mem build_driver_agent_daemon_set build_device_plugin_daemon_set
      build_retry_handler_daemon_set build_metrics_exporter_daemon_set
  all-Keeps other = components-Keeps (ground (arith, other)) (
      plugin-Keeps (ground (arith, other))
        (handler-Keeps (ground (arith, other)) (ground (arith, other))))

  decide-Keeps :
      (active : Bool) (e : Error)
      → mem n (map (λ (x : DaemonSet). x.name) (wanted_daemon_sets namespace d)) ≡ false
      → Keeps Kept (decide c namespace d (active, e))
  unfolding decide reconcile_active
  decide-Keeps active (some m) other w h = h
  decide-Keeps false none other w h = Keeps-ignore c namespace Kept keeps d w h
  decide-Keeps true none other w h =
      ground (
        arith,
        all-Keeps other w h,
        keeps.update_driver (c.add_finalizer cxi_driver_finalizer d) w h,
      )

  -- Under the laws of the client, a run for a driver, whatever its state, leaves a DaemonSet of the
  -- operator's namespace alone that has none of the names of those that the driver asks for. So the
  -- DaemonSet of a component that is switched off, or of a retry handler whose mode is changed,
  -- stays as it was.
  pub writes_wanted_only :
      (w : W)
      → mem n (map (λ (x : DaemonSet). x.name) (wanted_daemon_sets namespace d)) ≡ false
      → Runs namespace n y w
      → Runs namespace n y (reconcile_driver c namespace d w).1
  unfolding reconcile_driver
  writes_wanted_only w other h = elim (Option-cases d.deletion_timestamp) [
    | inr (t, e) ↦ rw (e, reconcile_driver) (Keeps-deletion c namespace Kept keeps d w h)
    | inl e ↦
        let (a, w') = is_active_cxi_driver c namespace d.name w in
        rw (e, reconcile_driver)
          (decide-Keeps a.0 a.1 other w' (Keeps-is_active c namespace Kept keeps d.name w h))
  ]
