-- ===== src/Controller/Reconcile/Steps.antt =====
-- What the cluster runs after each component of a run.
use slingshot_operator.Prelude.{
  ◌≡◌, refl, ap, String, Bool, true, false, ◌&&◌, List, none, All, str_eq, eq_iff, arith,
}
use slingshot_operator.Prelude.Text.{append_ne}
use slingshot_operator.Api.{
  CxiDriver, CxiDriverStatus, retry_handler_mode_daemon_set, retry_handler_mode_sidecar,
}
use slingshot_operator.Kube.Workload.{
  DaemonSet, DaemonSetSpec, MutatingWebhook, WebhookConfiguration,
}
use slingshot_operator.Kube.Client.{Client}
use slingshot_operator.Kube.Frame.{Keeps}
use slingshot_operator.Controller.Webhook.{sidecar_webhook_configuration}
use slingshot_operator.Controller.DaemonSets.DriverAgent.{build_driver_agent_daemon_set}
use slingshot_operator.Controller.DaemonSets.DevicePlugin.{build_device_plugin_daemon_set}
use slingshot_operator.Controller.DaemonSets.RetryHandler.{build_retry_handler_daemon_set}
use slingshot_operator.Controller.DaemonSets.MetricsExporter.{build_metrics_exporter_daemon_set}
use slingshot_operator.Controller.Apply.{
  apply_daemon_set, reconcile_driver_agent, reconcile_device_plugin, reconcile_retry_handler,
  reconcile_metrics_exporter,
}
use slingshot_operator.Controller.Apply.Deploys.{
  DeployLaws, apply-Runs, apply-Keeps, apply-Keeps_calls, webhook-Calls, webhook-Keeps,
}
use slingshot_operator.Controller.Conditions.{
  condition_type_device_plugin_ready, condition_type_retry_handler_ready,
  condition_type_metrics_exporter_ready,
}
use slingshot_operator.Controller.Reconcile.{
  finish, metrics_exporter_step, retry_handler_step, device_plugin_step,
}
use slingshot_operator.Controller.Reconcile.Wanted.{
  only, as_daemon_set, All-only, only-Keeps, finish-Keeps,
}
use slingshot_operator.Controller.Reconcile.Component.{at, LeadsTo, optional-LeadsTo}

module _ {W : Type 0} (c : Client W) {Runs : String → String → DaemonSetSpec → W → Type 0}
    {Calls : String → List MutatingWebhook → W → Type 0} (laws : DeployLaws c Runs Calls)
    (namespace : String) (d : CxiDriver) where
  abbrev pub Running : DaemonSet → W → Type 0
  Running x w = Runs x.namespace x.name x.spec w

  abbrev pub Calling : WebhookConfiguration → W → Type 0
  Calling x w = Calls x.name x.webhooks w

  abbrev pub agent : DaemonSet
  agent = build_driver_agent_daemon_set namespace d

  abbrev pub plugin : DaemonSet
  plugin = build_device_plugin_daemon_set namespace d

  abbrev pub handler : DaemonSet
  handler = build_retry_handler_daemon_set namespace d

  abbrev pub exporter : DaemonSet
  exporter = build_metrics_exporter_daemon_set namespace d

  abbrev pub hook : WebhookConfiguration
  hook = sidecar_webhook_configuration namespace d

  abbrev pub handler_wanted : Bool
  handler_wanted = d.spec.retry_handler.enabled && as_daemon_set d

  abbrev pub hook_wanted : Bool
  hook_wanted =
      d.spec.retry_handler.enabled && str_eq d.spec.retry_handler.mode retry_handler_mode_sidecar

  abbrev pub Optional : Bool → DaemonSet → W → Type 0
  Optional wanted x w = All (λ y. Running y w) (only wanted x)

  -- What runs after each of the components.
  abbrev WithPlugin : W → Type 0
  WithPlugin w = Running agent w × Optional d.spec.device_plugin.enabled plugin w

  abbrev WithHandler : W → Type 0
  WithHandler w =
      Running agent w
      × Optional d.spec.device_plugin.enabled plugin w
      × Optional handler_wanted handler w
      × All (λ x. Calling x w) (only hook_wanted hook)

  abbrev pub Deployed : W → Type 0
  Deployed w =
      Running agent w
      × Optional d.spec.device_plugin.enabled plugin w
      × Optional handler_wanted handler w
      × All (λ x. Calling x w) (only hook_wanted hook)
      × Optional d.spec.metrics_exporter.enabled exporter w

  finish-LeadsTo : LeadsTo c namespace d Deployed Deployed (finish c namespace)
  finish-LeadsTo s w (a, p, h, k, e) ok =
      let d' = at c namespace d s in
      let m = finish c namespace d' in
      let keeps = λ (x : DaemonSet).
        finish-Keeps c namespace (Running x) (laws.runs_settled x.namespace x.name x.spec) d' in
      let calls =
        finish-Keeps c namespace (Calling hook) (laws.calls_settled hook.name hook.webhooks) d' in
      (
        keeps agent w a,
        only-Keeps Running d.spec.device_plugin.enabled plugin m (keeps plugin) w p,
        only-Keeps Running handler_wanted handler m (keeps handler) w h,
        only-Keeps Calling hook_wanted hook m calls w k,
        only-Keeps Running d.spec.metrics_exporter.enabled exporter m (keeps exporter) w e,
      )

  others :
      (x y : DaemonSet) (s : CxiDriverStatus)
      → str_eq x.name y.name ≡ false
      → Keeps (Running x) (apply_daemon_set c namespace (at c namespace d s) y)
  others x y s differ =
      apply-Keeps c laws namespace x.namespace x.name x.spec (at c namespace d s) y differ

  exporter-acts :
      (s : CxiDriverStatus) (w : W)
      → WithHandler w
      → (reconcile_metrics_exporter c namespace (at c namespace d s) w).0 ≡ none
      → Deployed (reconcile_metrics_exporter c namespace (at c namespace d s) w).1
  unfolding reconcile_metrics_exporter build_driver_agent_daemon_set
      build_metrics_exporter_daemon_set build_device_plugin_daemon_set
      build_retry_handler_daemon_set
  exporter-acts s w (a, p, h, k) e =
      let m = apply_daemon_set c namespace (at c namespace d s) exporter in
      (
        others agent exporter s (append_ne d.name "-driver-agent" "-metrics-exporter" refl) w a,
        only-Keeps Running d.spec.device_plugin.enabled plugin m
            (others plugin exporter s (append_ne d.name "-device-plugin" "-metrics-exporter" refl))
            w p,
        only-Keeps Running handler_wanted handler m
            (others handler exporter s (append_ne d.name "-retry-handler" "-metrics-exporter" refl))
            w h,
        only-Keeps Calling hook_wanted hook m
            (apply-Keeps_calls c laws namespace hook.name hook.webhooks (at c namespace d s)
              exporter)
            w k,
        All-only Running d.spec.metrics_exporter.enabled exporter (m w).1
            (λ _. apply-Runs c laws namespace (at c namespace d s) exporter w e),
      )

  exporter-LeadsTo : LeadsTo c namespace d WithHandler Deployed (metrics_exporter_step c namespace)
  unfolding metrics_exporter_step
  exporter-LeadsTo =
      optional-LeadsTo c namespace d WithHandler Deployed Deployed
        condition_type_metrics_exporter_ready "MetricsExporterFailed"
        "Metrics exporter DaemonSet is ready" (reconcile_metrics_exporter c namespace)
        (finish c namespace) d.spec.metrics_exporter.enabled
        (λ s w on had e. exporter-acts s w had e)
        (λ w off (a, p, h, k). (a, p, h, k, All-only Running _ exporter w (λ on. cc)))
        finish-LeadsTo

  handler-Keeps :
      (x : DaemonSet) (s : CxiDriverStatus)
      → str_eq x.name handler.name ≡ false
      → Keeps (Running x) (reconcile_retry_handler c namespace (at c namespace d s))
  unfolding reconcile_retry_handler build_retry_handler_daemon_set
  handler-Keeps x s differ w h =
      let d' = at c namespace d s in
      ground (
        arith,
        h,
        others x handler s differ w,
        webhook-Keeps c laws namespace x.namespace x.name x.spec d' w,
      )

  handler-Runs :
      (s : CxiDriverStatus) (w : W)
      → as_daemon_set d ≡ true
      → (reconcile_retry_handler c namespace (at c namespace d s) w).0 ≡ none
      → Running handler (reconcile_retry_handler c namespace (at c namespace d s) w).1
  unfolding reconcile_retry_handler build_retry_handler_daemon_set
  handler-Runs s w on e =
      ground (arith, on, e, apply-Runs c laws namespace (at c namespace d s) handler w)

  hook-Calls :
      (s : CxiDriverStatus) (w : W)
      → str_eq d.spec.retry_handler.mode retry_handler_mode_sidecar ≡ true
      → (reconcile_retry_handler c namespace (at c namespace d s) w).0 ≡ none
      → Calling hook (reconcile_retry_handler c namespace (at c namespace d s) w).1
  unfolding reconcile_retry_handler sidecar_webhook_configuration
  hook-Calls s w on e =
      let mode = (eq_iff d.spec.retry_handler.mode retry_handler_mode_sidecar).0 on in
      let set = ap (λ (t : String). str_eq t retry_handler_mode_daemon_set) mode in
      let unset = ap (λ (t : String). str_eq t "") mode in
      ground (arith, on, set, unset, e, webhook-Calls c laws namespace (at c namespace d s) w)

  handler-acts :
      (s : CxiDriverStatus) (w : W)
      → d.spec.retry_handler.enabled ≡ true
      → WithPlugin w
      → (reconcile_retry_handler c namespace (at c namespace d s) w).0 ≡ none
      → WithHandler (reconcile_retry_handler c namespace (at c namespace d s) w).1
  unfolding build_driver_agent_daemon_set build_device_plugin_daemon_set
      build_retry_handler_daemon_set
  handler-acts s w on (a, p) e =
      let m = reconcile_retry_handler c namespace (at c namespace d s) in
      (
        handler-Keeps agent s (append_ne d.name "-driver-agent" "-retry-handler" refl) w a,
        only-Keeps Running d.spec.device_plugin.enabled plugin m
            (handler-Keeps plugin s (append_ne d.name "-device-plugin" "-retry-handler" refl)) w p,
        All-only Running handler_wanted handler (m w).1
            (λ wanted. handler-Runs s w (ground (arith, wanted)) e),
        All-only Calling hook_wanted hook (m w).1
            (λ wanted. hook-Calls s w (ground (arith, wanted)) e),
      )

  handler-LeadsTo : LeadsTo c namespace d WithPlugin Deployed (retry_handler_step c namespace)
  unfolding retry_handler_step
  handler-LeadsTo =
      optional-LeadsTo c namespace d WithPlugin WithHandler Deployed
        condition_type_retry_handler_ready "RetryHandlerFailed" "Retry handler is ready"
        (reconcile_retry_handler c namespace) (metrics_exporter_step c namespace)
        d.spec.retry_handler.enabled handler-acts
        (λ w off (a, p). (
          a,
          p,
          All-only Running handler_wanted handler w (λ wanted. ground (arith, off, wanted)),
          All-only Calling hook_wanted hook w (λ wanted. ground (arith, off, wanted)),
        ))
        exporter-LeadsTo

  plugin-acts :
      (s : CxiDriverStatus) (w : W)
      → Running agent w
      → (reconcile_device_plugin c namespace (at c namespace d s) w).0 ≡ none
      → WithPlugin (reconcile_device_plugin c namespace (at c namespace d s) w).1
  unfolding reconcile_device_plugin build_driver_agent_daemon_set build_device_plugin_daemon_set
  plugin-acts s w a e = (
    others agent plugin s (append_ne d.name "-driver-agent" "-device-plugin" refl) w a,
    All-only Running d.spec.device_plugin.enabled plugin _
        (λ on. apply-Runs c laws namespace (at c namespace d s) plugin w e),
  )

  pub plugin-LeadsTo :
      LeadsTo c namespace d (Running agent) Deployed (device_plugin_step c namespace)
  unfolding device_plugin_step
  plugin-LeadsTo =
      optional-LeadsTo c namespace d (Running agent) WithPlugin Deployed
        condition_type_device_plugin_ready "DevicePluginFailed" "Device plugin DaemonSet is ready"
        (reconcile_device_plugin c namespace) (retry_handler_step c namespace)
        d.spec.device_plugin.enabled (λ s w on. plugin-acts s w)
        (λ w off a. (a, All-only Running d.spec.device_plugin.enabled plugin w (λ on. cc)))
        handler-LeadsTo

  pub agent-acts :
      (s : CxiDriverStatus) (w : W)
      → Unit {0}
      → (reconcile_driver_agent c namespace (at c namespace d s) w).0 ≡ none
      → Running agent (reconcile_driver_agent c namespace (at c namespace d s) w).1
  unfolding reconcile_driver_agent build_driver_agent_daemon_set
  agent-acts s w _ e = apply-Runs c laws namespace (at c namespace d s) agent w e
