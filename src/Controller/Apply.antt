-- ===== src/Controller/Apply.antt =====
-- internal/controller/cxidriver_controller.go: `reconcileDriverAgent`, `reconcileDevicePlugin`,
-- `reconcileRetryHandler` and `reconcileMetricsExporter`, which create or update a DaemonSet.
pub mod Deploys
use Prim.Native.String.{◌++◌ as cat}
use slingshot_operator.Prelude.{String, ◌||◌, none, some, str_eq, if◌then◌else◌}
use slingshot_operator.Api.{
  CxiDriver, retry_handler_mode_daemon_set, retry_handler_mode_sidecar, retry_handler_mode_kernel,
  retry_handler_mode_none,
}
use slingshot_operator.Kube.Workload.{DaemonSet}
use slingshot_operator.Kube.Client.{found, not_found, failed, Action, Error, Client, pure, ◌>>=◌}
use slingshot_operator.Controller.Singleton.{wrap}
use slingshot_operator.Controller.Webhook.{reconcile_sidecar_webhook}
use slingshot_operator.Controller.DaemonSets.DriverAgent.{build_driver_agent_daemon_set}
use slingshot_operator.Controller.DaemonSets.DevicePlugin.{build_device_plugin_daemon_set}
use slingshot_operator.Controller.DaemonSets.RetryHandler.{build_retry_handler_daemon_set}
use slingshot_operator.Controller.DaemonSets.MetricsExporter.{build_metrics_exporter_daemon_set}

-- `fmt.Errorf("<what> DaemonSet <name>: %w", err)`
abbrev pub about : String → String → String
about what name = cat what (cat " DaemonSet " (cat name ": "))

module _ {W : Type 0} (c : Client W) (namespace : String) where
  -- The object that is there keeps all but its spec.
  unfoldable pub create_or_update : DaemonSet → Action W Error
  create_or_update ds = do
    r ← c.get_daemon_set ds.namespace ds.name
    elim r [
      | not_found ↦ (do e ← c.create_daemon_set ds; pure (wrap (about "creating" ds.name) e))
      | failed e ↦ pure (some (cat (about "getting" ds.name) e))
      | found existing ↦ (do
        e ← c.update_daemon_set (record existing { spec = ds.spec })
        pure (wrap (about "updating" ds.name) e))
    ]

  -- The body that the four functions share.
  unfoldable pub apply_daemon_set : CxiDriver → DaemonSet → Action W Error
  unfolding create_or_update
  apply_daemon_set d ds =
      let (e, owned) = c.set_controller_reference d ds in
      elim e [
        | some m ↦ pure (some (cat "setting controller reference: " m))
        | none ↦ create_or_update owned
      ]

  unfoldable pub reconcile_driver_agent : CxiDriver → Action W Error
  unfolding apply_daemon_set
  reconcile_driver_agent d = apply_daemon_set d (build_driver_agent_daemon_set namespace d)

  unfoldable pub reconcile_device_plugin : CxiDriver → Action W Error
  unfolding apply_daemon_set
  reconcile_device_plugin d = apply_daemon_set d (build_device_plugin_daemon_set namespace d)

  unfoldable pub reconcile_metrics_exporter : CxiDriver → Action W Error
  unfolding apply_daemon_set
  reconcile_metrics_exporter d = apply_daemon_set d (build_metrics_exporter_daemon_set namespace d)

  pub sidecar_webhook : CxiDriver → Action W Error
  sidecar_webhook d = do
    e ← reconcile_sidecar_webhook c namespace d
    pure (wrap "reconciling sidecar webhook: " e)

  unfoldable pub reconcile_retry_handler : CxiDriver → Action W Error
  unfolding apply_daemon_set sidecar_webhook
  reconcile_retry_handler d =
      let mode = d.spec.retry_handler.mode in
      if str_eq mode retry_handler_mode_daemon_set || str_eq mode ""
      then apply_daemon_set d (build_retry_handler_daemon_set namespace d)
      else if str_eq mode retry_handler_mode_sidecar
      then sidecar_webhook d
      else if str_eq mode retry_handler_mode_kernel
      then pure none
      else if str_eq mode retry_handler_mode_none
      then pure none
      else pure (some (cat "unknown retry handler mode: " mode))
