-- ===== src/Controller/Reconcile/Wanted.antt =====
-- The DaemonSets and webhooks that a driver asks for.
use Prim.Native.String.{◌++◌ as cat}
use slingshot_operator.Prelude.{
  ◌≡◌, refl, String, Bool, true, false, ◌&&◌, ◌||◌, List, [], ◌∷◌, ◌++◌, All, str_eq, if◌then◌else◌,
  arith,
}
use slingshot_operator.Api.{CxiDriver, retry_handler_mode_daemon_set, retry_handler_mode_sidecar}
use slingshot_operator.Kube.Workload.{DaemonSet, WebhookConfiguration}
use slingshot_operator.Kube.Client.{Action, Client}
use slingshot_operator.Kube.Frame.{Keeps}
use slingshot_operator.Controller.Webhook.{sidecar_webhook_configuration}
use slingshot_operator.Controller.DaemonSets.DriverAgent.{build_driver_agent_daemon_set}
use slingshot_operator.Controller.DaemonSets.DevicePlugin.{build_device_plugin_daemon_set}
use slingshot_operator.Controller.DaemonSets.RetryHandler.{build_retry_handler_daemon_set}
use slingshot_operator.Controller.DaemonSets.MetricsExporter.{build_metrics_exporter_daemon_set}
use slingshot_operator.Controller.Apply.Deploys.{IsSettled}
use slingshot_operator.Controller.Status.{
  write_status, update_status, count_nodes, record_counts, condition_by_counts,
}
use slingshot_operator.Controller.Reconcile.{finish}

abbrev pub only : {A : Type 0} → Bool → A → List A
only wanted x = if wanted then x ∷ [] else []

abbrev pub as_daemon_set : CxiDriver → Bool
as_daemon_set d =
    let mode = d.spec.retry_handler.mode in
    str_eq mode retry_handler_mode_daemon_set || str_eq mode ""

-- The specification: the DaemonSets and the webhooks that a driver asks for.
abbrev pub wanted_daemon_sets : String → CxiDriver → List DaemonSet
wanted_daemon_sets namespace d =
    build_driver_agent_daemon_set namespace d
    ∷ (only d.spec.device_plugin.enabled (build_device_plugin_daemon_set namespace d)
        ++ (only (d.spec.retry_handler.enabled && as_daemon_set d)
              (build_retry_handler_daemon_set namespace d)
            ++ only d.spec.metrics_exporter.enabled
                (build_metrics_exporter_daemon_set namespace d)))

abbrev pub wanted_webhooks : String → CxiDriver → List WebhookConfiguration
wanted_webhooks namespace d =
    only
      (d.spec.retry_handler.enabled && str_eq d.spec.retry_handler.mode retry_handler_mode_sidecar)
      (sidecar_webhook_configuration namespace d)

pub All-append :
    {A : Type 0} (R : A → Type 0) (xs ys : List A) → All R xs → All R ys → All R (xs ++ ys)
All-append R [] ys p q = q
All-append R (x ∷ xs) ys (p, ps) q = (p, All-append R xs ys ps q)

module _ {W : Type 0} where
  pub All-only :
      {A : Type 0} (R : A → W → Type 0) (wanted : Bool) (x : A) (w : W)
      → (wanted ≡ true → R x w)
      → All (λ y. R y w) (only wanted x)
  All-only R true x w h = (h refl, tt)
  All-only R false x w h = tt

  pub only-Keeps :
      {A B : Type 0} (R : A → W → Type 0) (wanted : Bool) (x : A) (m : Action W B)
      → Keeps (R x) m
      → Keeps (λ w. All (λ y. R y w) (only wanted x)) m
  only-Keeps R true x m keeps w h = (keeps w h.0, tt)
  only-Keeps R false x m keeps w h = tt

module _ {W : Type 0} (c : Client W) (namespace : String) where
  write_status-Keeps :
      (P : W → Type 0) → IsSettled c P → (d' : CxiDriver) → Keeps P (write_status c d')
  unfolding write_status
  write_status-Keeps P settled d' w h =
      grind (arith, settled.get_driver, settled.update_driver_status)

  -- The end of a run
  pub finish-Keeps :
      (P : W → Type 0) → IsSettled c P → (d' : CxiDriver) → Keeps P (finish c namespace d')
  unfolding finish update_status
  finish-Keeps P settled d' w h =
      let r = c.get_daemon_set namespace (cat d'.name "-driver-agent") w in
      let n = count_nodes r.0 in
      let d'' = condition_by_counts c n (record_counts n d') in
      let k =
        settled.retry_on_conflict (write_status c d'') (write_status-Keeps P settled d'') r.1
          (settled.get_daemon_set namespace (cat d'.name "-driver-agent") w h) in
      ground (arith, k)
