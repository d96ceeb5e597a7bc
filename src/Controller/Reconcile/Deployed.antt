-- ===== src/Controller/Reconcile/Deployed.antt =====
-- What the cluster runs after a run for the active driver.
use mathlib.Core.Path.{subst}
use slingshot_operator.Prelude.{◌≡◌, sym, ap, ◌∙◌, String, true, List, none, All, arith}
use slingshot_operator.Api.{CxiDriver}
use slingshot_operator.Kube.Workload.{DaemonSet, DaemonSetSpec, MutatingWebhook}
use slingshot_operator.Kube.Client.{Client}
use slingshot_operator.Controller.Apply.{reconcile_driver_agent}
use slingshot_operator.Controller.Apply.Deploys.{DeployLaws}
use slingshot_operator.Controller.Conditions.{
  condition_type_driver_agent_ready, condition_type_progressing, condition_true, set_condition,
}
use slingshot_operator.Controller.Singleton.{is_active_cxi_driver}
use slingshot_operator.Controller.Status.{Result}
use slingshot_operator.Controller.Reconcile.{
  cxi_driver_finalizer, device_plugin_step, reconcile_components, reconcile_active, decide,
  reconcile_driver,
}
use slingshot_operator.Controller.Reconcile.Wanted.{
  only, wanted_daemon_sets, wanted_webhooks, All-append,
}
use slingshot_operator.Controller.Reconcile.Steps.{
  Running, Calling, Deployed, agent, plugin, handler, handler_wanted, agent-acts, plugin-LeadsTo,
}
use slingshot_operator.Controller.Reconcile.Component.{NotFailed, component-LeadsTo}

module _ {W : Type 0} (c : Client W) {Runs : String → String → DaemonSetSpec → W → Type 0}
    {Calls : String → List MutatingWebhook → W → Type 0} (laws : DeployLaws c Runs Calls)
    (namespace : String) (d : CxiDriver) where
  components-Deployed :
      (w : W)
      → NotFailed (reconcile_components c namespace d w)
      → Deployed c laws namespace d (reconcile_components c namespace d w).1
  unfolding reconcile_components set_condition
  components-Deployed w ok =
      let d' =
        set_condition c condition_type_progressing condition_true "Reconciling"
          "Reconciling CXIDriver resources" d in
      component-LeadsTo c namespace d (λ _. Unit {0})
        (Running c laws namespace d (agent c laws namespace d)) (Deployed c laws namespace d)
        condition_type_driver_agent_ready "DriverAgentFailed" "Driver agent DaemonSet is ready"
        (reconcile_driver_agent c namespace) (device_plugin_step c namespace)
        (agent-acts c laws namespace d) (plugin-LeadsTo c laws namespace d) d'.status w tt ok

  active-Deployed :
      (w : W)
      → c.contains_finalizer cxi_driver_finalizer d ≡ true
      → NotFailed (reconcile_active c namespace d w)
      → Deployed c laws namespace d (reconcile_active c namespace d w).1
  unfolding reconcile_active
  active-Deployed w f ok = ground (arith, f, components-Deployed w)

  -- The specification of a driver is met.
  abbrev pub AsSpecified : W → Type 0
  AsSpecified w =
      All (λ x. Running c laws namespace d x w) (wanted_daemon_sets namespace d)
      × All (λ x. Calling c laws namespace d x w) (wanted_webhooks namespace d)

  specified : (w : W) → Deployed c laws namespace d w → AsSpecified w
  specified w (a, p, h, k, e) =
      let R = λ (x : DaemonSet). Running c laws namespace d x w in
      let rest =
        All-append R (only (handler_wanted c laws namespace d) (handler c laws namespace d)) _ h
          e in
      (
        (a, All-append R (only d.spec.device_plugin.enabled (plugin c laws namespace d)) _ p rest),
        k,
      )

  -- Under the laws of the client, a run for the active driver, which is not being deleted and has its
  -- finalizer, either asks to be repeated after 30 seconds, or afterwards the cluster runs all
  -- DaemonSets and calls all webhooks that the driver asks for, as they are specified: the driver
  -- agent, and each other component that is enabled, the retry handler by its mode.
  pub reconcile_deploys :
      (w : W)
      → d.deletion_timestamp ≡ none
      → (is_active_cxi_driver c namespace d.name w).0 ≡ (true, none)
      → c.contains_finalizer cxi_driver_finalizer d ≡ true
      → NotFailed (reconcile_driver c namespace d w)
      → AsSpecified (reconcile_driver c namespace d w).1
  unfolding reconcile_driver decide
  reconcile_deploys w live active f ok =
      let w' = (is_active_cxi_driver c namespace d.name w).1 in
      let same : reconcile_driver c namespace d w ≡ reconcile_active c namespace d w' =
        ground (arith, live, active) in
      let deployed =
        active-Deployed w' f (λ failed. ok (ap (λ (r : Result × W). r.0) same ∙ failed)) in
      subst (λ (r : Result × W). AsSpecified r.1) (sym same) (specified _ deployed)
