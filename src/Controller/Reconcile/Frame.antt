-- ===== src/Controller/Reconcile/Frame.antt =====
-- Which runs of `Reconcile` leave the workloads of the cluster alone.
use slingshot_operator.Prelude.{
  ◌≡◌, ◌≢◌, String, Bool, true, false, none, some, ◌⊎◌, inl, inr, Option-cases, arith,
}
use slingshot_operator.Api.{CxiDriver}
use slingshot_operator.Kube.Client.{Error, Client}
use slingshot_operator.Kube.Frame.{Keeps, IsWorkloadProperty}
use slingshot_operator.Controller.Singleton.{is_active_cxi_driver}
use slingshot_operator.Controller.Singleton.Frame.{
  Keeps-get_active, Keeps-set_active, Keeps-is_active,
}
use slingshot_operator.Controller.Webhook.{cleanup_resources}
use slingshot_operator.Controller.Status.{write_status, update_status_with_retry}
use slingshot_operator.Controller.Reconcile.{
  cxi_driver_finalizer, release, finalize, reconcile_deletion, ignore_driver, reconcile_active,
  decide, reconcile_driver,
}

module _ {W : Type 0} (c : Client W) (namespace : String) (P : W → Type 0)
    (keeps : IsWorkloadProperty c P) where
  Keeps-cleanup : (d : CxiDriver) → Keeps P (cleanup_resources c d)
  unfolding cleanup_resources
  Keeps-cleanup d w h = grind (arith, keeps.get_webhook, keeps.delete_webhook)

  pub Keeps-write_status : (d : CxiDriver) → Keeps P (write_status c d)
  unfolding write_status
  Keeps-write_status d w h = grind (arith, keeps.get_driver, keeps.update_driver_status)

  pub Keeps-update_status : (d : CxiDriver) → Keeps P (update_status_with_retry c d)
  unfolding update_status_with_retry
  Keeps-update_status d w h =
      let d' = record d { status = record (d.status) { observed_generation = d.generation } } in
      let k = keeps.retry_on_conflict (write_status c d') (Keeps-write_status d') w h in
      ground (arith, k)

  Keeps-release : (n : String) → Keeps P (release c namespace n)
  unfolding release
  Keeps-release n w h =
      let k = Keeps-get_active c namespace P keeps w h in
      ground (arith, k, Keeps-set_active c namespace P keeps "" _ k)

  Keeps-finalize : (d : CxiDriver) → Keeps P (finalize c namespace d)
  unfolding finalize
  Keeps-finalize d w h = grind (arith, Keeps-cleanup, Keeps-release, keeps.update_driver)

  pub Keeps-deletion : (d : CxiDriver) → Keeps P (reconcile_deletion c namespace d)
  unfolding reconcile_deletion
  Keeps-deletion d w h = ground (arith, Keeps-finalize d w h)

  pub Keeps-ignore : (d : CxiDriver) → Keeps P (ignore_driver c namespace d)
  unfolding ignore_driver
  Keeps-ignore d w h = Keeps-update_status _ _ (Keeps-get_active c namespace P keeps w h)

  Keeps-add_finalizer :
      (d : CxiDriver)
      → c.contains_finalizer cxi_driver_finalizer d ≡ false
      → Keeps P (reconcile_active c namespace d)
  unfolding reconcile_active
  Keeps-add_finalizer d f w h = grind (arith, keeps.update_driver)

  Keeps-decide :
      (d : CxiDriver) (b : Bool) (e : Error)
      → (c.contains_finalizer cxi_driver_finalizer d ≡ false) ⊎ (b ≡ false)
      → Keeps P (decide c namespace d (b, e))
  unfolding decide
  Keeps-decide d b (some m) why w h = h
  Keeps-decide d false none why w h = Keeps-ignore d w h
  Keeps-decide d true none (inl f) w h = Keeps-add_finalizer d f w h
  Keeps-decide d true none (inr f) w h = cc

  Keeps-live :
      (d : CxiDriver) (w : W)
      → (c.contains_finalizer cxi_driver_finalizer d ≡ false)
        ⊎ ((is_active_cxi_driver c namespace d.name w).0.0 ≡ false)
      → P w
      → let (a, w') = is_active_cxi_driver c namespace d.name w in P (decide c namespace d a w').1
  Keeps-live d w why h =
      let (a, w') = is_active_cxi_driver c namespace d.name w in
      Keeps-decide d a.0 a.1 why w' (Keeps-is_active c namespace P keeps d.name w h)

  -- A run for a driver that is being deleted, that has no finalizer yet, or that is not the active
  -- one keeps every property of the cluster's workloads: it creates and updates no DaemonSet and no
  -- webhook.
  pub no_workload :
      (d : CxiDriver) (w : W)
      → (d.deletion_timestamp ≢ none)
        ⊎ (c.contains_finalizer cxi_driver_finalizer d ≡ false)
        ⊎ ((is_active_cxi_driver c namespace d.name w).0.0 ≡ false)
      → P w
      → P (reconcile_driver c namespace d w).1
  unfolding reconcile_driver
  no_workload d w why h = elim (Option-cases d.deletion_timestamp) [
    | inr (t, e) ↦ rw (e, reconcile_driver) (Keeps-deletion d w h)
    | inl e ↦
        rw (e, reconcile_driver)
          (elim why [ inl gone ↦ absurd (gone e) | inr more ↦ Keeps-live d w more h ])
  ]
