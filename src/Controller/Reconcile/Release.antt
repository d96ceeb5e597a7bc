-- ===== src/Controller/Reconcile/Release.antt =====
-- The singleton after a driver is gone.
use slingshot_operator.Prelude.{◌≡◌, String, false, none, str_eq, eq_refl, arith}
use slingshot_operator.Prelude.Dict.{get}
use slingshot_operator.Kube.Workload.{ConfigMap}
use slingshot_operator.Kube.Client.{found, not_found, Client, Error}
use slingshot_operator.Controller.Singleton.{set_active_cxi_driver, singleton_active_key}
use slingshot_operator.Controller.Singleton.Laws.{SingletonLaws}
use slingshot_operator.Controller.Singleton.Exclusion.{
  read, active, active_of_read, active-clear, get_active-pure,
}
use slingshot_operator.Controller.Status.{finished}
use slingshot_operator.Controller.Reconcile.{release, reconcile}

module _ {W : Type 0} (c : Client W) (laws : SingletonLaws c) (namespace : String) where
  -- Under the laws of the client, a run for a driver that is gone gives the singleton up if the
  -- driver is the active one and the ConfigMap can be written: no driver is active afterwards.
  pub gone_frees :
      (name : String) (cm : ConfigMap) (w : W)
      → (c.get_driver name w).0 ≡ not_found
      → read c namespace w ≡ found cm
      → get singleton_active_key cm.entries ≡ name
      → (set_active_cxi_driver c namespace "" w).0 ≡ none
      → active c namespace (reconcile c namespace name w).1 ≡ ("", none)
  unfolding reconcile release
  gone_frees name cm w g r own ok = ground (
    arith,
    laws.get_driver-pure name w,
    get_active-pure c laws namespace w,
    active_of_read c laws namespace w cm r,
    eq_refl name,
    active-clear c laws namespace w cm r ok,
  )

  -- Under the laws of the client, a run for a driver that is gone and is not the active one changes
  -- nothing.
  pub gone_keeps :
      (name active_name : String) (e : Error) (w : W)
      → (c.get_driver name w).0 ≡ not_found
      → active c namespace w ≡ (active_name, e)
      → str_eq active_name name ≡ false
      → reconcile c namespace name w ≡ (finished, w)
  unfolding reconcile release
  gone_keeps name active_name e w g a differ =
      ground (arith, laws.get_driver-pure name w, get_active-pure c laws namespace w)
