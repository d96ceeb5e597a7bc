-- ===== src/Controller/Singleton/Frame.antt =====
-- Claiming and releasing the singleton leaves the workloads of the cluster alone.
use slingshot_operator.Prelude.{String, none, some, arith}
use slingshot_operator.Kube.Workload.{ConfigMap}
use slingshot_operator.Kube.Client.{Error, Client}
use slingshot_operator.Kube.Frame.{Keeps, IsWorkloadProperty}
use slingshot_operator.Controller.Singleton.{
  get_active_cxi_driver, set_active_cxi_driver, is_active_cxi_driver, create_active, update_active,
  claim, check_other, decide_active,
}

module _ {W : Type 0} (c : Client W) (namespace : String) (P : W → Type 0)
    (keeps : IsWorkloadProperty c P) where
  pub Keeps-get_active : Keeps P (get_active_cxi_driver c namespace)
  unfolding get_active_cxi_driver
  Keeps-get_active w h = grind (arith, keeps.get_config_map)

  Keeps-create : (n : String) → Keeps P (create_active c namespace n)
  unfolding create_active
  Keeps-create n w h = keeps.create_config_map _ w h

  Keeps-update : (n : String) (x : ConfigMap) → Keeps P (update_active c namespace n x)
  unfolding update_active
  Keeps-update n x w h = keeps.update_config_map _ w h

  pub Keeps-set_active : (n : String) → Keeps P (set_active_cxi_driver c namespace n)
  unfolding set_active_cxi_driver
  Keeps-set_active n w h = grind (arith, Keeps-create, Keeps-update, keeps.get_config_map)

  Keeps-claim : (n : String) → Keeps P (claim c namespace n)
  unfolding claim
  Keeps-claim n w h = grind (arith, Keeps-set_active)

  Keeps-check_other : (a n : String) → Keeps P (check_other c namespace a n)
  unfolding check_other
  Keeps-check_other a n w h = grind (arith, Keeps-claim, keeps.get_driver)

  Keeps-decide : (n : String) (a : String × Error) → Keeps P (decide_active c namespace n a)
  unfolding decide_active
  Keeps-decide n (a, some m) w h = h
  Keeps-decide n (a, none) w h = grind (arith, Keeps-claim, Keeps-check_other)

  pub Keeps-is_active : (n : String) → Keeps P (is_active_cxi_driver c namespace n)
  unfolding is_active_cxi_driver
  Keeps-is_active n w h =
      Keeps-decide n (get_active_cxi_driver c namespace w).0 _ (Keeps-get_active w h)
