-- ===== src/Kube/Frame.antt =====
-- Properties of the cluster that calls of the client leave alone.
use slingshot_operator.Prelude.{String}
use slingshot_operator.Api.{CxiDriver}
use slingshot_operator.Kube.Workload.{ConfigMap, WebhookConfiguration}
use slingshot_operator.Kube.Client.{Action, Error, Client}

module _ {W : Type 0} where
  -- An action keeps a property of the cluster, whatever it answers.
  abbrev pub Keeps : (W → Type 0) → {A : Type 0} → Action W A → Type 0
  Keeps P m = (w : W) → P w → P (m w).1

  -- A property that no call touches but those that write DaemonSets or create or update webhooks.
  pub record IsWorkloadProperty (c : Client W) (P : W → Type 0) : Type 0 where
    pub get_driver : (n : String) → Keeps P (c.get_driver n)
    pub update_driver : (d : CxiDriver) → Keeps P (c.update_driver d)
    pub update_driver_status : (d : CxiDriver) → Keeps P (c.update_driver_status d)
    pub get_webhook : (n : String) → Keeps P (c.get_webhook n)
    pub delete_webhook : (x : WebhookConfiguration) → Keeps P (c.delete_webhook x)
    pub get_config_map : (n m : String) → Keeps P (c.get_config_map n m)
    pub create_config_map : (x : ConfigMap) → Keeps P (c.create_config_map x)
    pub update_config_map : (x : ConfigMap) → Keeps P (c.update_config_map x)
    pub retry_on_conflict : (m : Action W Error) → Keeps P m → Keeps P (c.retry_on_conflict m)
