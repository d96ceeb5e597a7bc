-- ===== src/Controller/Singleton/Laws.antt =====
-- What the reconciler relies on of the client, while no one else writes to the singleton ConfigMap:
-- reads change nothing, a write that succeeds is what the next read finds, and the drivers are not
-- touched by it.
use slingshot_operator.Prelude.{String, ◌≡◌, none}
use slingshot_operator.Kube.Workload.{ConfigMap}
use slingshot_operator.Kube.Client.{found, Client}

module _ {W : Type 0} where
  pub record SingletonLaws (c : Client W) : Type 0 where
    pub get_config_map-pure :
        (namespace name : String) (w : W) → (c.get_config_map namespace name w).1 ≡ w
    pub get_driver-pure : (name : String) (w : W) → (c.get_driver name w).1 ≡ w
    pub found_key :
        (namespace name : String) (w : W) (cm : ConfigMap)
        → (c.get_config_map namespace name w).0 ≡ found cm
        → (cm.namespace ≡ namespace) × (cm.name ≡ name)
    pub get-create :
        (cm : ConfigMap) (w : W)
        → (c.create_config_map cm w).0 ≡ none
        → (c.get_config_map cm.namespace cm.name (c.create_config_map cm w).1).0 ≡ found cm
    pub get-update :
        (cm : ConfigMap) (w : W)
        → (c.update_config_map cm w).0 ≡ none
        → (c.get_config_map cm.namespace cm.name (c.update_config_map cm w).1).0 ≡ found cm
