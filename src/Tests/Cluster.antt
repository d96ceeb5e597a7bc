-- ===== src/Tests/Cluster.antt =====
-- A cluster in memory: an instance of the client's interface that meets the laws.
use slingshot_operator.Prelude.{
  ◌≡◌, refl, String, Bool, ◌&&◌, List, [], ◌∷◌, ◌++◌, Option, none, some, str_eq, eq_iff, eq_refl,
  if◌then◌else◌, mem, arith,
}
use slingshot_operator.Prelude.Dict.{Dict, lookup, insert}
use slingshot_operator.Api.{CxiDriver, Condition}
use slingshot_operator.Kube.Workload.{DaemonSet, WebhookConfiguration, ConfigMap}
use slingshot_operator.Kube.Client.{Fetch, found, not_found, removed, Action, Error, Client}
use slingshot_operator.Kube.Frame.{IsWorkloadProperty}
use slingshot_operator.Controller.Singleton.Laws.{SingletonLaws}
use slingshot_operator.Controller.Status.Laws.{ConditionLaws, find_condition}

pub record Cluster : Type 0 where
  pub drivers : Dict CxiDriver
  pub config_map : Option ConfigMap
  pub daemon_sets : List DaemonSet
  pub webhooks : List WebhookConfiguration

abbrev pub fetched : {A : Type 0} → Option A → Fetch A
fetched none = not_found
fetched (some a) = found a

abbrev pub has_key : String → String → ConfigMap → Bool
has_key namespace name cm = str_eq cm.namespace namespace && str_eq cm.name name

abbrev pub fetch_map : String → String → Option ConfigMap → Fetch ConfigMap
fetch_map namespace name none = not_found
fetch_map namespace name (some cm) = if has_key namespace name cm then found cm else not_found

abbrev pub find_daemon_set : String → String → List DaemonSet → Fetch DaemonSet
find_daemon_set namespace name [] = not_found
find_daemon_set namespace name (x ∷ xs) =
    if str_eq x.namespace namespace && str_eq x.name name
    then found x
    else find_daemon_set namespace name xs

abbrev pub find_webhook : String → List WebhookConfiguration → Fetch WebhookConfiguration
find_webhook name [] = not_found
find_webhook name (x ∷ xs) = if str_eq x.name name then found x else find_webhook name xs

abbrev pub without_webhook : String → List WebhookConfiguration → List WebhookConfiguration
without_webhook name [] = []
without_webhook name (x ∷ xs) =
    let rest = without_webhook name xs in if str_eq x.name name then rest else x ∷ rest

abbrev pub without_condition : String → List Condition → List Condition
without_condition kind [] = []
without_condition kind (x ∷ xs) =
    let rest = without_condition kind xs in if str_eq x.condition_type kind then rest else x ∷ rest

abbrev pub without_finalizer : String → List String → List String
without_finalizer f [] = []
without_finalizer f (x ∷ xs) =
    let rest = without_finalizer f xs in if str_eq x f then rest else x ∷ rest

abbrev pub put_driver : CxiDriver → Action Cluster Error
put_driver d w = (none, record w { drivers = insert d.name d w.drivers })

abbrev pub memory : Client Cluster
memory = record {
  get_driver = λ n w. (fetched (lookup n w.drivers), w);
  update_driver = put_driver;
  update_driver_status = put_driver;
  get_daemon_set = λ s n w. (find_daemon_set s n w.daemon_sets, w);
  create_daemon_set = λ x w. (none, record w { daemon_sets = x ∷ w.daemon_sets });
  update_daemon_set = λ x w. (none, record w { daemon_sets = x ∷ w.daemon_sets });
  get_webhook = λ n w. (find_webhook n w.webhooks, w);
  create_webhook = λ x w. (none, record w { webhooks = x ∷ w.webhooks });
  update_webhook = λ x w. (none, record w { webhooks = x ∷ w.webhooks });
  delete_webhook = λ x w. (removed, record w { webhooks = without_webhook x.name w.webhooks });
  get_config_map = λ s n w. (fetch_map s n w.config_map, w);
  create_config_map = λ x w. (none, record w { config_map = some x });
  update_config_map = λ x w. (none, record w { config_map = some x });
  retry_on_conflict = λ m. m;
  set_controller_reference = λ d x. (none, record x { owner = some d.name });
  set_status_condition = λ x xs. x ∷ without_condition x.condition_type xs;
  remove_status_condition = without_condition;
  contains_finalizer = λ f d. mem f d.finalizers;
  add_finalizer = λ f d. record d { finalizers = d.finalizers ++ f ∷ [] };
  remove_finalizer = λ f d. record d { finalizers = without_finalizer f d.finalizers };
}

find-without :
    (kind t : String) (xs : List Condition)
    → find_condition kind (without_condition t xs)
      ≡ (if str_eq t kind then none else find_condition kind xs)
unfolding find_condition
find-without kind t [] = ground arith
find-without kind t (x ∷ xs) = ground (
  arith,
  find-without kind t xs,
  eq_iff t kind,
  eq_iff x.condition_type t,
  eq_iff x.condition_type kind,
)

find-put :
    (kind : String) (x : Condition) (xs : List Condition)
    → find_condition kind (x ∷ without_condition x.condition_type xs)
      ≡ (if str_eq x.condition_type kind then some x else find_condition kind xs)
unfolding find_condition
find-put kind x xs = ground (arith, find-without kind x.condition_type xs)

pub memory-ConditionLaws : ConditionLaws memory
memory-ConditionLaws = record { find-set = find-put; find-remove = find-without }

fetched_key :
    (namespace name : String) (o : Option ConfigMap) (cm : ConfigMap)
    → fetch_map namespace name o ≡ found cm
    → (cm.namespace ≡ namespace) × (cm.name ≡ name)
fetched_key namespace name none cm h = cc
fetched_key namespace name (some x) cm h =
    ground (arith, eq_iff x.namespace namespace, eq_iff x.name name)

own_key : (cm : ConfigMap) → fetch_map cm.namespace cm.name (some cm) ≡ found cm
own_key cm = rw (eq_refl cm.namespace, eq_refl cm.name)

pub memory-SingletonLaws : SingletonLaws memory
memory-SingletonLaws = record {
  get_config_map-pure = λ s n w. refl;
  get_driver-pure = λ n w. refl;
  found_key = λ s n w cm h. fetched_key s n w.config_map cm h;
  get-create = λ cm w h. own_key cm;
  get-update = λ cm w h. own_key cm;
}

-- The DaemonSets of a cluster in memory are touched by their own writes only.
pub memory-IsWorkloadProperty :
    (xs : List DaemonSet) → IsWorkloadProperty memory (λ w. w.daemon_sets ≡ xs)
memory-IsWorkloadProperty xs = record {
  get_driver = λ n w h. h;
  update_driver = λ d w h. h;
  update_driver_status = λ d w h. h;
  get_webhook = λ n w h. h;
  delete_webhook = λ x w h. h;
  get_config_map = λ n m w h. h;
  create_config_map = λ x w h. h;
  update_config_map = λ x w h. h;
  retry_on_conflict = λ m k w h. k w h;
}
