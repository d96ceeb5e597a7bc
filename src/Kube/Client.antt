-- ===== src/Kube/Client.antt =====
-- The client of sigs.k8s.io/controller-runtime and the helpers of its libraries, which are not part of
-- the repository: an interface over the type `W` of the cluster's states.
use slingshot_operator.Prelude.{◌≡◌, refl, String, Bool, List, ◌⊎◌, inl, inr}
use slingshot_operator.Api.{CxiDriver, Condition}
use slingshot_operator.Kube.Workload.{DaemonSet, WebhookConfiguration, ConfigMap}
-- A call may read and change the cluster. A write answers with the text of its error, if it fails.
pub use slingshot_operator.Prelude.Action.{Action, Error, ◌>>=◌, ◌>>◌, pure}

-- The answer of `Get`, with the text of an error that is not NotFound.
pub data Fetch (A : Type 0) : Type 0 where
  found : A → Fetch A
  not_found : Fetch A
  failed : String → Fetch A

pub Fetch-cases :
    {A : Type 0} (r : Fetch A)
    → (r ≡ not_found) ⊎ ((m : String) × (r ≡ failed m)) ⊎ ((a : A) × (r ≡ found a))
Fetch-cases not_found = inl refl
Fetch-cases (failed m) = inr (inl (m, refl))
Fetch-cases (found a) = inr (inr (a, refl))

-- The answer of `Delete`.
pub data Removal : Type 0 where
  removed : Removal
  missing : Removal
  kept : String → Removal

pub record Client (W : Type 0) : Type 0 where
  pub get_driver : String → Action W (Fetch CxiDriver)
  pub update_driver : CxiDriver → Action W Error
  pub update_driver_status : CxiDriver → Action W Error
  pub get_daemon_set : String → String → Action W (Fetch DaemonSet)
  pub create_daemon_set : DaemonSet → Action W Error
  pub update_daemon_set : DaemonSet → Action W Error
  pub get_webhook : String → Action W (Fetch WebhookConfiguration)
  pub create_webhook : WebhookConfiguration → Action W Error
  pub update_webhook : WebhookConfiguration → Action W Error
  pub delete_webhook : WebhookConfiguration → Action W Removal
  pub get_config_map : String → String → Action W (Fetch ConfigMap)
  pub create_config_map : ConfigMap → Action W Error
  pub update_config_map : ConfigMap → Action W Error
  -- retry.RetryOnConflict with its default back-off
  pub retry_on_conflict : Action W Error → Action W Error
  -- controllerutil.SetControllerReference: the error, or the object with its owner
  pub set_controller_reference : CxiDriver → DaemonSet → Error × DaemonSet
  -- meta.SetStatusCondition and meta.RemoveStatusCondition
  pub set_status_condition : Condition → List Condition → List Condition
  pub remove_status_condition : String → List Condition → List Condition
  -- controllerutil.ContainsFinalizer, AddFinalizer and RemoveFinalizer
  pub contains_finalizer : String → CxiDriver → Bool
  pub add_finalizer : String → CxiDriver → CxiDriver
  pub remove_finalizer : String → CxiDriver → CxiDriver
