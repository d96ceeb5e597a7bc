-- ===== src/Api.antt =====
-- api/v1/cxidriver_types.go and cxidevice_types.go: the custom resources. An enum of the API is a
-- string type in Go, so any text may stand in such a field.
pub mod Device
use slingshot_operator.Prelude.{ℕ, String, Bool, List, Option}
use slingshot_operator.Prelude.Dict.{Dict}
use slingshot_operator.Prelude.Int.{ℤ}

abbrev pub driver_source_dkms : String
driver_source_dkms = "dkms"

abbrev pub driver_source_prebuilt : String
driver_source_prebuilt = "prebuilt"

abbrev pub driver_source_preinstalled : String
driver_source_preinstalled = "preinstalled"

abbrev pub retry_handler_mode_daemon_set : String
retry_handler_mode_daemon_set = "daemonset"

abbrev pub retry_handler_mode_sidecar : String
retry_handler_mode_sidecar = "sidecar"

abbrev pub retry_handler_mode_kernel : String
retry_handler_mode_kernel = "kernel"

abbrev pub retry_handler_mode_none : String
retry_handler_mode_none = "none"

abbrev pub device_sharing_mode_shared : String
device_sharing_mode_shared = "shared"

abbrev pub device_sharing_mode_exclusive : String
device_sharing_mode_exclusive = "exclusive"

-- `corev1.ResourceRequirements`, each quantity as its text.
pub record ResourceRequirements : Type 0 where
  pub requests : Dict String
  pub limits : Dict String

-- The explicit repositories are read by no code and left out.
pub record DkmsSourceSpec : Type 0 where
  pub tag : String
  pub platform : String

pub record DriverSourceSpec : Type 0 where
  pub source_type : String
  pub repository : String
  pub prebuilt_cache : String
  pub dkms : Option DkmsSourceSpec

-- The node selector and the tolerations of the DaemonSet are read by no code and left out.
pub record RetryHandlerSpec : Type 0 where
  pub enabled : Bool
  pub mode : String
  pub image : String
  pub daemon_set : Option ResourceRequirements
  pub sidecar : Option ResourceRequirements

pub record DevicePluginSpec : Type 0 where
  pub enabled : Bool
  pub resource_name : String
  pub image : String
  pub sharing_mode : String
  pub shared_capacity : ℤ  -- int32

pub record MetricsExporterSpec : Type 0 where
  pub enabled : Bool
  pub image : String
  pub port : ℤ  -- int32
  pub resources : ResourceRequirements

pub record UpdateStrategySpec : Type 0 where
  pub strategy_type : String
  pub max_unavailable : String
  pub rollback_on_failure : Bool
  pub health_check_timeout : String

pub record CxiDriverSpec : Type 0 where
  pub version : String
  pub source : DriverSourceSpec
  pub retry_handler : RetryHandlerSpec
  pub device_plugin : DevicePluginSpec
  pub metrics_exporter : MetricsExporterSpec
  pub node_selector : Dict String
  pub update_strategy : UpdateStrategySpec

-- `metav1.Condition`, without the times that the library stamps.
pub record Condition : Type 0 where
  pub condition_type : String
  pub status : String
  pub reason : String
  pub message : String

pub record CxiDriverStatus : Type 0 where
  pub observed_generation : ℕ
  pub ready : ℤ  -- int32
  pub updating : ℤ  -- int32
  pub failed : ℤ  -- int32
  pub driver_version : String
  pub retry_handler_mode : String
  pub webhook_ready : Bool
  pub conditions : List Condition

-- The resource is cluster-scoped, so its name is its key.
pub record CxiDriver : Type 0 where
  pub name : String
  pub generation : ℕ
  pub deletion_timestamp : Option String
  pub finalizers : List String
  pub spec : CxiDriverSpec
  pub status : CxiDriverStatus
