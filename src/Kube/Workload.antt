-- ===== src/Kube/Workload.antt =====
-- The fields of Kubernetes objects that internal/controller and pkg/webhook write.
use slingshot_operator.Prelude.{ℕ, String, Bool, List, [], Option}
use slingshot_operator.Prelude.Dict.{Dict}
use slingshot_operator.Prelude.Int.{ℤ}
use slingshot_operator.Api.{ResourceRequirements}

-- A value, or the path of a field of the pod for `ValueFrom.FieldRef`.
pub record EnvVar : Type 0 where
  pub name : String
  pub value : String
  pub field_path : Option String

pub record ContainerPort : Type 0 where
  pub name : String
  pub container_port : ℤ
  pub protocol : String

-- An HTTP probe; a time that is not set is 0.
pub record Probe : Type 0 where
  pub path : String
  pub port : ℤ
  pub initial_delay_seconds : ℕ
  pub period_seconds : ℕ
  pub timeout_seconds : ℕ

pub record VolumeMount : Type 0 where
  pub name : String
  pub mount_path : String
  pub read_only : Bool

-- A volume and the path on the host, none for another source.
pub record Volume : Type 0 where
  pub name : String
  pub host_path : Option String

pub record SecurityContext : Type 0 where
  pub privileged : Option Bool
  pub run_as_user : Option ℕ
  pub capabilities : List String

pub record Container : Type 0 where
  pub name : String
  pub image : String
  pub args : List String
  pub env : List EnvVar
  pub ports : List ContainerPort
  pub security_context : Option SecurityContext
  pub liveness_probe : Option Probe
  pub readiness_probe : Option Probe
  pub resources : ResourceRequirements
  pub volume_mounts : List VolumeMount
  pub restart_policy : Option String

abbrev pub no_resources : ResourceRequirements
no_resources = record { requests = []; limits = [] }

pub record PodSpec : Type 0 where
  pub host_pid : Bool
  pub node_selector : Dict String
  pub init_containers : List Container
  pub containers : List Container
  pub volumes : List Volume

pub record Pod : Type 0 where
  pub labels : Dict String
  pub annotations : Dict String
  pub spec : PodSpec

pub record DaemonSetSpec : Type 0 where
  pub match_labels : Dict String
  pub template : Pod

pub record DaemonSetStatus : Type 0 where
  pub number_ready : ℤ  -- int32
  pub desired_number_scheduled : ℤ  -- int32
  pub number_unavailable : ℤ  -- int32

pub record DaemonSet : Type 0 where
  pub name : String
  pub namespace : String
  pub labels : Dict String
  pub owner : Option String
  pub spec : DaemonSetSpec
  pub status : DaemonSetStatus

-- One webhook of a `MutatingWebhookConfiguration`.
pub record MutatingWebhook : Type 0 where
  pub name : String
  pub service_name : String
  pub service_namespace : String
  pub service_path : String
  pub operations : List String
  pub api_groups : List String
  pub api_versions : List String
  pub resources : List String
  pub failure_policy : String
  pub side_effects : String
  pub match_policy : String
  pub admission_review_versions : List String
  pub selector_key : String
  pub selector_operator : String
  pub selector_values : List String

pub record WebhookConfiguration : Type 0 where
  pub name : String
  pub labels : Dict String
  pub annotations : Dict String
  pub webhooks : List MutatingWebhook

pub record ConfigMap : Type 0 where
  pub name : String
  pub namespace : String
  pub labels : Dict String
  pub entries : Dict String
