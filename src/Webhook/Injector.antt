-- ===== src/Webhook/Injector.antt =====
-- pkg/webhook/sidecar_injector.go: the mutating webhook. The children prove what it makes of a pod.
pub mod Once
pub mod Shape
use Prim.Native.String.{◌++◌ as cat}
use slingshot_operator.Prelude.{
  ℕ, String, Bool, true, false, not, ◌&&◌, ◌||◌, List, [], ◌∷◌, ◌++◌, none, some, inl, inr, ltb,
  if◌then◌else◌, str_eq, starts_with, length, any, mem,
}
use slingshot_operator.Prelude.Dict.{Dict, lookup, insert, get}
use slingshot_operator.Kube.Workload.{Volume, Container, Pod}
use slingshot_operator.Webhook.Admission.{
  Response, errored, allowed, patch_response, Request, Codec,
}

abbrev pub annotation_inject_sidecar : String
annotation_inject_sidecar = "slingshot.hpe.com/inject-retry-handler"

abbrev pub annotation_sidecar_injected : String
annotation_sidecar_injected = "slingshot.hpe.com/retry-handler-injected"

abbrev pub label_managed_by : String
label_managed_by = "slingshot.hpe.com/managed-by"

abbrev pub default_retry_handler_image : String
default_retry_handler_image = "ghcr.io/sielicki/slingshot-operator/retry-handler:latest"

abbrev pub default_cxi_rh_path : String
default_cxi_rh_path = "/usr/bin/cxi_rh"

abbrev pub sidecar_container_name : String
sidecar_container_name = "cxi-retry-handler"

pub record SidecarInjectorConfig : Type 0 where
  pub retry_handler_image : String
  pub cxi_rh_path : String
  pub resource_name : String
  pub use_native_sidecar : Bool

abbrev filled : String → String → String
filled s d = if str_eq s "" then d else s

unfoldable pub new_sidecar_injector : SidecarInjectorConfig → SidecarInjectorConfig
new_sidecar_injector config = record config {
  retry_handler_image = filled config.retry_handler_image default_retry_handler_image;
  cxi_rh_path = filled config.cxi_rh_path default_cxi_rh_path;
  resource_name = filled config.resource_name "hpe.com/cxi";
}

abbrev pub is_cxi_resource : String → Bool
is_cxi_resource name = starts_with name "hpe.com/cxi"

abbrev pub container_requests_cxi : Container → Bool
container_requests_cxi c =
    any (λ (e : String × String). is_cxi_resource e.0) c.resources.limits
    || any (λ (e : String × String). is_cxi_resource e.0) c.resources.requests

abbrev pub requests_cxi_device : Pod → Bool
requests_cxi_device pod =
    any container_requests_cxi pod.spec.containers
    || any container_requests_cxi pod.spec.init_containers

unfoldable pub should_inject : Pod → Bool
should_inject pod = elim (lookup annotation_inject_sidecar pod.annotations) [
  | some val ↦ str_eq val "true" || str_eq val "enabled"
  | none ↦ requests_cxi_device pod
]

abbrev pub is_sidecar : Container → Bool
is_sidecar c = str_eq c.name sidecar_container_name

unfoldable pub already_injected : Pod → Bool
unfolding get
already_injected pod =
    str_eq (get annotation_sidecar_injected pod.annotations) "true"
    || any is_sidecar pod.spec.containers
    || any is_sidecar pod.spec.init_containers

abbrev pub is_dev : Volume → Bool
is_dev v = str_eq v.name "dev"

abbrev pub has_dev_volume : Pod → Bool
has_dev_volume pod = any is_dev pod.spec.volumes

-- The set of names as a list, in the order of their first occurrence; Go's is random.
add_devices : List String → Dict String → List String
add_devices set [] = set
add_devices set ((name, quantity) ∷ rest) = elim (is_cxi_resource name && not (mem name set)) [
  | true ↦ add_devices (set ++ name ∷ []) rest
  | false ↦ add_devices set rest
]

find_devices_from : List String → List Container → List String
unfolding add_devices
find_devices_from set [] = set
find_devices_from set (c ∷ cs) = find_devices_from (add_devices set c.resources.limits) cs

unfoldable pub find_cxi_devices : Pod → List String
unfolding find_devices_from
find_cxi_devices pod = find_devices_from [] pod.spec.containers

unfoldable pub build_sidecar_container : SidecarInjectorConfig → List String → Container
build_sidecar_container config devices = record {
  name = sidecar_container_name;
  image = config.retry_handler_image;
  args =
      "--mode=single"
      ∷ cat "--cxi-rh-path=" config.cxi_rh_path
      ∷ (if ltb 0 (length devices) then "--device=cxi0" ∷ [] else []);
  env = [];
  ports = [];
  security_context = some (record {
    privileged = some true;
    run_as_user = some 0;
    capabilities = "SYS_ADMIN" ∷ "IPC_LOCK" ∷ [];
  });
  liveness_probe = none;
  readiness_probe = none;
  resources = record {
    requests = ("cpu", "10m") ∷ ("memory", "32Mi") ∷ [];
    limits = ("cpu", "100m") ∷ ("memory", "64Mi") ∷ [];
  };
  volume_mounts = record { name = "dev"; mount_path = "/dev"; read_only = false } ∷ [];
  restart_policy = none;
}

abbrev pub dev_volume : Volume
dev_volume = record { name = "dev"; host_path = some "/dev" }

-- The sidecar at the end of the init containers or of the containers.
unfoldable pub add_sidecar : Bool → Container → Pod → Pod
add_sidecar true sidecar pod = record pod {
  spec = record (pod.spec) {
    init_containers =
        pod.spec.init_containers ++ record sidecar { restart_policy = some "Always" } ∷ [];
  };
}
add_sidecar false sidecar pod = record pod {
  spec = record (pod.spec) { containers = pod.spec.containers ++ sidecar ∷ [] };
}

-- The annotation, the label and the volume; the pod is a copy.
unfoldable pub mark_pod : Pod → Pod
unfolding insert
mark_pod pod = record pod {
  annotations = insert annotation_sidecar_injected "true" pod.annotations;
  labels = insert label_managed_by "slingshot-operator" pod.labels;
  spec = record (pod.spec) {
    volumes = if has_dev_volume pod then pod.spec.volumes else pod.spec.volumes ++ dev_volume ∷ [];
  };
}

unfoldable pub inject_sidecar : SidecarInjectorConfig → Pod → Pod
unfolding mark_pod find_cxi_devices build_sidecar_container add_sidecar
inject_sidecar config pod =
    add_sidecar config.use_native_sidecar (build_sidecar_container config (find_cxi_devices pod))
      (mark_pod pod)

module _ {Raw : Type 0} (codec : Codec Raw) (config : SidecarInjectorConfig) where
  unfoldable pub mutate : Raw → Pod → Response Raw
  unfolding should_inject already_injected inject_sidecar
  mutate raw pod =
      if not (should_inject pod)
      then allowed "no injection needed" []
      else if already_injected pod
      then allowed "already injected" []
      else elim (codec.encode_pod (inject_sidecar config pod)) [
        | inl err ↦ errored 500 err
        | inr marshaled ↦ patch_response raw marshaled
      ]

  unfoldable pub handle : Request Raw → Response Raw
  unfolding mutate
  handle req = elim (codec.decode_pod req.object) [
    | inl err ↦ errored 400 err
    | inr pod ↦ mutate req.object pod
  ]
