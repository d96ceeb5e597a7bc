-- ===== src/Tests/Admission.antt =====
-- The webhooks at concrete inputs.
use slingshot_operator.Prelude.{
  ◌≡◌, refl, String, true, false, [], ◌∷◌, none, ◌⊎◌, inl, inr, arith, any,
}
use slingshot_operator.Prelude.Dict.{lookup, get}
use slingshot_operator.Api.{CxiDriver}
use slingshot_operator.Kube.Workload.{Container, Pod}
use slingshot_operator.Webhook.Admission.{allowed, create, Request, Codec}
use slingshot_operator.Webhook.Injector.{
  SidecarInjectorConfig, new_sidecar_injector, inject_sidecar, handle as inject, already_injected,
  should_inject, mutate,
}
use slingshot_operator.Webhook.Injector.Once.{inject_once}
use slingshot_operator.Webhook.Injector.Shape.{inject_single, OneSidecar}
use slingshot_operator.Webhook.Validator.{
  Std, handle as validate, is_valid_mode, is_valid_sharing_mode, errors,
}
use slingshot_operator.Webhook.Validator.Verdict.{admits_acceptable, admitted_mode, Dispatches}
use slingshot_operator.Tests.Cluster.{memory}
use slingshot_operator.Tests.Reconciler.{driver}

-- A text of JSON, as what it decodes to.
data Json : Type 0 where
  pod_json : Pod → Json
  driver_json : CxiDriver → Json

decode_pod : Json → String ⊎ Pod
decode_pod (pod_json p) = inr p
decode_pod (driver_json d) = inl "not a Pod"

decode_driver : Json → String ⊎ CxiDriver
decode_driver (driver_json d) = inr d
decode_driver (pod_json p) = inl "not a CXIDriver"

abbrev json : Codec Json
unfolding decode_pod decode_driver
json = record {
  decode_pod = decode_pod;
  encode_pod = λ p. inr (pod_json p);
  decode_driver = decode_driver;
}

json-encode : (p : Pod) (raw : Json) → json.encode_pod p ≡ inr raw → json.decode_pod raw ≡ inr p
unfolding json decode_pod
json-encode p (pod_json q) h = ground arith
json-encode p (driver_json d) h = cc

abbrev config : SidecarInjectorConfig
unfolding new_sidecar_injector
config = new_sidecar_injector (record {
  retry_handler_image = "";
  cxi_rh_path = "";
  resource_name = "";
  use_native_sidecar = true;
})

abbrev workload : Container
workload = record {
  name = "mpi";
  image = "mpi:1";
  args = [];
  env = [];
  ports = [];
  security_context = none;
  liveness_probe = none;
  readiness_probe = none;
  resources = record { requests = []; limits = ("hpe.com/cxi", "1") ∷ [] };
  volume_mounts = [];
  restart_policy = none;
}

abbrev pod : Pod
pod = record {
  labels = [];
  annotations = [];
  spec = record {
    host_pid = false;
    node_selector = [];
    init_containers = [];
    containers = workload ∷ [];
    volumes = record { name = "scratch"; host_path = none } ∷ [];
  };
}

abbrev asked : Request Json
asked = record { operation = create; object = pod_json pod; old_object = pod_json pod }

inject_once_example :
    inject json config (record asked { object = pod_json (inject_sidecar config pod) })
    ≡ allowed "already injected" []
unfolding json decode_pod any lookup should_inject already_injected get inject mutate config
inject_once_example =
    inject_once json config json-encode asked (pod_json (inject_sidecar config pod)) refl

inject_single_example : OneSidecar pod (inject_sidecar config pod)
unfolding already_injected any get lookup
inject_single_example = inject_single config pod refl

abbrev std : Std
std = record { quote = λ s. s; parse_duration_error = λ s. none }

abbrev submitted : Request Json
submitted = record {
  operation = create;
  object = driver_json (driver "a");
  old_object = driver_json (driver "a");
}

admitted_mode_example : Dispatches memory "ns" (driver "a")
unfolding json decode_driver is_valid_mode is_valid_sharing_mode validate errors
admitted_mode_example =
    admitted_mode std json memory "ns" submitted (driver "a") refl
      (admits_acceptable std json submitted (driver "a") refl) refl
