-- ===== src/Webhook/Admission.antt =====
-- The requests and responses of sigs.k8s.io/controller-runtime/pkg/webhook/admission that the
-- handlers use. `Raw` stands for the bytes of an object in JSON.
use slingshot_operator.Prelude.{ℕ, String, List, ◌⊎◌}
use slingshot_operator.Api.{CxiDriver}
use slingshot_operator.Kube.Workload.{Pod}

-- `admission.Response`: an error with its HTTP status, the two verdicts, the first with the warnings
-- beside it, and the patch that leads from one object to another.
pub data Response (Raw : Type 0) : Type 0 where
  errored : ℕ → String → Response Raw
  allowed : String → List String → Response Raw
  denied : String → Response Raw
  patch_response : Raw → Raw → Response Raw

pub data Operation : Type 0 where
  create : Operation
  update : Operation
  other : Operation

pub record Request (Raw : Type 0) : Type 0 where
  pub operation : Operation
  pub object : Raw
  pub old_object : Raw

-- The decoder of the API machinery and `json.Marshal`: a failure is its text.
pub record Codec (Raw : Type 0) : Type 0 where
  pub decode_pod : Raw → String ⊎ Pod
  pub encode_pod : Pod → String ⊎ Raw
  pub decode_driver : Raw → String ⊎ CxiDriver
