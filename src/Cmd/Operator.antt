-- ===== src/Cmd/Operator.antt =====
-- cmd/main.go: the options that the manager is made with, and the webhooks that are set up. The
-- libraries declare flags of their own, which are a parameter; the certificates' watchers, the
-- schemes and the manager itself are left out.
pub mod Chart
use slingshot_operator.Prelude.{
  ℕ, String, Bool, true, false, ◌||◌, List, [], ◌∷◌, ◌++◌, Option, ◌⊎◌, inr, if◌then◌else◌, str_eq,
}
use slingshot_operator.Prelude.Dict.{Dict}
use slingshot_operator.Config.{
  default_namespace, default_health_probe_bind_address, default_retry_handler_image,
}
use slingshot_operator.Config.Env.{get_env, get_env_bool}
use slingshot_operator.Flags.{FlagValue, text_value, bool_value, parse_flags, text_of, bool_of}
use slingshot_operator.Webhook.Setup.{Handler, setup_with_manager}
use slingshot_operator.Cmd.Start.{and_then}

-- The directory and the names of a certificate and its key, empty as in the options of a server.
pub record Certificate : Type 0 where
  pub dir : String
  pub cert_name : String
  pub key_name : String

-- `secure_serving` also sets the filter of the metrics endpoint, and `http1_only` is `disableHTTP2`
-- in the options of both servers.
pub record OperatorOptions : Type 0 where
  pub metrics_bind_address : String
  pub secure_serving : Bool
  pub metrics_certificate : Certificate
  pub webhook_certificate : Certificate
  pub http1_only : Bool
  pub health_probe_bind_address : String
  pub leader_election : Bool
  pub leader_election_id : String
  pub namespace : String
  pub webhooks : Dict Handler

abbrev operator_flags : Dict String → Dict FlagValue
operator_flags env =
    ("metrics-bind-address", text_value (get_env env "METRICS_BIND_ADDRESS" "0"))
    ∷ ("namespace", text_value (get_env env "OPERATOR_NAMESPACE" default_namespace))
    ∷ (
      "health-probe-bind-address",
      text_value (get_env env "HEALTH_PROBE_BIND_ADDRESS" default_health_probe_bind_address),
    )
    ∷ ("leader-elect", bool_value false)
    ∷ ("metrics-secure", bool_value true)
    ∷ ("webhook-cert-path", text_value "")
    ∷ ("webhook-cert-name", text_value "tls.crt")
    ∷ ("webhook-cert-key", text_value "tls.key")
    ∷ ("metrics-cert-path", text_value "")
    ∷ ("metrics-cert-name", text_value "tls.crt")
    ∷ ("metrics-cert-key", text_value "tls.key")
    ∷ ("enable-http2", bool_value false)
    ∷ ("enable-sidecar-webhook", bool_value (get_env_bool env "ENABLE_SIDECAR_WEBHOOK" false))
    ∷ ("enable-cxidriver-webhook", bool_value (get_env_bool env "ENABLE_CXIDRIVER_WEBHOOK" true))
    ∷ (
      "retry-handler-image",
      text_value (get_env env "RETRY_HANDLER_IMAGE" default_retry_handler_image),
    )
    ∷ []

-- The flags <of>-cert-path, -name and -key
abbrev certificate : String → String → String → Certificate
certificate path name key =
    if str_eq path ""
    then record { dir = ""; cert_name = ""; key_name = "" }
    else record { dir = path; cert_name = name; key_name = key }

-- The webhooks by the two switches and the image of the retry handler.
unfoldable pub webhooks_of : Bool → Bool → String → Dict Handler
unfolding setup_with_manager
webhooks_of sidecar validator image =
    if sidecar || validator
    then setup_with_manager (record {
      sidecar_injector = record {
        retry_handler_image = image;
        cxi_rh_path = "";
        resource_name = "";
        use_native_sidecar = false;
      };
      enable_sidecar_injector = sidecar;
      enable_cxi_driver_webhook = validator;
    })
    else []

unfoldable pub operator_options : Dict FlagValue → OperatorOptions
unfolding text_of bool_of webhooks_of
operator_options values = record {
  metrics_bind_address = text_of "metrics-bind-address" values;
  secure_serving = bool_of "metrics-secure" values;
  metrics_certificate =
      certificate (text_of "metrics-cert-path" values) (text_of "metrics-cert-name" values)
        (text_of "metrics-cert-key" values);
  webhook_certificate =
      certificate (text_of "webhook-cert-path" values) (text_of "webhook-cert-name" values)
        (text_of "webhook-cert-key" values);
  http1_only = if bool_of "enable-http2" values then false else true;
  health_probe_bind_address = text_of "health-probe-bind-address" values;
  leader_election = bool_of "leader-elect" values;
  leader_election_id = "bf7f9b28.hpe.com";
  namespace = text_of "namespace" values;
  webhooks =
      webhooks_of (bool_of "enable-sidecar-webhook" values)
        (bool_of "enable-cxidriver-webhook" values) (text_of "retry-handler-image" values);
}

unfoldable pub operator_main :
    (String → Option ℕ) → Dict FlagValue → Dict String → List String → ℕ ⊎ OperatorOptions
unfolding parse_flags operator_options
operator_main parse_duration library_flags env args =
    and_then (parse_flags parse_duration args (operator_flags env ++ library_flags))
      (λ values. inr (operator_options values))
