-- ===== src/Cmd/Operator/Chart.antt =====
-- The operator with the arguments of the Helm chart (charts/slingshot-operator).
use slingshot_operator.Prelude.{
  ℕ, ◌≡◌, refl, String, Bool, true, false, ◌||◌, List, [], ◌∷◌, ◌++◌, map, Option, ◌⊎◌, inl, inr,
  if◌then◌else◌,
}
use slingshot_operator.Prelude.Dict.{Dict}
use slingshot_operator.Config.Env.{get_env_bool}
use slingshot_operator.Flags.{FlagValue}
use slingshot_operator.Webhook.Setup.{Handler}
use slingshot_operator.Cmd.Operator.{OperatorOptions, operator_main}

-- An argument that the chart passes if a value is set.
abbrev given : Bool → String → List String
given enabled arg = if enabled then arg ∷ [] else []

abbrev pub cert_dir : String
cert_dir = "/tmp/k8s-webhook-server/serving-certs"

-- The arguments, when metrics are disabled, for the values leaderElection.enabled,
-- webhook.cxidriver.enabled and webhook.sidecar.enabled
abbrev pub chart_args : Bool → Bool → Bool → List String
chart_args leader validator sidecar =
    given leader "--leader-elect"
    ++ ("--health-probe-bind-address=:8081"
        ∷ (given validator "--enable-cxidriver-webhook=true"
            ++ (given sidecar "--enable-sidecar-webhook=true"
                ++ given (validator || sidecar)
                    "--webhook-cert-path=/tmp/k8s-webhook-server/serving-certs")))

abbrev path_of : String × Handler → String
path_of (path, _) = path

-- The paths that the webhook server answers, and the directory of its certificate.
abbrev pub webhook_server : ℕ ⊎ OperatorOptions → List String × String
webhook_server (inl status) = ([], "")
webhook_server (inr options) = (map path_of options.webhooks, options.webhook_certificate.dir)

-- With the arguments of the chart, metrics disabled, and no switch in the environment, the operator
-- answers for the sidecar injector exactly if the chart enables it, and for the validator in any
-- case, enabled or not; it has the certificate of the chart exactly if one of them is enabled.
pub chart_webhooks :
    (parse_duration : String → Option ℕ) (library_flags : Dict FlagValue) (env : Dict String)
    (leader validator sidecar : Bool)
    → get_env_bool env "ENABLE_SIDECAR_WEBHOOK" false ≡ false
    → get_env_bool env "ENABLE_CXIDRIVER_WEBHOOK" true ≡ true
    → webhook_server
        (operator_main parse_duration library_flags env (chart_args leader validator sidecar))
      ≡ (
        (if sidecar then "/mutate-v1-pod" ∷ [] else [])
            ++ ("/validate-cxi-hpe-com-v1-cxidriver" ∷ []),
        if validator || sidecar then cert_dir else "",
      )
unfolding operator_main
chart_webhooks d l env true true true hs hv = refl
chart_webhooks d l env true true false hs hv = rw hs refl
chart_webhooks d l env true false true hs hv = rw hv refl
chart_webhooks d l env true false false hs hv = rw (hs, hv) refl
chart_webhooks d l env false true true hs hv = refl
chart_webhooks d l env false true false hs hv = rw hs refl
chart_webhooks d l env false false true hs hv = rw hv refl
chart_webhooks d l env false false false hs hv = rw (hs, hv) refl
