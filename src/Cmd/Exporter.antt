-- ===== src/Cmd/Exporter.antt =====
-- The container of the metrics exporter that the operator makes, run by the program.
use Prim.Native.String.{◌++◌ as cat}
use slingshot_operator.Prelude.{
  ℕ, ◌^◌, ◌<◌, ◌*◌, ◌≡◌, refl, ap, ◌∙◌, String, false, ◌||◌, List, [], ◌∷◌, Option, none, some, ◌⊎◌,
  inl, inr, str_eq, if◌then◌else◌, Bool-cases,
}
use slingshot_operator.Prelude.Dict.{Dict, lookup, insert, get}
use slingshot_operator.Prelude.Int.{ℤ, pos, show_int}
use slingshot_operator.Prelude.Decimal.{itoa}
use slingshot_operator.Prelude.Decimal.Literal.{parse_int-itoa}
use slingshot_operator.Api.{
  RetryHandlerSpec, CxiDriver, retry_handler_mode_daemon_set, retry_handler_mode_sidecar,
  retry_handler_mode_kernel, retry_handler_mode_none,
}
use slingshot_operator.Controller.DaemonSets.MetricsExporter.{
  metrics_port, retry_handler_url_args, metrics_exporter_container,
}
use slingshot_operator.Flags.{
  Parsed, FlagValue, text_value, int_value, duration_value, argument_of, flag_argument, flag_of,
  split_equals, read_value, parse_from, parse_flags,
}
use slingshot_operator.Flags.Arguments.{is_flag_name, argument-flag, parse_int_flag}
use slingshot_operator.Metrics.{Config}
use slingshot_operator.Cmd.Start.{and_then}
use slingshot_operator.Cmd.MetricsExporter.{exporter_flags, exporter_config, metrics_exporter_main}

-- The address of the retry handler for the exporter: that of the node where the handler is a
-- DaemonSet, none in the other modes, and the default of the exporter where no argument tells.
unfoldable pub exporter_url : RetryHandlerSpec → String
exporter_url s =
    if s.enabled
    then (if str_eq s.mode retry_handler_mode_daemon_set || str_eq s.mode ""
        then "http://localhost:8080"
        else if str_eq s.mode retry_handler_mode_sidecar
        then ""
        else if str_eq s.mode retry_handler_mode_kernel || str_eq s.mode retry_handler_mode_none
        then ""
        else "http://localhost:8080")
    else "http://localhost:8080"

abbrev port_values : String → ℕ → Dict FlagValue
port_values node n =
    ("node-name", text_value node)
    ∷ ("metrics-port", int_value (pos n))
    ∷ ("scrape-interval", duration_value (15 * 10 ^ 9))
    ∷ ("retry-handler-url", text_value "http://localhost:8080")
    ∷ []

abbrev pub started : String → ℕ → String → Config
started node n url = record {
  node_name = node;
  metrics_port = pos n;
  scrape_interval = 15 * 10 ^ 9;
  retry_handler_url = url;
}

port_argument :
    (n : ℕ)
    → argument_of (cat "--metrics-port=" (itoa n)) ≡ flag_argument "metrics-port" (some (itoa n))
unfolding is_flag_name
port_argument n = argument-flag "metrics-port" (itoa n) refl

module _ (parse_duration : String → Option ℕ) (hostname : String ⊎ String) (env : Dict String) where
  port_flags :
      (n : ℕ) (args : List String)
      → n < 2 ^ 63
      → parse_flags parse_duration
          (cat "--metrics-port=" (show_int (pos n)) ∷ args)
          (exporter_flags env)
        ≡ parse_from parse_duration none args (port_values (get "NODE_NAME" env) n)
  unfolding parse_flags exporter_flags show_int lookup insert
  port_flags n args h =
      parse_int_flag parse_duration (cat "--metrics-port=" (itoa n)) "metrics-port" (itoa n)
        (pos 9090) (pos n) args (exporter_flags env) (port_argument n) refl (parse_int-itoa n h)

  -- What the rest of the arguments comes to, by their list.
  url_config :
      (node : String) (n : ℕ) (s : RetryHandlerSpec)
      → str_eq node "" ≡ false
      → and_then
          (parse_from parse_duration none (retry_handler_url_args s) (port_values node n))
          (exporter_config hostname)
        ≡ inr (started node n (exporter_url s))
  unfolding parse_from argument_of flag_of split_equals read_value lookup insert exporter_config
      exporter_url retry_handler_url_args
  url_config node n s h = elim (Bool-cases s.enabled) [
    | inr f ↦ rw (f, retry_handler_url_args) (rw h refl)
    | inl t ↦ elim (Bool-cases (str_eq s.mode retry_handler_mode_daemon_set || str_eq s.mode "")) [
      | inl a ↦ rw (t, retry_handler_url_args) (rw a (rw h refl))
      | inr a ↦ elim (Bool-cases (str_eq s.mode retry_handler_mode_sidecar)) [
        | inl b ↦ rw (t, retry_handler_url_args) (rw a (rw b (rw h refl)))
        | inr b ↦
            elim (Bool-cases
              (str_eq s.mode retry_handler_mode_kernel || str_eq s.mode retry_handler_mode_none)) [
                | inl k ↦ rw (t, retry_handler_url_args) (rw a (rw b (rw k (rw h refl))))
                | inr k ↦ rw (t, retry_handler_url_args) (rw a (rw b (rw k (rw h refl))))
              ]
      ]
    ]
  ]

  -- For a driver whose port for metrics, or the default for it, is not negative and fits into int,
  -- the exporter in the container that the operator makes starts, if the name of the node is in its
  -- environment, with that name, that port, the default interval, and the address of the retry
  -- handler by the mode: none for a sidecar, the kernel and none, and the address on the node for
  -- a DaemonSet, for an unknown mode, and also where the retry handler is disabled.
  pub exporter_starts :
      (d : CxiDriver) (n : ℕ)
      → metrics_port d.spec.metrics_exporter ≡ pos n
      → n < 2 ^ 63
      → str_eq (get "NODE_NAME" env) "" ≡ false
      → metrics_exporter_main parse_duration hostname env (metrics_exporter_container d).args
        ≡ inr (started (get "NODE_NAME" env) n (exporter_url d.spec.retry_handler))
  unfolding metrics_exporter_main metrics_exporter_container
  exporter_starts d n p h e =
      let rest = retry_handler_url_args d.spec.retry_handler in
      let run = λ (port : ℤ).
        metrics_exporter_main parse_duration hostname env
          (cat "--metrics-port=" (show_int port) ∷ rest) in
      ap run p
      ∙ ap (λ (r : Parsed). and_then r (exporter_config hostname)) (port_flags n rest h)
      ∙ url_config (get "NODE_NAME" env) n d.spec.retry_handler e
