-- ===== src/Cmd/MetricsExporter.antt =====
-- cmd/metrics-exporter/main.go
use slingshot_operator.Prelude.{
  ℕ, ◌*◌, ◌^◌, String, List, [], ◌∷◌, Option, ◌⊎◌, inl, inr, str_eq, if◌then◌else◌,
}
use slingshot_operator.Prelude.Dict.{Dict, get}
use slingshot_operator.Prelude.Int.{pos}
use slingshot_operator.Flags.{
  FlagValue, text_value, int_value, duration_value, parse_flags, text_of, int_of, duration_of,
}
use slingshot_operator.Metrics.{Config}
use slingshot_operator.Cmd.Start.{and_then}

unfoldable pub exporter_flags : Dict String → Dict FlagValue
unfolding get
exporter_flags env =
    ("node-name", text_value (get "NODE_NAME" env))
    ∷ ("metrics-port", int_value (pos 9090))
    ∷ ("scrape-interval", duration_value (15 * 10 ^ 9))
    ∷ ("retry-handler-url", text_value "http://localhost:8080")
    ∷ []

-- The node's own name, from os.Hostname, stands in for one that is not given.
abbrev pub named_config : String ⊎ String → Dict FlagValue → ℕ ⊎ Config
named_config (inl err) values = inl 1
named_config (inr name) values = inr (record {
  node_name = name;
  metrics_port = int_of "metrics-port" values;
  scrape_interval = duration_of "scrape-interval" values;
  retry_handler_url = text_of "retry-handler-url" values;
})

unfoldable pub exporter_config : String ⊎ String → Dict FlagValue → ℕ ⊎ Config
unfolding text_of int_of duration_of
exporter_config hostname values =
    let node_name = text_of "node-name" values in
    named_config (if str_eq node_name "" then hostname else inr node_name) values

unfoldable pub metrics_exporter_main :
    (String → Option ℕ) → String ⊎ String → Dict String → List String → ℕ ⊎ Config
unfolding parse_flags exporter_config get exporter_flags
metrics_exporter_main parse_duration hostname env args =
    and_then (parse_flags parse_duration args (exporter_flags env)) (exporter_config hostname)
