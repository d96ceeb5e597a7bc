-- ===== src/Config.antt =====
-- pkg/config/config.go: the defaults that the operator and its agents share, and the settings that it
-- reads from the environment.
pub mod Env
use slingshot_operator.Prelude.{String}
use slingshot_operator.Prelude.Int.{ℤ, pos}

abbrev pub default_namespace : String
default_namespace = "slingshot-system"

abbrev pub default_metrics_bind_address : String
default_metrics_bind_address = ":8443"

abbrev pub default_health_probe_bind_address : String
default_health_probe_bind_address = ":8081"

abbrev pub default_leader_election_id : String
default_leader_election_id = "bf7f9b28.hpe.com"

abbrev pub default_driver_agent_image : String
default_driver_agent_image = "ghcr.io/sielicki/slingshot-operator/driver-agent:latest"

abbrev pub default_device_plugin_image : String
default_device_plugin_image = "ghcr.io/sielicki/slingshot-operator/device-plugin:latest"

abbrev pub default_retry_handler_image : String
default_retry_handler_image = "ghcr.io/sielicki/slingshot-operator/retry-handler:latest"

abbrev pub default_metrics_exporter_image : String
default_metrics_exporter_image = "ghcr.io/sielicki/slingshot-operator/metrics-exporter:latest"

abbrev pub default_metrics_port : ℤ
default_metrics_port = pos 9090
