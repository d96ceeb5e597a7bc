-- ===== src/Controller/DaemonSets/MetricsExporter.antt =====
-- `buildMetricsExporterDaemonSet`.
use Prim.Native.String.{◌++◌ as cat}
use slingshot_operator.Prelude.{
  String, true, false, ◌||◌, List, [], ◌∷◌, none, some, str_eq, if◌then◌else◌,
}
use slingshot_operator.Prelude.Int.{ℤ, pos, int_eq, show_int}
use slingshot_operator.Api.{
  CxiDriver, RetryHandlerSpec, MetricsExporterSpec, retry_handler_mode_daemon_set,
  retry_handler_mode_sidecar, retry_handler_mode_kernel, retry_handler_mode_none,
}
use slingshot_operator.Config.{default_metrics_exporter_image, default_metrics_port}
use slingshot_operator.Kube.Workload.{Container, DaemonSet}
use slingshot_operator.Controller.DaemonSets.Labels.{
  component_metrics_exporter, component_labels, or_default, host_volume, node_name_env, no_status,
}

-- The argument that names the retry handler, by mode; none for an unknown mode.
unfoldable pub retry_handler_url_args : RetryHandlerSpec → List String
retry_handler_url_args s =
    if s.enabled
    then (if str_eq s.mode retry_handler_mode_daemon_set || str_eq s.mode ""
        then "--retry-handler-url=http://localhost:8080" ∷ []
        else if str_eq s.mode retry_handler_mode_sidecar
        then "--retry-handler-url=" ∷ []
        else if str_eq s.mode retry_handler_mode_kernel || str_eq s.mode retry_handler_mode_none
        then "--retry-handler-url=" ∷ []
        else [])
    else []

unfoldable pub metrics_port : MetricsExporterSpec → ℤ
metrics_port s = if int_eq s.port (pos 0) then default_metrics_port else s.port

unfoldable pub metrics_exporter_container : CxiDriver → Container
unfolding retry_handler_url_args or_default metrics_port
metrics_exporter_container d =
    let port = metrics_port d.spec.metrics_exporter in
    record {
      name = "metrics-exporter";
      image = or_default d.spec.metrics_exporter.image default_metrics_exporter_image;
      args = cat "--metrics-port=" (show_int port) ∷ retry_handler_url_args d.spec.retry_handler;
      env = node_name_env ∷ [];
      ports = record { name = "metrics"; container_port = port; protocol = "TCP" } ∷ [];
      security_context = none;
      liveness_probe = some (record {
        path = "/healthz";
        port = port;
        initial_delay_seconds = 10;
        period_seconds = 30;
        timeout_seconds = 0;
      });
      readiness_probe = some (record {
        path = "/readyz";
        port = port;
        initial_delay_seconds = 5;
        period_seconds = 10;
        timeout_seconds = 0;
      });
      resources = d.spec.metrics_exporter.resources;
      volume_mounts =
          record { name = "sys"; mount_path = "/sys"; read_only = true }
          ∷ record { name = "proc"; mount_path = "/proc"; read_only = true }
          ∷ [];
      restart_policy = none;
    }

unfoldable pub build_metrics_exporter_daemon_set : String → CxiDriver → DaemonSet
unfolding metrics_exporter_container component_labels
build_metrics_exporter_daemon_set namespace d =
    let labels = component_labels component_metrics_exporter d.name in
    record {
      name = cat d.name "-metrics-exporter";
      namespace = namespace;
      labels = labels;
      owner = none;
      spec = record {
        match_labels = labels;
        template = record {
          labels = labels;
          annotations =
              ("prometheus.io/scrape", "true")
              ∷ ("prometheus.io/port", show_int (metrics_port d.spec.metrics_exporter))
              ∷ ("prometheus.io/path", "/metrics")
              ∷ [];
          spec = record {
            host_pid = false;
            node_selector = d.spec.node_selector;
            init_containers = [];
            containers = metrics_exporter_container d ∷ [];
            volumes = host_volume "sys" "/sys" ∷ host_volume "proc" "/proc" ∷ [];
          };
        };
      };
      status = no_status;
    }
