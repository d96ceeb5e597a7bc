-- ===== src/Controller/DaemonSets/RetryHandler.antt =====
-- `buildRetryHandlerDaemonSet`.
use Prim.Native.String.{◌++◌ as cat}
use slingshot_operator.Prelude.{String, true, false, [], ◌∷◌, Option, none, some}
use slingshot_operator.Prelude.Int.{pos}
use slingshot_operator.Api.{CxiDriver, ResourceRequirements}
use slingshot_operator.Config.{default_retry_handler_image}
use slingshot_operator.Kube.Workload.{Container, DaemonSet, no_resources}
use slingshot_operator.Controller.DaemonSets.Labels.{
  component_retry_handler, component_labels, or_default, host_volume, privileged_context, no_status,
}

abbrev resources_or_none : Option ResourceRequirements → ResourceRequirements
resources_or_none none = no_resources
resources_or_none (some r) = r

unfoldable pub retry_handler_container : CxiDriver → Container
unfolding or_default
retry_handler_container d = record {
  name = "retry-handler";
  image = or_default d.spec.retry_handler.image default_retry_handler_image;
  args = "--mode=supervisor" ∷ "--discover=auto" ∷ [];
  env = [];
  ports = record { name = "health"; container_port = pos 8080; protocol = "TCP" } ∷ [];
  security_context = some (privileged_context true);
  liveness_probe = some (record {
    path = "/healthz";
    port = pos 8080;
    initial_delay_seconds = 10;
    period_seconds = 30;
    timeout_seconds = 0;
  });
  readiness_probe = none;
  resources = resources_or_none d.spec.retry_handler.daemon_set;
  volume_mounts = record { name = "dev"; mount_path = "/dev"; read_only = false } ∷ [];
  restart_policy = none;
}

unfoldable pub build_retry_handler_daemon_set : String → CxiDriver → DaemonSet
unfolding retry_handler_container component_labels
build_retry_handler_daemon_set namespace d =
    let labels = component_labels component_retry_handler d.name in
    record {
      name = cat d.name "-retry-handler";
      namespace = namespace;
      labels = labels;
      owner = none;
      spec = record {
        match_labels = labels;
        template = record {
          labels = labels;
          annotations = [];
          spec = record {
            host_pid = false;
            node_selector = d.spec.node_selector;
            init_containers = [];
            containers = retry_handler_container d ∷ [];
            volumes = host_volume "dev" "/dev" ∷ [];
          };
        };
      };
      status = no_status;
    }
