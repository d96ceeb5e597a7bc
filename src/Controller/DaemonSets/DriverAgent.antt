-- ===== src/Controller/DaemonSets/DriverAgent.antt =====
-- `buildDriverAgentDaemonSet` and `buildDriverAgentEnvVars`.
use Prim.Native.String.{◌++◌ as cat}
use slingshot_operator.Prelude.{
  String, true, false, List, [], ◌∷◌, ◌++◌, Option, none, some, str_eq, if◌then◌else◌,
}
use slingshot_operator.Prelude.Int.{pos}
use slingshot_operator.Api.{CxiDriver, DkmsSourceSpec}
use slingshot_operator.Config.{default_driver_agent_image}
use slingshot_operator.Kube.Workload.{EnvVar, Container, DaemonSet}
use slingshot_operator.Controller.DaemonSets.Labels.{
  component_driver_agent, component_labels, or_default, host_volume, plain_env, node_name_env,
  privileged_context, no_status,
}

-- `DKMS_TAG`, where a DKMS configuration has a tag.
abbrev dkms_env : Option DkmsSourceSpec → List EnvVar
dkms_env none = []
dkms_env (some k) = if str_eq k.tag "" then [] else plain_env "DKMS_TAG" k.tag ∷ []

unfoldable pub build_driver_agent_env_vars : CxiDriver → List EnvVar
build_driver_agent_env_vars d =
    (plain_env "CXI_DRIVER_VERSION" d.spec.version
      ∷ plain_env "DRIVER_SOURCE_TYPE" d.spec.source.source_type
      ∷ node_name_env
      ∷ [])
    ++ dkms_env d.spec.source.dkms

unfoldable pub driver_agent_container : CxiDriver → Container
unfolding build_driver_agent_env_vars or_default
driver_agent_container d = record {
  name = "driver-agent";
  image = or_default d.spec.source.repository default_driver_agent_image;
  args = [];
  env = build_driver_agent_env_vars d;
  ports = record { name = "health"; container_port = pos 8081; protocol = "TCP" } ∷ [];
  security_context = some (privileged_context true);
  liveness_probe = some (record {
    path = "/healthz";
    port = pos 8081;
    initial_delay_seconds = 30;
    period_seconds = 30;
    timeout_seconds = 5;
  });
  readiness_probe = some (record {
    path = "/readyz";
    port = pos 8081;
    initial_delay_seconds = 10;
    period_seconds = 10;
    timeout_seconds = 5;
  });
  resources = record {
    requests = ("cpu", "50m") ∷ ("memory", "64Mi") ∷ [];
    limits = ("cpu", "200m") ∷ ("memory", "256Mi") ∷ [];
  };
  volume_mounts =
      record { name = "host-modules"; mount_path = "/lib/modules"; read_only = true }
      ∷ record { name = "host-usr-src"; mount_path = "/usr/src"; read_only = true }
      ∷ record { name = "dev"; mount_path = "/dev"; read_only = false }
      ∷ [];
  restart_policy = none;
}

unfoldable pub build_driver_agent_daemon_set : String → CxiDriver → DaemonSet
unfolding driver_agent_container component_labels
build_driver_agent_daemon_set namespace d =
    let labels = component_labels component_driver_agent d.name in
    record {
      name = cat d.name "-driver-agent";
      namespace = namespace;
      labels = labels;
      owner = none;
      spec = record {
        match_labels = labels;
        template = record {
          labels = labels;
          annotations = [];
          spec = record {
            host_pid = true;
            node_selector = d.spec.node_selector;
            init_containers = [];
            containers = driver_agent_container d ∷ [];
            volumes =
                host_volume "host-modules" "/lib/modules"
                ∷ host_volume "host-usr-src" "/usr/src"
                ∷ host_volume "dev" "/dev"
                ∷ [];
          };
        };
      };
      status = no_status;
    }
