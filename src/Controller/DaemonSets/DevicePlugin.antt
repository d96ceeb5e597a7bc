-- ===== src/Controller/DaemonSets/DevicePlugin.antt =====
-- `buildDevicePluginDaemonSet`.
use Prim.Native.String.{◌++◌ as cat}
use slingshot_operator.Prelude.{String, true, false, List, [], ◌∷◌, none, some}
use slingshot_operator.Prelude.Int.{pos, show_int}
use slingshot_operator.Api.{CxiDriver}
use slingshot_operator.Config.{default_device_plugin_image}
use slingshot_operator.Kube.Workload.{EnvVar, Container, DaemonSet}
use slingshot_operator.Controller.DaemonSets.Labels.{
  component_device_plugin, component_labels, or_default, host_volume, plain_env, privileged_context,
  no_status,
}

unfoldable pub device_plugin_env_vars : CxiDriver → List EnvVar
device_plugin_env_vars d =
    plain_env "RESOURCE_NAME" d.spec.device_plugin.resource_name
    ∷ plain_env "SHARING_MODE" d.spec.device_plugin.sharing_mode
    ∷ plain_env "SHARED_CAPACITY" (show_int d.spec.device_plugin.shared_capacity)
    ∷ []

unfoldable pub device_plugin_container : CxiDriver → Container
unfolding device_plugin_env_vars or_default
device_plugin_container d = record {
  name = "device-plugin";
  image = or_default d.spec.device_plugin.image default_device_plugin_image;
  args = [];
  env = device_plugin_env_vars d;
  ports = record { name = "health"; container_port = pos 8082; protocol = "TCP" } ∷ [];
  security_context = some (privileged_context true);
  liveness_probe = some (record {
    path = "/healthz";
    port = pos 8082;
    initial_delay_seconds = 10;
    period_seconds = 30;
    timeout_seconds = 5;
  });
  readiness_probe = some (record {
    path = "/readyz";
    port = pos 8082;
    initial_delay_seconds = 5;
    period_seconds = 10;
    timeout_seconds = 5;
  });
  resources = record {
    requests = ("cpu", "50m") ∷ ("memory", "32Mi") ∷ [];
    limits = ("cpu", "100m") ∷ ("memory", "128Mi") ∷ [];
  };
  volume_mounts =
      record {
        name = "device-plugin";
        mount_path = "/var/lib/kubelet/device-plugins";
        read_only = false;
      }
      ∷ record { name = "sys"; mount_path = "/sys"; read_only = true }
      ∷ record { name = "dev"; mount_path = "/dev"; read_only = false }
      ∷ [];
  restart_policy = none;
}

unfoldable pub build_device_plugin_daemon_set : String → CxiDriver → DaemonSet
unfolding device_plugin_container component_labels
build_device_plugin_daemon_set namespace d =
    let labels = component_labels component_device_plugin d.name in
    record {
      name = cat d.name "-device-plugin";
      namespace = namespace;
      labels = labels;
      owner = none;
      spec = record {
        match_labels = labels;
        template = record {
          labels = labels;
          annotations = [];
          spec = record {
            host_pid = false;
            node_selector = d.spec.node_selector;
            init_containers = [];
            containers = device_plugin_container d ∷ [];
            volumes =
                host_volume "device-plugin" "/var/lib/kubelet/device-plugins"
                ∷ host_volume "sys" "/sys"
                ∷ host_volume "dev" "/dev"
                ∷ [];
          };
        };
      };
      status = no_status;
    }
