-- ===== src/Tests/Server.antt =====
-- The device plugin's server at concrete inputs.
use slingshot_operator.Prelude.{ℕ, ◌≡◌, refl, String, [], ◌∷◌, Option, none, some, inr}
use slingshot_operator.Prelude.Int.{pos}
use slingshot_operator.Api.{CxiDriver}
use slingshot_operator.DevicePlugin.Discovery.{discover_device}
use slingshot_operator.DevicePlugin.Plugin.{Config, new_plugin}
use slingshot_operator.DevicePlugin.Server.{PluginSystem, register_request, start, socket_path}
use slingshot_operator.DevicePlugin.Server.Registered.{Started, start_registered}
use slingshot_operator.Controller.DaemonSets.DevicePlugin.{device_plugin_container}
use slingshot_operator.Cmd.DevicePlugin.{device_plugin_main}
use slingshot_operator.Tests.Machine.{Machine, node_host, missing_file, write_path, done}
use slingshot_operator.Tests.Agent.{machine}

-- Kubelet writes down the resources that are registered.
abbrev system : PluginSystem Machine
system = record {
  remove = λ path w. (some missing_file, w);
  listen = λ path. done;
  serve = λ w. w;
  connect = λ target. done;
  register = λ req. write_path req.resource_name;
  stop_servers = λ w. w;
}

-- The configuration of a program that is run without arguments
abbrev config : Config
config = record {
  resource_name = "hpe.com/cxi";
  sharing_mode = "shared";
  shared_capacity = pos 100;
  health_port = pos 0;
}

start_registered_example :
    Started node_host system
      (register_request (new_plugin config))
      (start node_host system "context deadline exceeded" 50 (new_plugin config) machine)
unfolding new_plugin
start_registered_example =
    start_registered node_host system "context deadline exceeded" 50 (new_plugin config) machine
      refl

start_test :
    (start node_host system "context deadline exceeded" 50 (new_plugin config) machine).1.written
    ≡ "hpe.com/cxi" ∷ []
unfolding start register_request new_plugin discover_device
start_test = refl

-- Without a round the wait ends with the error of the context, and the plugin is not ready.
timeout_test :
    (start node_host system "context deadline exceeded" 0 (new_plugin config) machine).0.0
    ≡ some "server failed to start: context deadline exceeded"
unfolding start new_plugin
timeout_test = refl

socket_test : socket_path ≡ "/var/lib/kubelet/device-plugins/cxi-plugin.sock"
unfolding socket_path
socket_test = refl

request_test : (register_request (new_plugin config)).endpoint ≡ "cxi-plugin.sock"
unfolding register_request new_plugin
request_test = refl

no_duration : String → Option ℕ
no_duration s = none

-- The container that the operator makes starts the plugin with the defaults, whatever the resource
-- name and the mode of the CXIDriver are.
container_test :
    (d : CxiDriver) → device_plugin_main no_duration (device_plugin_container d).args ≡ inr config
unfolding device_plugin_main device_plugin_container
container_test d = refl
