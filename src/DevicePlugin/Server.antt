-- ===== src/DevicePlugin/Server.antt =====
-- pkg/deviceplugin/plugin.go: `Start`, `Stop`, `register`, `waitForServer` and the answers of the
-- health server. gRPC and the sockets are an interface over the states of the node; what the
-- goroutines do after `Start` is left out.
pub mod Registered
use Prim.Native.String.{◌++◌ as cat}
use slingshot_operator.Prelude.{
  ℕ, zero, suc, String, Bool, true, false, Option, none, some, List, ◌⊎◌, inl, inr, if◌then◌else◌,
}
use slingshot_operator.Prelude.FilePath.{join_path, base}
use slingshot_operator.Prelude.Action.{Action, Error, pure, check, ◌>>=◌}
use slingshot_operator.Host.{FileError, Host}
use slingshot_operator.DevicePlugin.Device.{CxiDevice}
use slingshot_operator.DevicePlugin.Plugin.{Plugin}
use slingshot_operator.DevicePlugin.Discovery.{discover_devices}

abbrev pub device_plugin_path : String
device_plugin_path = "/var/lib/kubelet/device-plugins"

abbrev pub kubelet_socket : String
kubelet_socket = "/var/lib/kubelet/device-plugins/kubelet.sock"

unfoldable pub socket_path : String
unfolding join_path
socket_path = join_path device_plugin_path "cxi-plugin.sock"

pub record DevicePluginOptions : Type 0 where
  pub pre_start_required : Bool
  pub get_preferred_allocation_available : Bool

abbrev pub get_device_plugin_options : DevicePluginOptions
get_device_plugin_options = record {
  pre_start_required = false;
  get_preferred_allocation_available = true;
}

-- The version is that of the kubelet's API.
pub record RegisterRequest : Type 0 where
  pub endpoint : String
  pub resource_name : String
  pub options : DevicePluginOptions

-- `remove` answers os.Remove, `connect` is grpc.NewClient, `serve` makes the gRPC server and starts
-- to serve, and `stop_servers` ends that server and the health server.
pub record PluginSystem (W : Type 0) : Type 0 where
  pub remove : String → Action W (Option FileError)
  pub listen : String → Action W Error
  pub serve : W → W
  pub connect : String → Action W Error
  pub register : RegisterRequest → Action W Error
  pub stop_servers : W → W

unfoldable pub set_ready : Bool → Plugin → Plugin
set_ready ready p = record p { ready = ready }

-- /readyz
unfoldable pub plugin_readyz : Plugin → ℕ × String
plugin_readyz p = if p.ready then (200, "ready\n") else (503, "not ready\n")

unfoldable pub register_request : Plugin → RegisterRequest
unfolding base socket_path
register_request p = record {
  endpoint = base socket_path;
  resource_name = p.config.resource_name;
  options = get_device_plugin_options;
}

-- An old socket that is not there is no error.
unfoldable pub remove_error : Option FileError → Error
remove_error none = none
remove_error (some err) = if err.not_exist then none else some err.text

module _ {W : Type 0} (host : Host W) (sys : PluginSystem W) where
  -- The rounds are the tries, one each 100 milliseconds, before the context is done.
  unfoldable pub wait_for_server : (ctx_error : String) → ℕ → Action W Error
  unfolding socket_path
  wait_for_server ctx_error zero = pure (some ctx_error)
  wait_for_server ctx_error (suc rounds) = sys.connect (cat "unix://" socket_path) >>= λ err.
      elim err [ none ↦ pure none | some _ ↦ wait_for_server ctx_error rounds ]

  unfoldable pub register_plugin : Plugin → Action W Error
  unfolding register_request
  register_plugin p =
      check "failed to connect to kubelet: " (sys.connect (cat "unix://" kubelet_socket))
        (check "failed to register: " (sys.register (register_request p)) (pure none))

  -- `Start` from the gRPC server on
  unfoldable pub serve_plugin : (ctx_error : String) → ℕ → Plugin → Action W Error
  unfolding wait_for_server register_plugin
  serve_plugin ctx_error rounds p w =
      check "server failed to start: " (wait_for_server ctx_error rounds)
        (check "failed to register with kubelet: " (register_plugin p) (pure none)) (sys.serve w)

  -- `Start` from the removal of the old socket on
  unfoldable pub open_server : (ctx_error : String) → ℕ → Plugin → Action W Error
  unfolding socket_path remove_error serve_plugin
  open_server ctx_error rounds p =
      check "failed to remove old socket: "
        (sys.remove socket_path >>= λ err. pure (remove_error err))
        (check "failed to listen on socket: " (sys.listen socket_path)
          (serve_plugin ctx_error rounds p))

  -- `Start` by what the discovery answered
  unfoldable pub start_with :
      (ctx_error : String) → ℕ → Plugin → String ⊎ List CxiDevice → Action W (Error × Plugin)
  unfolding open_server set_ready
  start_with ctx_error rounds p (inl err) = pure (some (cat "failed to discover devices: " err), p)
  start_with ctx_error rounds p (inr devices) = do
    let q = record p { devices = devices }
    err ← open_server ctx_error rounds q
    pure (elim err [ none ↦ (none, set_ready true q) | some e ↦ (some e, q) ])

  unfoldable pub start : (ctx_error : String) → ℕ → Plugin → Action W (Error × Plugin)
  unfolding discover_devices start_with
  start ctx_error rounds p = discover_devices host >>= start_with ctx_error rounds p

  unfoldable pub stop : Plugin → Action W Plugin
  unfolding set_ready socket_path
  stop p = (λ w. (set_ready false p, (sys.remove socket_path (sys.stop_servers w)).1))
