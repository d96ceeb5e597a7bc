-- ===== src/DevicePlugin/Server/Registered.antt =====
-- What has happened when `Start` returns.
use slingshot_operator.Prelude.{
  ℕ, ◌≡◌, refl, ap, String, true, false, none, some, List, ◌⊎◌, inl, inr,
}
use slingshot_operator.Prelude.Action.{Error, pure, check, check_after, check_last, ◌>>=◌}
use slingshot_operator.Host.{Host}
use slingshot_operator.DevicePlugin.Device.{CxiDevice}
use slingshot_operator.DevicePlugin.Plugin.{Plugin}
use slingshot_operator.DevicePlugin.Discovery.{discover_devices}
use slingshot_operator.DevicePlugin.Server.{
  PluginSystem, RegisterRequest, set_ready, plugin_readyz, register_request, remove_error,
  wait_for_server, register_plugin, serve_plugin, open_server, start_with, start, socket_path,
  kubelet_socket,
}
use Prim.Native.String.{◌++◌ as cat}

module _ {W : Type 0} (host : Host W) (sys : PluginSystem W) where
  -- The state is the one after a call of Register with the request that kubelet accepted.
  abbrev pub Accepted : RegisterRequest → W → Type 0
  Accepted req w = (v : W) × (sys.register req v ≡ (none, w))

  register-Accepted :
      (p : Plugin) (w : W)
      → (register_plugin host sys p w).0 ≡ none
      → Accepted (register_request p) (register_plugin host sys p w).1
  unfolding register_plugin
  register-Accepted p w =
      check_after (Accepted (register_request p)) "failed to connect to kubelet: "
        (sys.connect (cat "unix://" kubelet_socket))
        (check "failed to register: " (sys.register (register_request p)) (pure none))
        (check_last (Accepted (register_request p)) "failed to register: "
          (sys.register (register_request p))
          (λ v h. (v, ap (λ (e : Error). (e, (sys.register (register_request p) v).1)) h)))
        w

  serve-Accepted :
      (ctx_error : String) (rounds : ℕ) (p : Plugin) (w : W)
      → (serve_plugin host sys ctx_error rounds p w).0 ≡ none
      → Accepted (register_request p) (serve_plugin host sys ctx_error rounds p w).1
  unfolding serve_plugin
  serve-Accepted ctx_error rounds p w =
      check_after (Accepted (register_request p)) "server failed to start: "
        (wait_for_server host sys ctx_error rounds)
        (check "failed to register with kubelet: " (register_plugin host sys p) (pure none))
        (check_last (Accepted (register_request p)) "failed to register with kubelet: "
          (register_plugin host sys p) (register-Accepted p))
        (sys.serve w)

  open-Accepted :
      (ctx_error : String) (rounds : ℕ) (p : Plugin) (w : W)
      → (open_server host sys ctx_error rounds p w).0 ≡ none
      → Accepted (register_request p) (open_server host sys ctx_error rounds p w).1
  unfolding open_server
  open-Accepted ctx_error rounds p =
      let serving = serve_plugin host sys ctx_error rounds p in
      check_after (Accepted (register_request p)) "failed to remove old socket: "
        (sys.remove socket_path >>= λ err. pure (remove_error err))
        (check "failed to listen on socket: " (sys.listen socket_path) serving)
        (check_after (Accepted (register_request p)) "failed to listen on socket: "
          (sys.listen socket_path) serving (serve-Accepted ctx_error rounds p))

  -- What /readyz answers when `Start` has returned, by its error.
  abbrev pub Started : RegisterRequest → (Error × Plugin) × W → Type 0
  Started req ((none, q), w) = (plugin_readyz q ≡ (200, "ready\n")) × Accepted req w
  Started req ((some err, q), w) = plugin_readyz q ≡ (503, "not ready\n")

  opened :
      (req : RegisterRequest) (q : Plugin) (r : Error × W)
      → q.ready ≡ false
      → (r.0 ≡ none → Accepted req r.1)
      → Started req (elim r.0 [ none ↦ (none, set_ready true q) | some e ↦ (some e, q) ], r.1)
  unfolding plugin_readyz set_ready
  opened req q (none, w) h acc = (refl, acc refl)
  opened req q (some e, w) h acc = rw h refl

  with-Started :
      (ctx_error : String) (rounds : ℕ) (p : Plugin) (found : String ⊎ List CxiDevice) (w : W)
      → p.ready ≡ false
      → Started (register_request p) (start_with host sys ctx_error rounds p found w)
  unfolding start_with plugin_readyz register_request
  with-Started ctx_error rounds p (inl err) w h = rw h refl
  with-Started ctx_error rounds p (inr devices) w h =
      let q = record p { devices = devices } in
      opened (register_request p) q (open_server host sys ctx_error rounds q w) h
        (open-Accepted ctx_error rounds q w)

  -- A plugin that was not ready is ready after `Start` exactly if `Start` returned no error, and then
  -- the last thing it did was a registration with kubelet that was accepted, under the plugin's
  -- resource name; after an error /readyz answers 503.
  pub start_registered :
      (ctx_error : String) (rounds : ℕ) (p : Plugin) (w : W)
      → p.ready ≡ false
      → Started (register_request p) (start host sys ctx_error rounds p w)
  unfolding start
  start_registered ctx_error rounds p w =
      let r = discover_devices host w in with-Started ctx_error rounds p r.0 r.1
