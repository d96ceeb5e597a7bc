-- ===== src/Webhook/Setup.antt =====
-- pkg/webhook/setup.go
use slingshot_operator.Prelude.{Bool, true, false, [], ◌∷◌, ◌++◌, if◌then◌else◌}
use slingshot_operator.Prelude.Dict.{Dict}
use slingshot_operator.Webhook.Injector.{SidecarInjectorConfig, new_sidecar_injector}

pub record WebhookConfig : Type 0 where
  pub sidecar_injector : SidecarInjectorConfig
  pub enable_sidecar_injector : Bool
  pub enable_cxi_driver_webhook : Bool

-- What stands behind a path of the webhook server.
pub data Handler : Type 0 where
  sidecar_injector : SidecarInjectorConfig → Handler
  cxi_driver_validator : Handler

-- The paths that are registered with the webhook server.
unfoldable pub setup_with_manager : WebhookConfig → Dict Handler
unfolding new_sidecar_injector
setup_with_manager config =
    (if config.enable_sidecar_injector
      then ("/mutate-v1-pod", sidecar_injector (new_sidecar_injector config.sidecar_injector)) ∷ []
      else [])
    ++ (if config.enable_cxi_driver_webhook
        then ("/validate-cxi-hpe-com-v1-cxidriver", cxi_driver_validator) ∷ []
        else [])

unfoldable pub setup_sidecar_injector : SidecarInjectorConfig → Dict Handler
unfolding setup_with_manager
setup_sidecar_injector config = setup_with_manager (record {
  sidecar_injector = config;
  enable_sidecar_injector = true;
  enable_cxi_driver_webhook = false;
})
