-- ===== src/Controller/Webhook.antt =====
-- internal/controller/cxidriver_controller.go: `reconcileSidecarWebhook` and `cleanupResources`.
use Prim.Native.String.{◌++◌ as cat}
use slingshot_operator.Prelude.{String, [], ◌∷◌, none, some, str_eq, if◌then◌else◌}
use slingshot_operator.Api.{CxiDriver, retry_handler_mode_sidecar}
use slingshot_operator.Kube.Workload.{WebhookConfiguration}
use slingshot_operator.Kube.Client.{
  found, not_found, failed, removed, missing, kept, Action, Error, Client, pure, ◌>>=◌,
}
use slingshot_operator.Controller.Singleton.{wrap, label_managed_by}

abbrev pub webhook_name : CxiDriver → String
webhook_name d = cat d.name "-sidecar-injector"

unfoldable pub sidecar_webhook_configuration : String → CxiDriver → WebhookConfiguration
sidecar_webhook_configuration namespace d = record {
  name = webhook_name d;
  labels = (label_managed_by, "slingshot-operator") ∷ ("app.kubernetes.io/instance", d.name) ∷ [];
  annotations =
      ("cert-manager.io/inject-ca-from", cat namespace "/slingshot-operator-serving-cert") ∷ [];
  webhooks =
      record {
        name = "sidecar-injector.slingshot.hpe.com";
        service_name = "slingshot-operator-webhook-service";
        service_namespace = namespace;
        service_path = "/mutate-v1-pod";
        operations = "CREATE" ∷ [];
        api_groups = "" ∷ [];
        api_versions = "v1" ∷ [];
        resources = "pods" ∷ [];
        failure_policy = "Ignore";
        side_effects = "None";
        match_policy = "Equivalent";
        admission_review_versions = "v1" ∷ [];
        selector_key = "slingshot.hpe.com/inject-sidecar";
        selector_operator = "In";
        selector_values = "enabled" ∷ "true" ∷ [];
      }
      ∷ [];
}

-- `fmt.Errorf("<what> MutatingWebhookConfiguration <name>: %w", err)`
abbrev pub about_webhook : String → String → String → String
about_webhook what name rest = cat what (cat " MutatingWebhookConfiguration " (cat name rest))

module _ {W : Type 0} (c : Client W) where
  unfoldable pub reconcile_sidecar_webhook : String → CxiDriver → Action W Error
  unfolding sidecar_webhook_configuration
  reconcile_sidecar_webhook namespace d =
      let webhook = sidecar_webhook_configuration namespace d in
      do
        r ← c.get_webhook (webhook_name d)
        elim r [
          | not_found ↦ (do
            e ← c.create_webhook webhook
            pure (wrap (about_webhook "creating" (webhook_name d) ": ") e))
          | failed e ↦ pure (some (cat (about_webhook "getting" (webhook_name d) ": ") e))
          | found existing ↦ (do
            e ← c.update_webhook (record existing { webhooks = webhook.webhooks })
            pure (wrap (about_webhook "updating" (webhook_name d) ": ") e))
        ]

  delete_sidecar_webhook : String → WebhookConfiguration → Action W Error
  delete_sidecar_webhook name webhook = do
    r ← c.delete_webhook webhook
    elim r [
      | removed ↦ pure none
      | missing ↦ pure none
      | kept e ↦ pure (some (cat (about_webhook "deleting" name ": ") e))
    ]

  -- The DaemonSets are left to the garbage collector, by their owner.
  unfoldable pub cleanup_resources : CxiDriver → Action W Error
  unfolding delete_sidecar_webhook
  cleanup_resources d =
      if str_eq d.spec.retry_handler.mode retry_handler_mode_sidecar
      then (do
        r ← c.get_webhook (webhook_name d)
        elim r [
          | found webhook ↦ delete_sidecar_webhook (webhook_name d) webhook
          | not_found ↦ pure none
          | failed e ↦
              pure (some (cat (about_webhook "getting" (webhook_name d) " for cleanup: ") e))
        ])
      else pure none
