-- ===== src/Controller/Apply/Deploys.antt =====
-- What the cluster runs after a component was applied, by laws of the client: a cluster that no one
-- else writes keeps what was written to it.
use slingshot_operator.Prelude.{
  ◌≡◌, String, false, List, none, inl, inr, str_eq, Option-cases, arith,
}
use slingshot_operator.Api.{CxiDriver}
use slingshot_operator.Kube.Workload.{
  DaemonSet, DaemonSetSpec, MutatingWebhook, WebhookConfiguration,
}
use slingshot_operator.Kube.Client.{Fetch-cases, found, Action, Error, Client}
use slingshot_operator.Kube.Frame.{Keeps}
use slingshot_operator.Controller.Webhook.{
  webhook_name, sidecar_webhook_configuration, reconcile_sidecar_webhook,
}
use slingshot_operator.Controller.Apply.{create_or_update, apply_daemon_set, sidecar_webhook}

module _ {W : Type 0} (c : Client W) where
  -- What the reads and the write of the driver's status leave alone.
  pub record IsSettled (P : W → Type 0) : Type 0 where
    pub get_driver : (n : String) → Keeps P (c.get_driver n)
    pub update_driver_status : (d : CxiDriver) → Keeps P (c.update_driver_status d)
    pub get_daemon_set : (s n : String) → Keeps P (c.get_daemon_set s n)
    pub get_webhook : (n : String) → Keeps P (c.get_webhook n)
    pub retry_on_conflict : (m : Action W Error) → Keeps P m → Keeps P (c.retry_on_conflict m)

  -- `Runs` tells that the DaemonSet of a namespace and a name has a specification, and `Calls` that
  -- the webhook configuration of a name has the webhooks.
  pub record DeployLaws (Runs : String → String → DaemonSetSpec → W → Type 0)
      (Calls : String → List MutatingWebhook → W → Type 0) : Type 0 where
    pub runs_settled : (s n : String) (x : DaemonSetSpec) → IsSettled (Runs s n x)
    pub calls_settled : (n : String) (xs : List MutatingWebhook) → IsSettled (Calls n xs)
    pub found_daemon_set :
        (s n : String) (x : DaemonSet) (w : W)
        → (c.get_daemon_set s n w).0 ≡ found x
        → (x.namespace ≡ s) × (x.name ≡ n)
    pub found_webhook :
        (n : String) (x : WebhookConfiguration) (w : W)
        → (c.get_webhook n w).0 ≡ found x
        → x.name ≡ n
    pub owner :
        (d : CxiDriver) (x : DaemonSet)
        → (c.set_controller_reference d x).0 ≡ none
        → ((c.set_controller_reference d x).1.namespace ≡ x.namespace)
          × ((c.set_controller_reference d x).1.name ≡ x.name)
          × ((c.set_controller_reference d x).1.spec ≡ x.spec)
    pub create_runs :
        (x : DaemonSet) (w : W)
        → (c.create_daemon_set x w).0 ≡ none
        → Runs x.namespace x.name x.spec (c.create_daemon_set x w).1
    pub update_runs :
        (x : DaemonSet) (w : W)
        → (c.update_daemon_set x w).0 ≡ none
        → Runs x.namespace x.name x.spec (c.update_daemon_set x w).1
    pub create_other :
        (s n : String) (y : DaemonSetSpec) (x : DaemonSet)
        → str_eq n x.name ≡ false
        → Keeps (Runs s n y) (c.create_daemon_set x)
    pub update_other :
        (s n : String) (y : DaemonSetSpec) (x : DaemonSet)
        → str_eq n x.name ≡ false
        → Keeps (Runs s n y) (c.update_daemon_set x)
    pub create_calls :
        (x : WebhookConfiguration) (w : W)
        → (c.create_webhook x w).0 ≡ none
        → Calls x.name x.webhooks (c.create_webhook x w).1
    pub update_calls :
        (x : WebhookConfiguration) (w : W)
        → (c.update_webhook x w).0 ≡ none
        → Calls x.name x.webhooks (c.update_webhook x w).1
    pub create_webhook_runs :
        (s n : String) (y : DaemonSetSpec) (x : WebhookConfiguration)
        → Keeps (Runs s n y) (c.create_webhook x)
    pub update_webhook_runs :
        (s n : String) (y : DaemonSetSpec) (x : WebhookConfiguration)
        → Keeps (Runs s n y) (c.update_webhook x)
    pub create_calls_kept :
        (n : String) (ys : List MutatingWebhook) (x : DaemonSet)
        → Keeps (Calls n ys) (c.create_daemon_set x)
    pub update_calls_kept :
        (n : String) (ys : List MutatingWebhook) (x : DaemonSet)
        → Keeps (Calls n ys) (c.update_daemon_set x)

module _ {W : Type 0} (c : Client W) {Runs : String → String → DaemonSetSpec → W → Type 0}
    {Calls : String → List MutatingWebhook → W → Type 0} (laws : DeployLaws c Runs Calls)
    (namespace : String) where
  create_or_update-Runs :
      (x : DaemonSet) (w : W)
      → (create_or_update c namespace x w).0 ≡ none
      → Runs x.namespace x.name x.spec (create_or_update c namespace x w).1
  unfolding create_or_update
  create_or_update-Runs x w h =
      let w' = (c.get_daemon_set x.namespace x.name w).1 in
      elim (Fetch-cases (c.get_daemon_set x.namespace x.name w).0) [
        | inl e ↦ ground (arith, e, laws.create_runs x w')
        | inr (inl (m, e)) ↦ ground (arith, e)
        | inr (inr (old, e)) ↦
            let (s, n) = laws.found_daemon_set x.namespace x.name old w e in
            ground (arith, e, s, n, laws.update_runs (record old { spec = x.spec }) w')
      ]

  -- A DaemonSet that was applied without an error runs.
  pub apply-Runs :
      (d : CxiDriver) (x : DaemonSet) (w : W)
      → (apply_daemon_set c namespace d x w).0 ≡ none
      → Runs x.namespace x.name x.spec (apply_daemon_set c namespace d x w).1
  unfolding apply_daemon_set
  apply-Runs d x w h =
      let owned = (c.set_controller_reference d x).1 in
      ground (arith, laws.owner d x, create_or_update-Runs owned w)

  create_or_update-Keeps :
      (s n : String) (y : DaemonSetSpec) (x : DaemonSet)
      → str_eq n x.name ≡ false
      → Keeps (Runs s n y) (create_or_update c namespace x)
  unfolding create_or_update
  create_or_update-Keeps s n y x differ w h =
      let w' = (c.get_daemon_set x.namespace x.name w).1 in
      let h' = (laws.runs_settled s n y).get_daemon_set x.namespace x.name w h in
      elim (Fetch-cases (c.get_daemon_set x.namespace x.name w).0) [
        | inl e ↦ ground (arith, e, h', laws.create_other s n y x differ w')
        | inr (inl (m, e)) ↦ ground (arith, e, h')
        | inr (inr (old, e)) ↦
            let (_, named) = laws.found_daemon_set x.namespace x.name old w e in
            let other = record old { spec = x.spec } in
            ground (arith, e, h', laws.update_other s n y other (rw named differ) w')
      ]

  -- It leaves the DaemonSets of other names alone.
  pub apply-Keeps :
      (s n : String) (y : DaemonSetSpec) (d : CxiDriver) (x : DaemonSet)
      → str_eq n x.name ≡ false
      → Keeps (Runs s n y) (apply_daemon_set c namespace d x)
  unfolding apply_daemon_set
  apply-Keeps s n y d x differ w h = elim (Option-cases (c.set_controller_reference d x).0) [
    | inr (m, e) ↦ ground (arith, e)
    | inl e ↦
        let owned = (c.set_controller_reference d x).1 in
        let (_, named, _) = laws.owner d x e in
        ground (arith, e, create_or_update-Keeps s n y owned (rw named differ) w)
  ]

  create_or_update-Keeps_calls :
      (n : String) (ys : List MutatingWebhook) (x : DaemonSet)
      → Keeps (Calls n ys) (create_or_update c namespace x)
  unfolding create_or_update
  create_or_update-Keeps_calls n ys x w h =
      let w' = (c.get_daemon_set x.namespace x.name w).1 in
      let h' = (laws.calls_settled n ys).get_daemon_set x.namespace x.name w h in
      elim (Fetch-cases (c.get_daemon_set x.namespace x.name w).0) [
        | inl e ↦ ground (arith, e, h', laws.create_calls_kept n ys x w')
        | inr (inl (m, e)) ↦ ground (arith, e, h')
        | inr (inr (old, e)) ↦
            ground (arith, e, h', laws.update_calls_kept n ys (record old { spec = x.spec }) w')
      ]

  pub apply-Keeps_calls :
      (n : String) (ys : List MutatingWebhook) (d : CxiDriver) (x : DaemonSet)
      → Keeps (Calls n ys) (apply_daemon_set c namespace d x)
  unfolding apply_daemon_set
  apply-Keeps_calls n ys d x w h =
      let owned = (c.set_controller_reference d x).1 in
      ground (arith, create_or_update-Keeps_calls n ys owned w)

  -- The webhook that was applied without an error is called.
  pub webhook-Calls :
      (d : CxiDriver) (w : W)
      → (sidecar_webhook c namespace d w).0 ≡ none
      → Calls
          (webhook_name d)
          (sidecar_webhook_configuration namespace d).webhooks
          (sidecar_webhook c namespace d w).1
  unfolding sidecar_webhook reconcile_sidecar_webhook
  webhook-Calls d w h =
      let x = sidecar_webhook_configuration namespace d in
      let w' = (c.get_webhook (webhook_name d) w).1 in
      elim (Fetch-cases (c.get_webhook (webhook_name d) w).0) [
        | inl e ↦ ground (arith, e, laws.create_calls x w')
        | inr (inl (m, e)) ↦ ground (arith, e)
        | inr (inr (old, e)) ↦
            let named = laws.found_webhook (webhook_name d) old w e in
            ground (arith, e, named, laws.update_calls (record old { webhooks = x.webhooks }) w')
      ]

  pub webhook-Keeps :
      (s n : String) (y : DaemonSetSpec) (d : CxiDriver)
      → Keeps (Runs s n y) (sidecar_webhook c namespace d)
  unfolding sidecar_webhook reconcile_sidecar_webhook
  webhook-Keeps s n y d w h =
      let x = sidecar_webhook_configuration namespace d in
      let w' = (c.get_webhook (webhook_name d) w).1 in
      let h' = (laws.runs_settled s n y).get_webhook (webhook_name d) w h in
      elim (Fetch-cases (c.get_webhook (webhook_name d) w).0) [
        | inl e ↦ ground (arith, e, h', laws.create_webhook_runs s n y x w')
        | inr (inl (m, e)) ↦ ground (arith, e, h')
        | inr (inr (old, e)) ↦
            ground (
              arith,
              e,
              h',
              laws.update_webhook_runs s n y (record old { webhooks = x.webhooks }) w',
            )
      ]
