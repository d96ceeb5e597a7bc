-- ===== src/Webhook/Validator/Verdict.antt =====
-- Which drivers are admitted, and what the reconciler may expect of one.
use slingshot_operator.Prelude.{
  ◌≡◌, refl, sym, ◌∙◌, String, Bool, true, false, not, ◌&&◌, ◌||◌, List, [], ◌∷◌, ◌++◌, none, ◌⊎◌,
  inl, inr, str_eq, is_some, arith, Bool-cases, str_cases,
}
use slingshot_operator.Prelude.Int.{pos, int_le}
use slingshot_operator.Api.{
  CxiDriver, driver_source_dkms, driver_source_prebuilt, driver_source_preinstalled,
  device_sharing_mode_shared, retry_handler_mode_daemon_set, retry_handler_mode_sidecar,
  retry_handler_mode_kernel, retry_handler_mode_none,
}
use slingshot_operator.Kube.Client.{Client, pure}
use slingshot_operator.Controller.DaemonSets.RetryHandler.{build_retry_handler_daemon_set}
use slingshot_operator.Controller.Apply.{apply_daemon_set, sidecar_webhook, reconcile_retry_handler}
use slingshot_operator.Webhook.Admission.{Response, allowed, Request, Codec}
use slingshot_operator.Webhook.Validator.{
  Std, when, is_valid_mode, is_valid_sharing_mode, version_errors, source_errors,
  retry_handler_errors, device_plugin_errors, update_strategy_errors, errors, verdict, handle,
}

abbrev pub is_allowed : {Raw : Type 0} → Response Raw → Bool
is_allowed (allowed _ _) = true
is_allowed _ = false

-- The source's own field is there, where its type needs one.
abbrev pub source_given : CxiDriver → Bool
source_given d =
    let kind = d.spec.source.source_type in
    (str_eq kind driver_source_dkms && not (str_eq d.spec.source.repository ""))
    || (str_eq kind driver_source_prebuilt && not (str_eq d.spec.source.prebuilt_cache ""))
    || str_eq kind driver_source_preinstalled
    || str_eq kind ""

abbrev pub mode_known : CxiDriver → Bool
mode_known d = not d.spec.retry_handler.enabled || is_valid_mode d.spec.retry_handler.mode

-- A known sharing mode, and room for one device if that is the shared one.
abbrev pub sharing_possible : CxiDriver → Bool
sharing_possible d =
    let mode = d.spec.device_plugin.sharing_mode in
    not d.spec.device_plugin.enabled
    || (is_valid_sharing_mode mode
        && (not (str_eq mode device_sharing_mode_shared)
            || int_le (pos 1) d.spec.device_plugin.shared_capacity))

abbrev pub timeout_parses : Std → CxiDriver → Bool
timeout_parses std d =
    let timeout = d.spec.update_strategy.health_check_timeout in
    str_eq timeout "" || not (is_some (std.parse_duration_error timeout))

abbrev pub acceptable : Std → CxiDriver → Bool
acceptable std d =
    not (str_eq d.spec.version "")
    && source_given d
    && mode_known d
    && sharing_possible d
    && timeout_parses std d

abbrev is_empty {ℓ} : {A : Type ℓ} → List A → Bool
is_empty [] = true
is_empty (_ ∷ _) = false

is_empty-append {ℓ} :
    {A : Type ℓ} (xs ys : List A) → is_empty (xs ++ ys) ≡ (is_empty xs && is_empty ys)
is_empty-append [] ys = refl
is_empty-append (x ∷ xs) ys = refl

empty-when : (b : Bool) (s : String) → is_empty (when b s) ≡ not b
empty-when true s = refl
empty-when false s = refl

module _ (std : Std) where
  empty-version : (v : String) → is_empty (version_errors std v) ≡ not (str_eq v "")
  unfolding version_errors
  empty-version v = empty-when (str_eq v "") "spec.version is required"

  empty-source : (d : CxiDriver) → is_empty (source_errors std d) ≡ source_given d
  unfolding source_errors
  empty-source d =
      let kind = d.spec.source.source_type in
      elim (str_cases kind driver_source_dkms) [
        | inl e ↦ rw (e, source_errors) (ground arith)
        | inr e ↦
            rw (e, source_errors)
              (elim (str_cases kind driver_source_prebuilt) [
                | inl e' ↦ rw (e', source_errors) (ground arith)
                | inr e' ↦ rw (e', source_errors) (ground arith)
              ])
      ]

  empty-retry_handler : (d : CxiDriver) → is_empty (retry_handler_errors std d) ≡ mode_known d
  unfolding retry_handler_errors
  empty-retry_handler d = ground arith

  empty-device_plugin : (d : CxiDriver) → is_empty (device_plugin_errors std d) ≡ sharing_possible d
  unfolding device_plugin_errors
  empty-device_plugin d = ground arith

  empty-update_strategy :
      (d : CxiDriver) → is_empty (update_strategy_errors std d) ≡ timeout_parses std d
  unfolding update_strategy_errors
  empty-update_strategy d = ground arith

  empty-errors : (d : CxiDriver) → is_empty (errors std d) ≡ acceptable std d
  unfolding errors
  empty-errors d = simp (
    is_empty-append, empty-version, empty-source, empty-retry_handler, empty-device_plugin,
    empty-update_strategy,
  )

allowed-verdict :
    (Raw : Type 0) (es ws : List String) → is_allowed {Raw = Raw} (verdict es ws) ≡ is_empty es
unfolding verdict
allowed-verdict Raw [] ws = refl
allowed-verdict Raw (e ∷ es) ws = refl

module _ {Raw : Type 0} (std : Std) (codec : Codec Raw) where
  pub admits_acceptable :
      (req : Request Raw) (d : CxiDriver)
      → codec.decode_driver req.object ≡ inr d
      → is_allowed (handle std codec req) ≡ acceptable std d
  unfolding handle
  admits_acceptable req d e =
      rw (e, handle) (allowed-verdict Raw (errors std d) _ ∙ empty-errors std d)

-- What the reconciler does about the retry handler of a driver: one of its four modes.
abbrev pub Dispatches : {W : Type 0} → Client W → String → CxiDriver → Type 0
Dispatches c namespace d =
    (reconcile_retry_handler c namespace d
      ≡ apply_daemon_set c namespace d (build_retry_handler_daemon_set namespace d))
    ⊎ (reconcile_retry_handler c namespace d ≡ sidecar_webhook c namespace d)
    ⊎ (reconcile_retry_handler c namespace d ≡ pure none)

known_mode-Dispatches :
    {W : Type 0} (c : Client W) (namespace : String) (d : CxiDriver)
    → is_valid_mode d.spec.retry_handler.mode ≡ true
    → Dispatches c namespace d
unfolding reconcile_retry_handler is_valid_mode
known_mode-Dispatches c namespace d h =
    let mode = d.spec.retry_handler.mode in
    elim (Bool-cases (str_eq mode retry_handler_mode_daemon_set || str_eq mode "")) [
      | inl e ↦ inl (rw (e, reconcile_retry_handler) refl)
      | inr e ↦ inr (elim (Bool-cases (str_eq mode retry_handler_mode_sidecar)) [
        | inl e' ↦ inl (rw (e, reconcile_retry_handler) (rw e' refl))
        | inr e' ↦ inr (
            rw (e, reconcile_retry_handler)
              (rw e' (elim (Bool-cases (str_eq mode retry_handler_mode_kernel)) [
                | inl k ↦ rw k refl
                | inr k ↦ rw k (elim (Bool-cases (str_eq mode retry_handler_mode_none)) [
                  | inl n ↦ rw n refl
                  | inr n ↦ absurd (ground arith)
                ])
              ])))
      ])
    ]

-- The retry handler of an admitted driver that enables it is reconciled by one of the modes: the
-- run applies its DaemonSet, applies the sidecar's webhook or does nothing, and never ends in the
-- branch for an unknown mode.
pub admitted_mode :
    {Raw W : Type 0} (std : Std) (codec : Codec Raw) (c : Client W) (namespace : String)
    (req : Request Raw) (d : CxiDriver)
    → codec.decode_driver req.object ≡ inr d
    → is_allowed (handle std codec req) ≡ true
    → d.spec.retry_handler.enabled ≡ true
    → Dispatches c namespace d
admitted_mode std codec c namespace req d e h on =
    known_mode-Dispatches c namespace d
      (let ok = sym (admits_acceptable std codec req d e) ∙ h in ground arith)
