-- ===== src/Webhook/Validator.antt =====
-- pkg/webhook/cxidriver_validator.go: the validating webhook for CXIDriver resources. The children
-- prove which drivers it accepts and what that means for the reconciler.
mod Semver
pub mod Verdict
use Prim.Native.String.{◌++◌ as cat}
use slingshot_operator.Prelude.{
  String, Bool, true, false, not, ◌&&◌, ◌||◌, List, [], ◌∷◌, ◌++◌, Option, none, some, inl, inr,
  if◌then◌else◌, str_eq,
}
use slingshot_operator.Prelude.Int.{ℤ, pos, int_le, show_int}
use slingshot_operator.Api.{
  CxiDriver, driver_source_dkms, driver_source_prebuilt, driver_source_preinstalled,
  retry_handler_mode_daemon_set, retry_handler_mode_sidecar, retry_handler_mode_kernel,
  retry_handler_mode_none, device_sharing_mode_shared, device_sharing_mode_exclusive,
}
use slingshot_operator.Webhook.Admission.{
  Response, errored, allowed, denied, Operation, create, update, other, Request, Codec,
}
use slingshot_operator.Webhook.Validator.Semver.{is_semver}

-- What is taken of Go's library: `%q`, and the error of `time.ParseDuration`, if there is one.
pub record Std : Type 0 where
  pub quote : String → String
  pub parse_duration_error : String → Option String

-- One text if the test holds.
abbrev pub when : Bool → String → List String
when true s = s ∷ []
when false s = []

-- `%v` of a slice of texts
join : List String → String
join [] = ""
join (x ∷ []) = x
join (x ∷ y ∷ xs) = cat x (cat " " (join (y ∷ xs)))

unfoldable pub show_list : List String → String
unfolding join
show_list xs = cat "[" (cat (join xs) "]")

-- The modes that `switch` lists.
unfoldable pub is_valid_mode : String → Bool
is_valid_mode mode =
    str_eq mode retry_handler_mode_daemon_set
    || str_eq mode retry_handler_mode_sidecar
    || str_eq mode retry_handler_mode_kernel
    || str_eq mode retry_handler_mode_none
    || str_eq mode ""

unfoldable pub is_valid_sharing_mode : String → Bool
is_valid_sharing_mode mode =
    str_eq mode device_sharing_mode_shared
    || str_eq mode device_sharing_mode_exclusive
    || str_eq mode ""

-- `Allowed("")` without warnings is the one with none.
unfoldable pub verdict : {Raw : Type 0} → List String → List String → Response Raw
unfolding show_list
verdict [] warnings = allowed "" warnings
verdict (e ∷ es) warnings = denied (cat "validation failed: " (show_list (e ∷ es)))

module _ (std : Std) where
  unfoldable pub version_errors : String → List String
  version_errors v = when (str_eq v "") "spec.version is required"

  unfoldable pub version_warnings : String → List String
  version_warnings v =
      when (not (str_eq v "") && not (is_semver v))
        (cat "spec.version " (cat (std.quote v) " does not follow semver format (e.g., 1.8.3)"))

  unfoldable pub source_errors : CxiDriver → List String
  source_errors d =
      let source = d.spec.source.source_type in
      if str_eq source driver_source_dkms
      then when (str_eq d.spec.source.repository "")
          "spec.source.repository is required when source.type is 'dkms'"
      else if str_eq source driver_source_prebuilt
      then when (str_eq d.spec.source.prebuilt_cache "")
          "spec.source.prebuiltCache is required when source.type is 'prebuilt'"
      else if str_eq source driver_source_preinstalled || str_eq source ""
      then []
      else cat "spec.source.type must be one of: dkms, prebuilt, preinstalled (got "
          (cat (std.quote source) ")")
        ∷ []

  unfoldable pub retry_handler_errors : CxiDriver → List String
  unfolding is_valid_mode
  retry_handler_errors d =
      let mode = d.spec.retry_handler.mode in
      when (d.spec.retry_handler.enabled && not (is_valid_mode mode)) (
        cat "spec.retryHandler.mode must be one of: daemonset, sidecar, kernel, none (got "
          (cat (std.quote mode) ")"))

  unfoldable pub retry_handler_warnings : CxiDriver → List String
  retry_handler_warnings d = elim (d.spec.retry_handler.sidecar) [
    | some _ ↦ []
    | none ↦
        when
          (d.spec.retry_handler.enabled
            && str_eq d.spec.retry_handler.mode retry_handler_mode_sidecar)
          "spec.retryHandler.sidecar is not configured; using defaults"
  ]

  unfoldable pub device_plugin_errors : CxiDriver → List String
  unfolding is_valid_sharing_mode
  device_plugin_errors d =
      let mode = d.spec.device_plugin.sharing_mode in
      if d.spec.device_plugin.enabled
      then when (not (is_valid_sharing_mode mode)) (
          cat "spec.devicePlugin.sharingMode must be one of: shared, exclusive (got "
            (cat (std.quote mode) ")"))
        ++ when
            (int_le d.spec.device_plugin.shared_capacity (pos 0)
              && str_eq mode device_sharing_mode_shared)
            "spec.devicePlugin.sharedCapacity must be at least 1 when sharingMode is 'shared'"
      else []

  unfoldable pub device_plugin_warnings : CxiDriver → List String
  device_plugin_warnings d =
      when
        (d.spec.device_plugin.enabled
          && not (int_le d.spec.device_plugin.shared_capacity (pos 1000)))
        (cat "spec.devicePlugin.sharedCapacity=" (
          cat (show_int d.spec.device_plugin.shared_capacity)
            " is very high; consider if this is intentional"))

  unfoldable pub update_strategy_errors : CxiDriver → List String
  update_strategy_errors d =
      let timeout = d.spec.update_strategy.health_check_timeout in
      if str_eq timeout "" then [] else elim (std.parse_duration_error timeout) [
        | none ↦ []
        | some err ↦ cat "spec.updateStrategy.healthCheckTimeout is not a valid duration: " err ∷ []
      ]

  unfoldable pub conflict_warnings : CxiDriver → List String
  conflict_warnings d =
      when
        (str_eq d.spec.retry_handler.mode retry_handler_mode_kernel
          && str_eq d.spec.source.source_type driver_source_preinstalled)
        "kernel retry handler mode requires driver to be built with CONFIG_CXI_RETRY_HANDLER=y"

  -- A field that was set and is another now.
  unfoldable pub change_warning : String → String → String → String → List String
  change_warning field consequence old new = when (not (str_eq old "") && not (str_eq new old)) (
      cat "changing " (
        cat field
          (cat " from " (cat (std.quote old) (cat " to " (cat (std.quote new) consequence))))))

  unfoldable pub update_warnings : CxiDriver → CxiDriver → List String
  unfolding change_warning
  update_warnings old d =
      change_warning "devicePlugin.resourceName" " will require workloads to be updated"
        old.spec.device_plugin.resource_name d.spec.device_plugin.resource_name
      ++ change_warning "retryHandler.mode" " may disrupt running workloads"
          old.spec.retry_handler.mode d.spec.retry_handler.mode

  unfoldable pub errors : CxiDriver → List String
  unfolding version_errors source_errors retry_handler_errors device_plugin_errors
      update_strategy_errors
  errors d =
      version_errors d.spec.version
      ++ source_errors d
      ++ retry_handler_errors d
      ++ device_plugin_errors d
      ++ update_strategy_errors d

  unfoldable pub warnings : CxiDriver → List String
  unfolding version_warnings retry_handler_warnings device_plugin_warnings conflict_warnings
  warnings d =
      version_warnings d.spec.version
      ++ retry_handler_warnings d
      ++ device_plugin_warnings d
      ++ conflict_warnings d

  -- The warnings of an update are left out where the old object cannot be decoded.
  unfoldable pub operation_warnings :
      {Raw : Type 0} → Codec Raw → Request Raw → CxiDriver → List String
  unfolding update_warnings
  operation_warnings codec req d = elim req.operation [
    | update ↦ elim (codec.decode_driver req.old_object) [
      | inl _ ↦ []
      | inr old ↦ update_warnings old d
    ]
    | create ↦ []
    | other ↦ []
  ]

  unfoldable pub handle : {Raw : Type 0} → Codec Raw → Request Raw → Response Raw
  unfolding errors warnings operation_warnings verdict
  handle codec req = elim (codec.decode_driver req.object) [
    | inl err ↦ errored 400 err
    | inr d ↦ verdict (errors d) (warnings d ++ operation_warnings codec req d)
  ]
