-- ===== src/Controller/Conditions.antt =====
-- internal/controller/cxidriver_controller.go: the conditions that the reconciler sets.
use slingshot_operator.Prelude.{String, Bool, if◌then◌else◌}
use slingshot_operator.Api.{CxiDriver}
use slingshot_operator.Kube.Client.{Client}

abbrev pub condition_type_available : String
condition_type_available = "Available"

abbrev pub condition_type_progressing : String
condition_type_progressing = "Progressing"

abbrev pub condition_type_degraded : String
condition_type_degraded = "Degraded"

abbrev pub condition_type_driver_agent_ready : String
condition_type_driver_agent_ready = "DriverAgentReady"

abbrev pub condition_type_device_plugin_ready : String
condition_type_device_plugin_ready = "DevicePluginReady"

abbrev pub condition_type_retry_handler_ready : String
condition_type_retry_handler_ready = "RetryHandlerReady"

abbrev pub condition_type_metrics_exporter_ready : String
condition_type_metrics_exporter_ready = "MetricsExporterReady"

-- metav1.ConditionTrue and ConditionFalse
abbrev pub condition_true : String
condition_true = "True"

abbrev pub condition_false : String
condition_false = "False"

module _ {W : Type 0} (c : Client W) where
  -- meta.SetStatusCondition on the driver's conditions
  unfoldable pub set_condition : String → String → String → String → CxiDriver → CxiDriver
  set_condition kind status reason message d = record d {
    status = record (d.status) {
      conditions =
          c.set_status_condition
            (record { condition_type = kind; status = status; reason = reason; message = message })
            d.status.conditions;
    };
  }

  -- meta.RemoveStatusCondition on the driver's conditions
  unfoldable pub remove_condition : String → CxiDriver → CxiDriver
  remove_condition kind d = record d {
    status = record (d.status) { conditions = c.remove_status_condition kind d.status.conditions };
  }

  unfoldable pub set_component_condition : String → Bool → String → String → CxiDriver → CxiDriver
  unfolding set_condition
  set_component_condition kind ready reason message d =
      set_condition kind (if ready then condition_true else condition_false) reason message d

  unfoldable pub set_degraded_condition : String → String → CxiDriver → CxiDriver
  unfolding set_condition
  set_degraded_condition reason message d =
      set_condition condition_type_available condition_false reason message
        (set_condition condition_type_degraded condition_true reason message d)
