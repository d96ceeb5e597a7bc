-- ===== src/Controller/Reconcile/Failure.antt =====
-- What a run does when a component fails.
use slingshot_operator.Prelude.{◌≡◌, String, some, ◌⊎◌}
use slingshot_operator.Api.{CxiDriver}
use slingshot_operator.Kube.Client.{Action, Error, Client}
use slingshot_operator.Controller.Status.{Result, requeue_after, update_status_with_retry}
use slingshot_operator.Controller.Status.Laws.{ConditionLaws, condition_of}
use slingshot_operator.Controller.Status.Exact.{condition}
use slingshot_operator.Controller.Reconcile.{finish}
use slingshot_operator.Controller.Apply.{
  reconcile_driver_agent, reconcile_device_plugin, reconcile_retry_handler,
  reconcile_metrics_exporter,
}

-- The components of a run
pub data Part : Type 0 where
  driver_agent : Part
  device_plugin : Part
  retry_handler : Part
  metrics_exporter : Part

abbrev pub kind_of : Part → String
kind_of driver_agent = "DriverAgentReady"
kind_of device_plugin = "DevicePluginReady"
kind_of retry_handler = "RetryHandlerReady"
kind_of metrics_exporter = "MetricsExporterReady"

abbrev pub reason_of : Part → String
reason_of driver_agent = "DriverAgentFailed"
reason_of device_plugin = "DevicePluginFailed"
reason_of retry_handler = "RetryHandlerFailed"
reason_of metrics_exporter = "MetricsExporterFailed"

module _ {W : Type 0} (c : Client W) (laws : ConditionLaws c) (namespace : String) where
  abbrev pub action_of : Part → CxiDriver → Action W Error
  action_of driver_agent = reconcile_driver_agent c namespace
  action_of device_plugin = reconcile_device_plugin c namespace
  action_of retry_handler = reconcile_retry_handler c namespace
  action_of metrics_exporter = reconcile_metrics_exporter c namespace

  -- A run of the components that ended because an action failed: the failure's message, the driver
  -- whose status was then to be written, after the action and nothing else, and the repetition after 30
  -- seconds. The status says that the driver is degraded and not available, for the component's
  -- reason, and that the component is not ready.
  pub record FailsAt (part : Part) (r : Result × W) : Type 0 where
    pub given : CxiDriver
    pub before : W
    pub message : String
    pub written : CxiDriver
    pub action_fails : (action_of part given before).0 ≡ some message
    pub ends_there :
        r
        ≡ (requeue_after 30, (update_status_with_retry c written (action_of part given before).1).1)
    pub not_available :
        condition_of "Available" written
        ≡ some (condition "Available" "False" (reason_of part) message)
    pub degraded :
        condition_of "Degraded" written
        ≡ some (condition "Degraded" "True" (reason_of part) message)
    pub not_ready :
        condition_of (kind_of part) written
        ≡ some (condition (kind_of part) "False" "Failed" message)

  abbrev pub Ends : Result × W → Type 0
  Ends r =
      ((part : Part) × FailsAt part r)
      ⊎ ((d : CxiDriver) × ((w : W) × (r ≡ finish c namespace d w)))
