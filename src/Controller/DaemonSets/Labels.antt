-- ===== src/Controller/DaemonSets/Labels.antt =====
-- The labels, volumes and small defaults that the four builders share.
use slingshot_operator.Prelude.{String, Bool, [], ◌∷◌, none, some, str_eq, if◌then◌else◌}
use slingshot_operator.Prelude.Dict.{Dict}
use slingshot_operator.Kube.Workload.{Volume, EnvVar, SecurityContext, DaemonSetStatus}
use slingshot_operator.Prelude.Int.{pos}

abbrev pub component_driver_agent : String
component_driver_agent = "driver-agent"

abbrev pub component_device_plugin : String
component_device_plugin = "device-plugin"

abbrev pub component_retry_handler : String
component_retry_handler = "retry-handler"

abbrev pub component_metrics_exporter : String
component_metrics_exporter = "metrics-exporter"

-- The label map that each builder starts with.
unfoldable pub component_labels : String → String → Dict String
component_labels component instance' =
    ("app.kubernetes.io/managed-by", "slingshot-operator")
    ∷ ("app.kubernetes.io/component", component)
    ∷ ("app.kubernetes.io/instance", instance')
    ∷ []

-- A text, or its default if it is empty.
unfoldable pub or_default : String → String → String
or_default s d = if str_eq s "" then d else s

abbrev pub host_volume : String → String → Volume
host_volume name path = record { name = name; host_path = some path }

abbrev pub plain_env : String → String → EnvVar
plain_env name value = record { name = name; value = value; field_path = none }

abbrev pub node_name_env : EnvVar
node_name_env = record { name = "NODE_NAME"; value = ""; field_path = some "spec.nodeName" }

abbrev pub privileged_context : Bool → SecurityContext
privileged_context b = record { privileged = some b; run_as_user = none; capabilities = [] }

abbrev pub no_status : DaemonSetStatus
no_status = record {
  number_ready = pos 0;
  desired_number_scheduled = pos 0;
  number_unavailable = pos 0;
}
