-- ===== src/Cmd.antt =====
-- The main programs of the operator and the agents: the flags that they declare and the configuration
-- that they start with, by the arguments and the environment, or the status that they exit with.
-- Output, signals and the end of a program are left out.
pub mod Start
pub mod DevicePlugin
pub mod DriverAgent
pub mod MetricsExporter
pub mod RetryHandler
pub mod Operator
pub mod Deployed
pub mod Exporter
