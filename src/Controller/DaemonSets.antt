-- ===== src/Controller/DaemonSets.antt =====
-- internal/controller/cxidriver_controller.go: the DaemonSets that the reconciler deploys, one builder
-- to a child.
pub mod Labels
pub mod DriverAgent
pub mod DevicePlugin
pub mod RetryHandler
pub mod MetricsExporter
