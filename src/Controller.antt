-- ===== src/Controller.antt =====
-- internal/controller/cxidriver_controller.go: the reconciler of the CXIDriver resource.
pub mod Singleton
pub mod Conditions
pub mod DaemonSets
pub mod Apply
pub mod Webhook
pub mod Status
pub mod Reconcile
