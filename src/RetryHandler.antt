-- ===== src/RetryHandler.antt =====
-- pkg/retryhandler/supervisor.go: one goroutine for each device keeps `cxi_rh` running.
pub mod Supervisor
pub mod Handler
pub mod Backoff
pub mod Flag
pub mod Stop
pub mod Status
pub mod Race
