-- ===== src/Tests.antt =====
-- The theorems at concrete inputs, and runs of the model.
pub mod Cluster
pub mod Machine
mod Agent
mod Commands
pub mod Allocation
pub mod Reconciler
mod Admission
mod Handlers
mod Scrapes
mod Server
mod Deployment
mod Copy
mod Devices
pub mod Watcher
