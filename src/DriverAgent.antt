-- ===== src/DriverAgent.antt =====
-- pkg/driveragent: the agent that installs the driver on a node and publishes the node's devices.
pub mod Agent
pub mod Labels
pub mod Devices
pub mod Modules
pub mod Version
pub mod Archive
pub mod Download
pub mod Source
pub mod Build
pub mod Install
pub mod Watch
