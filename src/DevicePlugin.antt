-- ===== src/DevicePlugin.antt =====
-- pkg/deviceplugin: the node's CXI devices, the plugin's configuration, the device list that it
-- streams to kubelet, the preferred allocation and the allocation.
pub mod Device
pub mod Discovery
pub mod Plugin
pub mod Advertise
pub mod Prefer
pub mod Allocate
pub mod Server
