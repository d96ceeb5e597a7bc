-- ===== src/Kube.antt =====
-- The Kubernetes side that the program calls and does not implement: the objects that it writes, and
-- the client and the helpers of its libraries as an interface.
pub mod Workload
pub mod Client
pub mod Frame
pub mod NodeClient
