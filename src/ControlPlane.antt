-- ===== src/ControlPlane.antt =====
-- services/control-plane/src: the durable state of projects, missions, runs and worker leases.
pub mod Store
pub mod Journal
pub mod Fence
pub mod Lifecycle
pub mod Pause
pub mod Resume
pub mod Leases
pub mod Changes
pub mod Calls
