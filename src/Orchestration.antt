-- ===== src/Orchestration.antt =====
-- packages/orchestration/src: the pure logic of the control plane, one child for each file.
pub mod Machines
pub mod Correction
pub mod Fallback
pub mod Scheduler
pub mod Dag
