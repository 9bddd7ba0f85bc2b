-- ===== src/Workload.antt =====
-- The workload engine (src/workload).
pub mod Cap
pub mod Table
pub mod Relay
pub mod Bucket
pub mod Kernel
pub mod Report
pub mod Actor
