-- ===== src/Prober.antt =====
-- The probers (src/prober).
pub mod Hysteresis
pub mod Decide
pub mod Passive
pub mod Frame
pub mod Bpf
pub mod Leg
pub mod Build
pub mod Report
