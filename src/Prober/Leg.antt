-- ===== src/Prober/Leg.antt =====
-- One probed leg: its state, the four parts of its tick, and what they prove
-- (src/prober/mod.rs).
pub mod Port
pub mod State
pub mod Receive
pub mod Judge
pub mod Ask
pub mod Actuate
pub mod Tick
pub mod Carries
pub mod Condemned
pub mod Moves
pub mod Repeats
pub mod Asking
pub mod Held
mod Tests
