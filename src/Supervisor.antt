-- ===== src/Supervisor.antt =====
-- The supervisor (src/supervisor).
pub mod Child
