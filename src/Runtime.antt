-- ===== src/Runtime.antt =====
-- The runtime (app/runtime).
pub mod Persistence
pub mod Dispatch
