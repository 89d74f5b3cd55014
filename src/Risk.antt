-- ===== src/Risk.antt =====
-- The risk controls (app/risk).
pub mod KillSwitch
pub mod Breaker
pub mod Exposure
pub mod Health
pub mod Engine
