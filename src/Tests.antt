-- ===== src/Tests.antt =====
-- Concrete inputs for the theorems, and the theorems at them.
pub mod Data
pub mod Hedges
pub mod Trading
pub mod Controls
pub mod Scans
pub mod Writes
pub mod Fundings
pub mod Makers
pub mod Triangles
pub mod Dispatches
pub mod Polls
