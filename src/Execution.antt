-- ===== src/Execution.antt =====
-- Order execution (app/execution).
pub mod Coordinator
pub mod Repair
pub mod Policy
pub mod Submission
pub mod PaperFill
pub mod Tracker
pub mod Router
pub mod Triangular
pub mod Funding
pub mod MakerTaker
