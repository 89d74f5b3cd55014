-- ===== src/Execution/Coordinator.antt =====
-- app/execution/hedge_coordinator.py: one hedge, from the signal to the settled group.
pub mod Desk
pub mod Gates
pub mod Settle
pub mod Execute
pub mod Vetting
pub mod Vetted
pub mod Position
pub mod Charge
pub mod Outcomes
pub mod Laws
pub mod Settled
