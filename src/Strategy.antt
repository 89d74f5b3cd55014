-- ===== src/Strategy.antt =====
-- The pricing of opportunities (app/strategy).
pub mod Slippage
pub mod Fees
pub mod Spread
pub mod Scanner
pub mod Triangular
pub mod Funding
