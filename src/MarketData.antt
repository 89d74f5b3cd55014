-- ===== src/MarketData.antt =====
-- Market data (app/marketdata).
pub mod Books
pub mod Polling
