-- ===== src/Accounts.antt =====
-- The balances (app/accounts).
pub mod Balances
