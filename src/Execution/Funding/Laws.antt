-- ===== src/Execution/Funding/Laws.antt =====
-- How `_execute_live` of app/execution/funding_executor.py can end.
use arb_system.MarketData.Books
