-- ===== src/Tests/Polls.antt =====
-- The polling of one pair on the small market.
use arb_system.Base.{ℕ, List, [], ◌∷◌}
use arb_system.Models.{OrderBookSnapshot}
use arb_system.MarketData.Polling.{Polling, new_poller}
use arb_system.Tests.Data.{north_book, books}

abbrev polling : Polling
polling = record { poller = new_poller 200; books = books; sources = []; slept = 0 }

abbrev snapshots : List (OrderBookSnapshot × ℕ)
snapshots = (north_book, 1_400) ∷ (north_book, 1_600) ∷ []
