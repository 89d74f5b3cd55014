-- ===== src/MarketData/Polling/Recovery.antt =====
-- How `_poll_one` of app/marketdata/orderbook_manager.py falls back and comes back to the websocket.
use arb_system.Base.{ℕ, List, [], ◌∷◌}
use arb_system.Models.{OrderBookSnapshot}
use arb_system.MarketData.Polling.{Reply, snapped, transient, Polling}

abbrev pub answered : List (OrderBookSnapshot × ℕ) → List (Reply × ℕ)
answered [] = []
answered ((snap, now) ∷ ss) = (snapped snap, now) ∷ answered ss

-- Three failures in a row, and then replies.
abbrev pub after_failures : ℕ → List (OrderBookSnapshot × ℕ) → List (Reply × ℕ)
after_failures now ss = (transient, now) ∷ (transient, now) ∷ (transient, now) ∷ answered ss
