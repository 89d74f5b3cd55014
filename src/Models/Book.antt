-- ===== src/Models/Book.antt =====
-- app/models/orderbook.py. Times are whole milliseconds.
use arb_system.Base.{ℕ, Text, Decimal, whole, div_dec, ◌+ℤ◌, pos, List, [], ◌∷◌, Option, none, some}

pub record OrderBookLevel : Type 0 where
  pub price : Decimal
  pub size : Decimal

pub record OrderBookSnapshot : Type 0 where
  pub exchange : Text
  pub symbol : Text
  pub bids : List OrderBookLevel
  pub asks : List OrderBookLevel
  pub ts_local : ℕ

abbrev pub first_price : List OrderBookLevel → Option Decimal
first_price [] = none
first_price (l ∷ _) = some l.price

abbrev pub best_bid : OrderBookSnapshot → Option Decimal
best_bid b = first_price b.bids

abbrev pub best_ask : OrderBookSnapshot → Option Decimal
best_ask b = first_price b.asks

abbrev mid_of : Option Decimal → Option Decimal → Option Decimal
mid_of (some bb) (some ba) = some (div_dec (bb +ℤ ba) (whole 2))
mid_of _ _ = none

unfoldable pub mid_price : OrderBookSnapshot → Option Decimal
mid_price b = mid_of (best_bid b) (best_ask b)

abbrev first_size : List OrderBookLevel → Decimal
first_size [] = pos 0
first_size (l ∷ _) = l.size

unfoldable pub top_bid_size : OrderBookSnapshot → Decimal
top_bid_size b = first_size b.bids

unfoldable pub top_ask_size : OrderBookSnapshot → Decimal
top_ask_size b = first_size b.asks
