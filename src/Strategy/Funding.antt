-- ===== src/Strategy/Funding.antt =====
-- app/strategy/funding_rate_scanner.py. What a fetch of a funding rate brings is an argument.
pub mod Scan
pub mod Laws
use arb_system.Base.{
  ℕ, ◌+◌, Bool, Text, text, before, split, Option, none, some, List, Decimal, pos, whole, ◌+ℤ◌,
  div_dec, take,
}
use mathlib.Core.List.{reverse}
use arb_system.Models.{OrderBookSnapshot, best_ask, best_bid}
use arb_system.Settings.{non_empty, strip_all}
use arb_system.MarketData.Books
use arb_system.MarketData.Books.{Books}

pub record FundingRateOpportunity : Type 0 where
  pub opportunity_id : Text
  pub exchange : Text
  pub symbol : Text
  pub funding_rate : Decimal
  pub apr_bps : Decimal
  pub direction : Text
  pub spot_ref_price : Option Decimal
  pub perp_mark_price : Option Decimal
  pub next_funding_time : Option ℕ
  pub detected_at : ℕ

pub record FundingRateScanner : Type 0 where
  pub ring : List FundingRateOpportunity
  pub session_count : ℕ
  pub last_poll_at : Option ℕ
  pub scan_count : ℕ

unfoldable pub recent : ℕ → FundingRateScanner → List FundingRateOpportunity
recent limit s = take limit (reverse s.ring)

abbrev pub short_perp : Text
short_perp = text "short-perp-long-spot"

abbrev pub long_perp : Text
long_perp = text "long-perp-short-spot"

unfoldable pub parse_symbols : Text → List Text
parse_symbols raw = non_empty (strip_all (split b',' raw))

-- `symbol.split(":", 1)[0]`
abbrev pub spot_of : Text → Text
spot_of symbol = before b':' symbol

abbrev mid_of : Option Decimal → Option Decimal → Option Decimal
mid_of (some ask) (some bid) = some (div_dec (ask +ℤ bid) (whole 2))
mid_of _ _ = none

abbrev mid_in : Option OrderBookSnapshot → Option Decimal
mid_in none = none
mid_in (some book) = mid_of (best_ask book) (best_bid book)

unfoldable pub spot_ref : Books → Text → Text → Option Decimal
spot_ref books exchange symbol = mid_in (Books.get books exchange (spot_of symbol))
