-- ===== src/Execution/Funding.antt =====
-- app/execution/funding_executor.py: the hedge of a spot order with a perpetual one. Ids and times are
-- arguments. Texts that a hedge shows are data: its mode, outcome and reason; the states of its two
-- orders are kept whole.
pub mod Paper
pub mod Live
pub mod Execute
pub mod Ends
pub mod Laws
pub mod Neutral
use arb_system.Base.{
  ℕ, Bool, true, false, ◌&&◌, Text, text, text_eq, Option, none, some, List, [], ◌∷◌, ◌++◌, take,
  Decimal, pos, whole, mul_dec, div_dec, ltb_ℤ, leb_ℤ, if◌then◌else◌, append_bounded, or_nonzero,
}
use mathlib.Core.List.{reverse}
use arb_system.Models.{
  Mode, Side, OrderType, OrderStatus, OrderBookSnapshot, OrderIntent, UnifiedOrderState, best_ask,
  best_bid, is_filled, opposite,
}
use arb_system.MarketData.Books.{Books}
use arb_system.Accounts.Balances.{Balances}
use arb_system.Strategy.Funding.{FundingRateOpportunity, short_perp, spot_of}

-- The settings that the executor reads (app/config/settings.py).
pub record FundingSettings : Type 0 where
  pub mode : Mode
  pub strategy_funding_rate_spot_perp_enabled : Bool
  pub funding_max_notional_per_trade : Decimal
  pub funding_max_basis_bps : Decimal

pub data FundingMode : Type 0 where
  paper live : FundingMode

pub data FundingOutcome : Type 0 where
  opened failed repaired : FundingOutcome

pub data FundingReason : Type 0 where
  spot_book_missing zero_amount executor_not_configured spot_adapter_missing perp_adapter_missing :
      FundingReason
  basis_too_wide : Decimal → FundingReason
  -- The statuses of the spot and the perpetual order that are not FILLED.
  not_filled : Option OrderStatus → Option OrderStatus → FundingReason
  order_errors repair_failed : FundingReason

pub record FundingHedge : Type 0 where
  pub hedge_id : Text
  pub opportunity_id : Text
  pub exchange : Text
  pub symbol : Text
  pub direction : Text
  pub mode : FundingMode
  pub spot_state : Option UnifiedOrderState
  pub perp_state : Option UnifiedOrderState
  pub outcome : FundingOutcome
  pub reason : Option FundingReason
  pub opened_at : ℕ
  pub funding_rate_bps : Decimal
  pub apr_bps : Decimal

-- `_RING_MAX`
abbrev pub ring_max : ℕ
ring_max = 100

unfoldable pub recent_hedges : ℕ → List FundingHedge → List FundingHedge
recent_hedges limit ring = take limit (reverse ring)

-- The executor's ring, and what its calls change beyond it.
pub record FundingDesk (V : Type 0) : Type 0 where
  pub ring : List FundingHedge
  pub books : Books
  pub balances : Option Balances
  pub venue : V

pub record FundingMoment : Type 0 where
  pub hedge_id : Text
  pub opened_at : ℕ

unfoldable pub hedge_of :
    FundingMoment
    → FundingRateOpportunity
    → FundingMode
    → Option UnifiedOrderState
    → Option UnifiedOrderState
    → FundingOutcome
    → Option FundingReason
    → FundingHedge
hedge_of m o mode spot perp outcome reason = record {
  hedge_id = m.hedge_id;
  opportunity_id = o.opportunity_id;
  exchange = o.exchange;
  symbol = o.symbol;
  direction = o.direction;
  mode = mode;
  spot_state = spot;
  perp_state = perp;
  outcome = outcome;
  reason = reason;
  opened_at = m.opened_at;
  funding_rate_bps = mul_dec o.funding_rate (whole 10000);
  apr_bps = o.apr_bps;
}

abbrev unfilled : OrderStatus → Option OrderStatus
unfilled OrderStatus.filled = none
unfilled s = some s

-- What two answered orders make of a hedge.
unfoldable pub classify :
    UnifiedOrderState → UnifiedOrderState → FundingOutcome × Option FundingReason
classify spot perp =
    if is_filled spot.status && is_filled perp.status then (FundingOutcome.opened, none) else (
      FundingOutcome.failed,
      some (FundingReason.not_filled (unfilled spot.status) (unfilled perp.status)),
    )

abbrev pub spot_side : FundingRateOpportunity → Side
spot_side o = if text_eq o.direction short_perp then Side.buy else Side.sell

abbrev pub perp_side : FundingRateOpportunity → Side
perp_side o = if text_eq o.direction short_perp then Side.sell else Side.buy

-- The price at which the spot order is sized, if the book has both sides.
abbrev price_on : Side → Option Decimal → Option Decimal → Option Decimal
price_on Side.buy (some ask) (some bid) = some ask
price_on Side.sell (some ask) (some bid) = some bid
price_on _ _ _ = none

abbrev pub spot_price : Side → Option OrderBookSnapshot → Option Decimal
spot_price side none = none
spot_price side (some book) = price_on side (best_ask book) (best_bid book)

abbrev pub amount_at : FundingSettings → Decimal → Decimal
amount_at s price =
    if ltb_ℤ (pos 0) price then div_dec s.funding_max_notional_per_trade price else pos 0

abbrev client_id : FundingMoment → Text → Option Text
client_id m suffix = some (text "fund-" ++ (take 8 m.hedge_id ++ suffix))

abbrev pub spot_intent : FundingMoment → FundingRateOpportunity → Decimal → Decimal → OrderIntent
spot_intent m o price amount = record {
  hedge_group_id = m.hedge_id;
  exchange = o.exchange;
  symbol = spot_of o.symbol;
  side = spot_side o;
  order_type = OrderType.ioc_limit;
  amount = amount;
  price = some price;
  client_order_id = client_id m (text "-S");
  is_repair = false;
}

abbrev pub perp_intent : FundingMoment → FundingRateOpportunity → Decimal → Decimal → OrderIntent
perp_intent m o price amount = record {
  hedge_group_id = m.hedge_id;
  exchange = o.exchange ++ text "-perp";
  symbol = o.symbol;
  side = perp_side o;
  order_type = OrderType.ioc_limit;
  amount = amount;
  price = some (or_nonzero o.perp_mark_price price);
  client_order_id = client_id m (text "-P");
  is_repair = false;
}
