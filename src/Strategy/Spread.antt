-- ===== src/Strategy/Spread.antt =====
-- app/strategy/spread_calculator.py. What the buffer getter answers is an argument.
pub mod Laws
use arb_system.Base.{
  Bool, true, false, ◌||◌, Text, text, Option, none, some, List, [], ◌∷◌, Decimal, pos, whole, ◌+ℤ◌,
  ◌-ℤ◌, min_ℤ, mul_dec, div_dec, eqb_ℤ, if◌then◌else◌, or_default,
}
use arb_system.Models.{OrderBookSnapshot, OrderBookLevel, Side}
use arb_system.Strategy.Slippage.{Vwap, vwap_buy, vwap_sell}
use arb_system.Strategy.Fees.{FeeModel, taker_bps}

pub record LegEstimate : Type 0 where
  pub exchange : Text
  pub symbol : Text
  pub side : Side
  pub effective_price : Decimal
  pub fillable_size : Decimal
  pub slippage_bps : Decimal
  pub fee_bps : Decimal

pub record SpreadEstimate : Type 0 where
  pub buy_leg : LegEstimate
  pub sell_leg : LegEstimate
  pub gross_spread_bps : Decimal
  pub net_edge_bps : Decimal
  pub slippage_bps_total : Decimal
  pub fee_bps_total : Decimal
  pub buffer_bps : Decimal
  pub max_tradable_base : Decimal
  pub expected_profit_quote : Decimal

pub record SpreadCalculator : Type 0 where
  pub fees : FeeModel
  pub buffer_default : Decimal
  pub buffer_override : Option Decimal

unfoldable pub buffer_bps : SpreadCalculator → Decimal
buffer_bps c = or_default c.buffer_override c.buffer_default

abbrev pub no_levels : List OrderBookLevel → Bool
no_levels [] = true
no_levels (_ ∷ _) = false

abbrev leg : Text → Text → Side → Vwap → Decimal → LegEstimate
leg exchange symbol side v fee = record {
  exchange = exchange;
  symbol = symbol;
  side = side;
  effective_price = v.price;
  fillable_size = v.filled;
  slippage_bps = v.slippage_bps;
  fee_bps = fee;
}

abbrev in_bps : Decimal → Decimal → Decimal
in_bps difference price = mul_dec (div_dec difference price) (whole 10000)

-- The estimate from the walks of both books and the two fees.
unfoldable pub estimate :
    SpreadCalculator → Text → OrderBookSnapshot → OrderBookSnapshot → Vwap → Vwap → SpreadEstimate
estimate c symbol buy_book sell_book bought sold =
    let buy_fee = taker_bps c.fees buy_book.exchange symbol (text "buy") in
    let sell_fee = taker_bps c.fees sell_book.exchange symbol (text "sell") in
    let fillable = min_ℤ bought.filled sold.filled in
    let net_sell = mul_dec sold.price (whole 1 -ℤ div_dec sell_fee (whole 10000)) in
    let net_buy = mul_dec bought.price (whole 1 +ℤ div_dec buy_fee (whole 10000)) in
    let buffer = buffer_bps c in
    record {
      buy_leg = leg buy_book.exchange symbol Side.buy bought buy_fee;
      sell_leg = leg sell_book.exchange symbol Side.sell sold sell_fee;
      gross_spread_bps = in_bps (sold.price -ℤ bought.price) bought.price;
      net_edge_bps = in_bps (net_sell -ℤ net_buy) bought.price -ℤ buffer;
      slippage_bps_total = bought.slippage_bps +ℤ sold.slippage_bps;
      fee_bps_total = buy_fee +ℤ sell_fee;
      buffer_bps = buffer;
      max_tradable_base = fillable;
      expected_profit_quote =
          mul_dec (net_sell -ℤ net_buy) fillable
          -ℤ mul_dec (mul_dec (div_dec buffer (whole 10000)) bought.price) fillable;
    }

unfoldable pub evaluate_direction :
    SpreadCalculator
    → Text
    → OrderBookSnapshot
    → OrderBookSnapshot
    → Decimal
    → Option SpreadEstimate
evaluate_direction c symbol buy_book sell_book probe =
    let bought = vwap_buy buy_book probe in
    let sold = vwap_sell sell_book probe in
    if no_levels buy_book.asks || no_levels sell_book.bids
    then none
    else if eqb_ℤ bought.filled (pos 0) || eqb_ℤ sold.filled (pos 0) || eqb_ℤ bought.price (pos 0)
    then none
    else some (estimate c symbol buy_book sell_book bought sold)
