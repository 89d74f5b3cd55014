-- ===== src/Execution/Policy.antt =====
-- app/execution/execution_policy.py.
use arb_system.Base.{
  Bool, Option, none, some, List, [], ◌∷◌, Decimal, pos, whole, ◌+ℤ◌, ◌-ℤ◌, mul_dec, div_dec, leb_ℤ,
  if◌then◌else◌,
}
use arb_system.Models.{Side, OrderType, OrderBookLevel, OrderBookSnapshot, best_ask, best_bid}
use arb_system.Settings.{Settings}

unfoldable pub pick_order_type : Settings → OrderType
pick_order_type s = s.order_type_policy

-- A price moved against us by a fraction.
abbrev pub adverse : Side → Decimal → Decimal → Decimal
adverse Side.buy buffer price = mul_dec price (whole 1 +ℤ buffer)
adverse Side.sell buffer price = mul_dec price (whole 1 -ℤ buffer)

unfoldable pub protected_limit_price : Settings → Side → Decimal → Decimal
protected_limit_price s side reference =
    adverse side (div_dec s.ioc_price_buffer_bps (whole 10000)) reference

-- Whether a level is at the limit or better.
abbrev pub within : Side → Decimal → OrderBookLevel → Bool
within Side.buy limit l = leb_ℤ l.price limit
within Side.sell limit l = leb_ℤ limit l.price

unfoldable pub sum_within : Side → Decimal → List OrderBookLevel → Decimal
sum_within side limit [] = pos 0
sum_within side limit (l ∷ ls) =
    let rest = sum_within side limit ls in if within side limit l then l.size +ℤ rest else rest

abbrev pub levels_of : Side → OrderBookSnapshot → List OrderBookLevel
levels_of Side.buy b = b.asks
levels_of Side.sell b = b.bids

abbrev pub best_of : Side → OrderBookSnapshot → Option Decimal
best_of Side.buy b = best_ask b
best_of Side.sell b = best_bid b

abbrev depth_from : Side → Decimal → List OrderBookLevel → Option Decimal → Decimal
depth_from side buffer levels none = pos 0
depth_from side buffer levels (some best) = sum_within side (adverse side buffer best) levels

unfoldable pub in_band_depth : Option OrderBookSnapshot → Side → Decimal → Decimal
in_band_depth none side bps = pos 0
in_band_depth (some b) side bps =
    depth_from side (div_dec bps (whole 10000)) (levels_of side b) (best_of side b)
