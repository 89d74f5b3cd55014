-- ===== src/Strategy/Slippage.antt =====
-- app/strategy/slippage_model.py.
pub mod Depth
use arb_system.Base.{
  Bool, true, false, ◌||◌, List, [], ◌∷◌, Decimal, pos, whole, ◌+ℤ◌, ◌-ℤ◌, min_ℤ, mul_dec, div_dec,
  ltb_ℤ, leb_ℤ, eqb_ℤ, if◌then◌else◌, take, ℕ,
}
use arb_system.Models.{OrderBookLevel, OrderBookSnapshot}

-- What a walk along the levels has bought or sold, and at what cost.
pub record Walk : Type 0 where
  pub cost : Decimal
  pub filled : Decimal

abbrev pub step : Decimal → OrderBookLevel → Walk → Walk
step took l w = record { cost = w.cost +ℤ mul_dec took l.price; filled = w.filled +ℤ took }

-- The loop over the levels; it ends when nothing remains.
unfoldable pub walk : Decimal → List OrderBookLevel → Walk → Walk
walk remaining [] w = w
walk remaining (l ∷ ls) w =
    let took = min_ℤ remaining l.size in
    let w' = step took l w in
    let rest = walk (remaining -ℤ took) ls w' in
    if leb_ℤ (remaining -ℤ took) (pos 0) then w' else rest

-- (vwap, filled, slippage in bps)
pub record Vwap : Type 0 where
  pub price : Decimal
  pub filled : Decimal
  pub slippage_bps : Decimal

abbrev pub no_fill : Vwap
no_fill = record { price = pos 0; filled = pos 0; slippage_bps = pos 0 }

abbrev pub new_walk : Walk
new_walk = record { cost = pos 0; filled = pos 0 }

-- The first argument is the slippage of an average price against the top price.
abbrev pub priced : (Decimal → Decimal → Decimal) → OrderBookLevel → Walk → Vwap
priced away top w =
    let vwap = div_dec w.cost w.filled in
    if eqb_ℤ w.filled (pos 0) then no_fill else record {
      price = vwap;
      filled = w.filled;
      slippage_bps =
          if ltb_ℤ (pos 0) top.price
          then mul_dec (div_dec (away vwap top.price) top.price) (whole 10000)
          else pos 0;
    }

abbrev pub vwap_of : (Decimal → Decimal → Decimal) → List OrderBookLevel → Decimal → Vwap
vwap_of away [] target = no_fill
vwap_of away (l ∷ ls) target =
    if leb_ℤ target (pos 0) then no_fill else priced away l (walk target (l ∷ ls) new_walk)

unfoldable pub vwap_buy : OrderBookSnapshot → Decimal → Vwap
vwap_buy book target = vwap_of (λ vwap top. vwap -ℤ top) book.asks target

unfoldable pub vwap_sell : OrderBookSnapshot → Decimal → Vwap
vwap_sell book target = vwap_of (λ vwap top. top -ℤ vwap) book.bids target

unfoldable pub depth : List OrderBookLevel → Decimal
depth [] = pos 0
depth (l ∷ ls) = l.size +ℤ depth ls

unfoldable pub max_fillable_buy : OrderBookSnapshot → ℕ → Decimal
unfolding depth
max_fillable_buy book levels = depth (take levels book.asks)

unfoldable pub max_fillable_sell : OrderBookSnapshot → ℕ → Decimal
unfolding depth
max_fillable_sell book levels = depth (take levels book.bids)
