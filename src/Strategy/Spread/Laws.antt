-- ===== src/Strategy/Spread/Laws.antt =====
-- What an estimate of app/strategy/spread_calculator.py promises.
use arb_system.Base.{
  ◌≡◌, ◌≢◌, refl, false, Text, some, Decimal, pos, ◌≤ℤ◌, ◌<ℤ◌, min_ℤ, min_cases, arith, eqb_ℤ,
}
use arb_system.Models.{OrderBookSnapshot}
use arb_system.Strategy.Slippage.{vwap_buy, vwap_sell, depth}
use arb_system.Strategy.Slippage.Depth.{IsLadder, vwap-filled, depth_nonneg}
use arb_system.Strategy.Spread.{
  SpreadCalculator, SpreadEstimate, estimate, evaluate_direction, buffer_bps,
}

estimated :
    (c : SpreadCalculator) (symbol : Text) (buy_book sell_book : OrderBookSnapshot)
    (probe : Decimal) {e : SpreadEstimate}
    → evaluate_direction c symbol buy_book sell_book probe ≡ some e
    → let bought = vwap_buy buy_book probe in
      let sold = vwap_sell sell_book probe in
      (eqb_ℤ bought.filled (pos 0) ≡ false)
      × (eqb_ℤ sold.filled (pos 0) ≡ false)
      × (eqb_ℤ bought.price (pos 0) ≡ false)
      × (estimate c symbol buy_book sell_book bought sold ≡ e)
unfolding evaluate_direction
estimated c symbol buy_book sell_book probe found = ground arith

min_bounds :
    (p a b : Decimal)
    → pos 0 <ℤ p
    → pos 0 ≤ℤ a
    → pos 0 ≤ℤ b
    → eqb_ℤ (min_ℤ p a) (pos 0) ≡ false
    → eqb_ℤ (min_ℤ p b) (pos 0) ≡ false
    → (pos 0 <ℤ min_ℤ (min_ℤ p a) (min_ℤ p b)) × (min_ℤ (min_ℤ p a) (min_ℤ p b) ≤ℤ p)
min_bounds p a b h ha hb na nb =
    grind (arith, min_cases p a, min_cases p b, min_cases (min_ℤ p a) (min_ℤ p b))

-- An estimate for a positive probe is for the least of the probe and what the asks and the bids hold,
-- which is positive, and is made with a buy price that is not zero.
pub evaluate_direction-tradable :
    (c : SpreadCalculator) (symbol : Text) (buy_book sell_book : OrderBookSnapshot)
    (probe : Decimal) {e : SpreadEstimate}
    → pos 0 <ℤ probe
    → IsLadder buy_book.asks
    → IsLadder buy_book.bids
    → IsLadder sell_book.asks
    → IsLadder sell_book.bids
    → evaluate_direction c symbol buy_book sell_book probe ≡ some e
    → (e.max_tradable_base
        ≡ min_ℤ (min_ℤ probe (depth buy_book.asks)) (min_ℤ probe (depth sell_book.bids)))
      × (pos 0 <ℤ e.max_tradable_base)
      × (e.max_tradable_base ≤ℤ probe)
      × (e.buy_leg.effective_price ≢ pos 0)
      × (e.buffer_bps ≡ buffer_bps c)
unfolding estimate
evaluate_direction-tradable c symbol buy_book sell_book probe {e} h ba bb sa sb found =
    let (some_bought, some_sold, price, same) = estimated c symbol buy_book sell_book probe found in
    let bought = (vwap-filled buy_book probe h ba bb).0 in
    let sold = (vwap-filled sell_book probe h sa sb).1 in
    let bounds =
      min_bounds probe (depth buy_book.asks) (depth sell_book.bids) h
        (depth_nonneg buy_book.asks ba) (depth_nonneg sell_book.bids sb) (rw bought at some_bought)
        (rw sold at some_sold) in
    rw (← same) (
      rw (bought, sold),
      rw (bought, sold) bounds.0,
      rw (bought, sold) bounds.1,
      λ zero_price. ground arith,
      refl,
    )
