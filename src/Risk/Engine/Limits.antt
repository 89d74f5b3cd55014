-- ===== src/Risk/Engine/Limits.antt =====
-- The limits on size that an approval by app/risk/rules.py respects, rounding included.
use arb_system.Base.{
  ◌≡◌, Text, Decimal, pos, ◌+ℤ◌, ◌-ℤ◌, ◌≤ℤ◌, ◌<ℤ◌, mul_dec, max_cases, div_dec, slack, mul_mono,
  mul-div-le, int_laws, arith,
}
use arb_system.Models.{ArbitrageOpportunity}
use arb_system.Risk.Exposure.{in_flight}
use arb_system.Risk.Engine.{RiskEngine, Now, Approval, mid_of, headroom, evaluate}
use arb_system.Risk.Engine.Checks.{passed}
use arb_system.Risk.Engine.Approved.{evaluate-approved}

mid_of_positive : (opp : ArbitrageOpportunity) → pos 0 <ℤ opp.buy_price → mid_of opp ≡ opp.buy_price
unfolding mid_of
mid_of_positive opp h = ground arith

pub notional-le-limit :
    (limit : Decimal) (opp : ArbitrageOpportunity) (amount : Decimal)
    → pos 0 ≤ℤ limit
    → pos 0 <ℤ opp.buy_price
    → amount ≤ℤ div_dec limit (mid_of opp)
    → mul_dec amount (mid_of opp) ≤ℤ limit +ℤ slack opp.buy_price
notional-le-limit limit opp amount l price s = rw (mid_of_positive opp price) (
    let s' : amount ≤ℤ div_dec limit opp.buy_price = rw (mid_of_positive opp price) at s in
    omega (
      arith,
      mul_mono amount (div_dec limit opp.buy_price) opp.buy_price (omega arith) s',
      mul-div-le limit opp.buy_price l price,
    ))

pub headroom_cases :
    (e : RiskEngine) (ex : Text)
    → (pos 0 ≤ℤ headroom e ex)
      × (in_flight e.exposure ex ≤ℤ e.settings.max_exposure_per_exchange
          → in_flight e.exposure ex +ℤ headroom e ex ≤ℤ e.settings.max_exposure_per_exchange)
unfolding headroom
headroom_cases e ex =
    let room = e.settings.max_exposure_per_exchange -ℤ in_flight e.exposure ex in
    (grind (arith, max_cases (pos 0) room), λ fits. grind (int_laws, max_cases (pos 0) room))

-- A trade approved at a positive price takes no exchange over its exposure limit, and no trade
-- over its cap, by more than the ticks that rounding may add.
pub approved-within_limits :
    (e : RiskEngine) (now : Now) (opp : ArbitrageOpportunity) {d : Approval}
    → evaluate e now opp ≡ passed d
    → pos 0 <ℤ opp.buy_price
    → pos 0 ≤ℤ e.settings.max_notional_per_trade
    → (d.notional ≤ℤ e.settings.max_notional_per_trade +ℤ slack opp.buy_price)
      × (in_flight e.exposure opp.buy_exchange ≤ℤ e.settings.max_exposure_per_exchange
          → in_flight e.exposure opp.buy_exchange +ℤ d.notional
            ≤ℤ e.settings.max_exposure_per_exchange +ℤ slack opp.buy_price)
      × (in_flight e.exposure opp.sell_exchange ≤ℤ e.settings.max_exposure_per_exchange
          → in_flight e.exposure opp.sell_exchange +ℤ d.notional
            ≤ℤ e.settings.max_exposure_per_exchange +ℤ slack opp.buy_price)
approved-within_limits e now opp {d} h price capped =
    let (_, sized, _, product) = evaluate-approved e now opp h in
    let room =
      λ (limit : Decimal) (l : pos 0 ≤ℤ limit) (s : d.amount ≤ℤ div_dec limit (mid_of opp)).
        notional-le-limit limit opp d.amount l price s in
    let buy = headroom_cases e opp.buy_exchange in
    let sell = headroom_cases e opp.sell_exchange in
    let one = room e.settings.max_notional_per_trade capped sized.cap in
    let two = room (headroom e opp.buy_exchange) buy.0 sized.buy_room in
    let three = room (headroom e opp.sell_exchange) sell.0 sized.sell_room in
    rw product
      (one, λ fits. omega (int_laws, two, buy.1 fits), λ fits. omega (int_laws, three, sell.1 fits))
