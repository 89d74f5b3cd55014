-- ===== src/Execution/Coordinator/Execute.antt =====
-- `execute` of app/execution/hedge_coordinator.py.
use arb_system.Base.{
  Text, Bool, true, false, Option, none, some, Decimal, pos, whole, mul_dec, eqb_ℤ, if◌then◌else◌,
  is_some,
}
use arb_system.Models.{
  Side, OrderType, OrderIntent, UnifiedOrderState, ArbitrageOpportunity, HedgeGroupState,
}
use arb_system.Settings.{Settings}
use arb_system.Risk.Exposure
use arb_system.Execution.Policy.{pick_order_type, protected_limit_price}
use arb_system.Execution.Repair.{Outcome, returned, threw, group_of}
use arb_system.Execution.Coordinator.Desk.{Coordinator, Moment, Desk, register, outcome_recorded}
use arb_system.Execution.Coordinator.Gates.{Gate, ready, aborted, raised, gates}
use arb_system.Execution.Coordinator.Settle.{settle_legs}

abbrev pub priced_type : OrderType → Bool
priced_type OrderType.market = false
priced_type _ = true

unfoldable pub leg_intent :
    Settings → Text → Text → Text → Side → Decimal → Decimal → Text → OrderIntent
leg_intent s id exchange symbol side reference amount client = record {
  hedge_group_id = id;
  exchange = exchange;
  symbol = symbol;
  side = side;
  order_type = pick_order_type s;
  amount = amount;
  price =
      if priced_type (pick_order_type s)
      then some (protected_limit_price s side reference)
      else none;
  client_order_id = some client;
  is_repair = false;
}

-- `approved_amount * (opp.buy_price or Decimal(1))`
unfoldable pub planning_notional : ArbitrageOpportunity → Decimal → Decimal
planning_notional opp amount =
    mul_dec amount (if eqb_ℤ opp.buy_price (pos 0) then whole 1 else opp.buy_price)

abbrev pub planned : ArbitrageOpportunity → Decimal → HedgeGroupState → HedgeGroupState
planned opp amount g = record g { planning_notional_quote = planning_notional opp amount }

unfoldable pub charge : {W : Type 0} → ArbitrageOpportunity → Decimal → Text → Desk W → Desk W
charge opp amount id d =
    let n = planning_notional opp amount in
    record d {
      exposure =
          Exposure.add opp.sell_exchange n id (Exposure.add opp.buy_exchange n id d.exposure);
    }

abbrev pub record_legs :
    {W : Type 0}
    → Coordinator W
    → Moment
    → Option UnifiedOrderState
    → Option UnifiedOrderState
    → Desk W
    → Desk W
record_legs c v b s d = record d {
  breaker =
      outcome_recorded c.breaker_config (is_some s) v.sell_recorded
        (outcome_recorded c.breaker_config (is_some b) v.buy_recorded d.breaker);
}

unfoldable pub submit_legs :
    {W : Type 0}
    → Coordinator W
    → Moment
    → ArbitrageOpportunity
    → Decimal
    → HedgeGroupState
    → Desk W
    → Outcome × Desk W
unfolding charge
submit_legs c v opp amount g d =
    let s = c.settings in
    let buy =
      leg_intent s v.hedge_id opp.buy_exchange opp.symbol Side.buy opp.buy_price amount
        v.buy_client in
    let sell =
      leg_intent s v.hedge_id opp.sell_exchange opp.symbol Side.sell opp.sell_price amount
        v.sell_client in
    let (bought, w) = c.submit buy d.world in
    let (sold, w') = c.submit sell w in
    let d' : Desk _ = record (charge opp amount v.hedge_id d) { world = w' } in
    settle_legs c v (planned opp amount g) bought sold (record_legs c v bought sold d')

abbrev pub after_gates :
    {W : Type 0}
    → Coordinator W
    → Moment
    → ArbitrageOpportunity
    → Decimal
    → Gate
    → Desk W
    → Outcome × Desk W
after_gates c v opp amount (aborted g) d = (returned g, d)
after_gates c v opp amount (raised g) d = (threw g, d)
after_gates c v opp amount (ready g) d = submit_legs c v opp amount g d

abbrev pub registered : {W : Type 0} → Outcome × Desk W → Outcome × Desk W
registered (out, d) = (out, register (group_of out) d)

-- The group stands in `hedges` from the start; since the code changes it in place, it stands there as
-- it is when the call ends.
unfoldable pub execute :
    {W : Type 0}
    → Coordinator W
    → Moment
    → ArbitrageOpportunity
    → Decimal
    → Desk W
    → Outcome × Desk W
execute c v opp amount d =
    registered (after_gates c v opp amount (gates c.settings c.calculator v opp amount) d)
