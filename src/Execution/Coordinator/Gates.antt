-- ===== src/Execution/Coordinator/Gates.antt =====
-- The gates of `execute` in app/execution/hedge_coordinator.py, up to the state SUBMITTING.
use arb_system.Base.{
  ℕ, ◌-◌, Bool, true, ◌&&◌, ◌||◌, Option, none, some, [], ◌∷◌, ◌++◌, Decimal, pos, mul_dec, ltb_ℤ,
  ltb, if◌then◌else◌,
}
use arb_system.Models.{
  Side, HedgeState, OrderBookSnapshot, ArbitrageOpportunity, HedgeGroupState, Note, FailureReason,
}
use arb_system.Settings.{Settings}
use arb_system.StateMachine.{assert_transition}
use arb_system.MarketData.Books
use arb_system.MarketData.Books.{Books}
use arb_system.Strategy.Spread.{SpreadCalculator, SpreadEstimate, evaluate_direction}
use arb_system.Execution.Policy.{in_band_depth}
use arb_system.Execution.Coordinator.Desk.{Moment}

-- A gate lets the group through, or aborts it, or raises.
pub data Gate : Type 0 where
  ready aborted raised : HedgeGroupState → Gate

infixl 5 ◌>>=◌
abbrev pub ◌>>=◌ : Gate → (HedgeGroupState → Gate) → Gate
ready g >>= f = f g
aborted g >>= f = aborted g
raised g >>= f = raised g

abbrev pub new_group : Moment → ArbitrageOpportunity → Decimal → HedgeGroupState
new_group v opp amount = record {
  hedge_group_id = v.hedge_id;
  opportunity_id = opp.opportunity_id;
  symbol = opp.symbol;
  buy_exchange = opp.buy_exchange;
  sell_exchange = opp.sell_exchange;
  target_amount = amount;
  state = HedgeState.new;
  created_at = v.now;
  updated_at = v.now;
  buy_order_id = none;
  sell_order_id = none;
  executed_buy_amount = pos 0;
  executed_sell_amount = pos 0;
  net_position_base = pos 0;
  realized_pnl_quote = none;
  expected_profit_quote = some opp.expected_profit_quote;
  repair_attempts = 0;
  notes = [];
  planning_notional_quote = pos 0;
  repair_cost_quote = pos 0;
  expected_profit_quote_at_approved_size = none;
  expected_edge_bps_at_approved_size = none;
  buy_expected_vwap = some opp.buy_price;
  sell_expected_vwap = some opp.sell_price;
  buy_actual_vwap = none;
  sell_actual_vwap = none;
  actual_fee_quote = pos 0;
  latency_ms_signal_to_order = some (v.now - opp.detected_at);
  latency_ms_order_to_fill = none;
  failure_reason = none;
}

abbrev abort : ℕ → Note → FailureReason → HedgeGroupState → Gate
abort at note why g = aborted (record g {
  state = HedgeState.aborted;
  notes = g.notes ++ (note ∷ []);
  failure_reason = some why;
  updated_at = at;
})

abbrev turned : Option (Unit {0}) → HedgeState → HedgeGroupState → Gate
turned none s g = raised g
turned (some _) s g = ready (record g { state = s })

-- `assert_transition`, then the assignment of the state.
unfoldable pub turn_to : HedgeState → HedgeGroupState → Gate
turn_to s g = turned (assert_transition g.state s) s g

unfoldable pub signal_gate : Settings → Moment → ArbitrageOpportunity → HedgeGroupState → Gate
signal_gate s v opp g =
    let age = v.now - opp.detected_at in
    if ltb s.max_signal_to_order_ms age
    then abort v.ended_at (Note.signal_age age s.max_signal_to_order_ms)
        FailureReason.signal_too_old g
    else ready g

abbrev pub too_old : ℕ → Option ℕ → Bool
too_old limit none = true
too_old limit (some age) = ltb limit age

unfoldable pub age_gate : Settings → Moment → ArbitrageOpportunity → HedgeGroupState → Gate
age_gate s v opp g =
    let buy_age = Books.age_ms v.books opp.buy_exchange opp.symbol v.now in
    let sell_age = Books.age_ms v.books opp.sell_exchange opp.symbol v.now in
    let limit = s.max_book_age_ms_for_trade in
    if too_old limit buy_age || too_old limit sell_age
    then abort v.ended_at (Note.book_age buy_age sell_age limit) FailureReason.book_too_old g
    else ready g

abbrev vanished : Moment → HedgeGroupState → Gate
vanished v g = abort v.ended_at Note.edge_vanished_at_execution_time FailureReason.edge_vanished g

abbrev pub priced : Settings → Moment → HedgeGroupState → Option SpreadEstimate → Gate
priced s v g none = vanished v g
priced s v g (some est) =
    if ltb_ℤ est.net_edge_bps s.min_net_edge_bps
    then vanished v g
    else ready (record g {
      expected_profit_quote_at_approved_size = some est.expected_profit_quote;
      expected_edge_bps_at_approved_size = some est.net_edge_bps;
      buy_expected_vwap = some est.buy_leg.effective_price;
      sell_expected_vwap = some est.sell_leg.effective_price;
    })

abbrev pub deep :
    Settings → Moment → Decimal → OrderBookSnapshot → OrderBookSnapshot → HedgeGroupState → Gate
deep s v amount buy_book sell_book g =
    let buy_depth = in_band_depth (some buy_book) Side.buy s.ioc_price_buffer_bps in
    let sell_depth = in_band_depth (some sell_book) Side.sell s.ioc_price_buffer_bps in
    let required = mul_dec amount s.min_in_band_depth_ratio in
    if ltb_ℤ (pos 0) s.min_in_band_depth_ratio
      && (ltb_ℤ buy_depth required || ltb_ℤ sell_depth required)
    then abort v.ended_at (Note.thin_depth buy_depth sell_depth amount required)
        FailureReason.insufficient_depth g
    else ready g

-- The checks of the edge and of the depth, which both need both books.
abbrev pub book_gates :
    Settings
    → SpreadCalculator
    → Moment
    → ArbitrageOpportunity
    → Decimal
    → Option OrderBookSnapshot
    → Option OrderBookSnapshot
    → HedgeGroupState
    → Gate
book_gates s k v opp amount (some buy_book) (some sell_book) g =
    priced s v g (evaluate_direction k opp.symbol buy_book sell_book amount)
    >>= deep s v amount buy_book sell_book
book_gates s k v opp amount _ _ g = ready g

unfoldable pub fresh_gates :
    Settings
    → Option SpreadCalculator
    → Moment
    → ArbitrageOpportunity
    → Decimal
    → HedgeGroupState
    → Gate
unfolding age_gate
fresh_gates s none v opp amount g = ready g
fresh_gates s (some k) v opp amount g =
    age_gate s v opp g
    >>= book_gates s k v opp amount (Books.get v.books opp.buy_exchange opp.symbol)
        (Books.get v.books opp.sell_exchange opp.symbol)

unfoldable pub gates :
    Settings → Option SpreadCalculator → Moment → ArbitrageOpportunity → Decimal → Gate
unfolding signal_gate turn_to fresh_gates
gates s k v opp amount =
    signal_gate s v opp (new_group v opp amount)
    >>= turn_to HedgeState.planning
    >>= fresh_gates s k v opp amount
    >>= turn_to HedgeState.submitting
