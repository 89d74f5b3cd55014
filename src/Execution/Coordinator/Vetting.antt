-- ===== src/Execution/Coordinator/Vetting.antt =====
-- What has been checked when `execute` of app/execution/hedge_coordinator.py submits its orders.
use arb_system.Base.{
  ℕ, ◌-◌, ◌≡◌, refl, true, ◌&&◌, ◌||◌, Option, none, some, List, Decimal, pos, mul_dec, ltb_ℤ, ltb,
  Bool-cases, inl, inr,
}
use arb_system.Models.{
  Side, HedgeState, OrderBookSnapshot, ArbitrageOpportunity, HedgeGroupState, Note, FailureReason,
}
use arb_system.Settings.{Settings}
use arb_system.StateMachine.{assert_transition, can_transition}
use arb_system.MarketData.Books
use arb_system.MarketData.Books.{Books}
use arb_system.Strategy.Spread.{SpreadCalculator, SpreadEstimate, evaluate_direction}
use arb_system.Execution.Policy.{in_band_depth}
use arb_system.Execution.Coordinator.Desk.{Moment}
use arb_system.Execution.Coordinator.Gates.{
  Gate, ready, aborted, raised, ◌>>=◌, new_group, turn_to, signal_gate, age_gate, too_old, priced,
  deep, book_gates, fresh_gates, gates,
}

-- A group of the call, in a given state, before anything has been submitted.
pub record Planned (v : Moment) (opp : ArbitrageOpportunity) (s : HedgeState) (g : HedgeGroupState)
    : Type 0 where
  pub id : g.hedge_group_id ≡ v.hedge_id
  pub buy_at : g.buy_exchange ≡ opp.buy_exchange
  pub sell_at : g.sell_exchange ≡ opp.sell_exchange
  pub state : g.state ≡ s
  pub bought : g.executed_buy_amount ≡ pos 0
  pub sold : g.executed_sell_amount ≡ pos 0
  pub net : g.net_position_base ≡ pos 0
  pub profit : g.realized_pnl_quote ≡ none
  pub repairs : g.repair_attempts ≡ 0
  pub cost : g.repair_cost_quote ≡ pos 0

-- A gate that lets through a planned group in the state `s`, or aborts one, and never raises.
abbrev pub IsSound : Moment → ArbitrageOpportunity → HedgeState → Gate → Type 0
IsSound v opp s (ready g) = Planned v opp s g
IsSound v opp s (aborted g) = Planned v opp HedgeState.aborted g
IsSound v opp s (raised g) = ⊥

module _ (v : Moment) (opp : ArbitrageOpportunity) where
  >>=-IsSound :
      (m : Gate) (f : HedgeGroupState → Gate) (a b : HedgeState)
      → IsSound v opp a m
      → ((g : HedgeGroupState) → Planned v opp a g → IsSound v opp b (f g))
      → IsSound v opp b (m >>= f)
  >>=-IsSound (ready g) f a b h k = k g h
  >>=-IsSound (aborted g) f a b h k = h
  >>=-IsSound (raised g) f a b h k = absurd h

  -- The fields that the gates write are not among those that a planned group fixes.
  rewritten :
      {s t : HedgeState} {g : HedgeGroupState} {ns : List Note} {why : Option FailureReason}
      {at : ℕ} {profit edge buy_vwap sell_vwap : Option Decimal}
      → Planned v opp s g
      → Planned v opp t (record g {
        state = t;
        notes = ns;
        failure_reason = why;
        updated_at = at;
        expected_profit_quote_at_approved_size = profit;
        expected_edge_bps_at_approved_size = edge;
        buy_expected_vwap = buy_vwap;
        sell_expected_vwap = sell_vwap;
      })
  rewritten p = record {
    id = p.id;
    buy_at = p.buy_at;
    sell_at = p.sell_at;
    state = refl;
    bought = p.bought;
    sold = p.sold;
    net = p.net;
    profit = p.profit;
    repairs = p.repairs;
    cost = p.cost;
  }

  turn_to-IsSound :
      (a b : HedgeState) (g : HedgeGroupState)
      → can_transition a b ≡ true
      → Planned v opp a g
      → IsSound v opp b (turn_to b g)
  unfolding turn_to assert_transition
  turn_to-IsSound a b g legal p = rw (p.state, legal) (rewritten p)

  signal_gate-IsSound :
      (s : Settings) (st : HedgeState) (g : HedgeGroupState)
      → Planned v opp st g
      → IsSound v opp st (signal_gate s v opp g)
  unfolding signal_gate
  signal_gate-IsSound s st g p =
      elim (Bool-cases (ltb s.max_signal_to_order_ms (v.now - opp.detected_at))) [
        | inl e ↦ rw e (rewritten p)
        | inr e ↦ rw e p
      ]

  age_gate-IsSound :
      (s : Settings) (st : HedgeState) (g : HedgeGroupState)
      → Planned v opp st g
      → IsSound v opp st (age_gate s v opp g)
  unfolding age_gate
  age_gate-IsSound s st g p =
      elim (Bool-cases (
        too_old s.max_book_age_ms_for_trade (Books.age_ms v.books opp.buy_exchange opp.symbol v.now)
        || too_old s.max_book_age_ms_for_trade
            (Books.age_ms v.books opp.sell_exchange opp.symbol v.now))) [
              | inl e ↦ rw e (rewritten p)
              | inr e ↦ rw e p
            ]

  priced-IsSound :
      (s : Settings) (est : Option SpreadEstimate) (st : HedgeState) (g : HedgeGroupState)
      → Planned v opp st g
      → IsSound v opp st (priced s v g est)
  priced-IsSound s none st g p = rewritten p
  priced-IsSound s (some est) st g p =
      elim (Bool-cases (ltb_ℤ est.net_edge_bps s.min_net_edge_bps)) [
        | inl e ↦ rw e (rewritten p)
        | inr e ↦ rw (e, ← p.state) (rewritten p)
      ]

  deep-IsSound :
      (s : Settings) (amount : Decimal) (buy_book sell_book : OrderBookSnapshot) (st : HedgeState)
      (g : HedgeGroupState)
      → Planned v opp st g
      → IsSound v opp st (deep s v amount buy_book sell_book g)
  deep-IsSound s amount buy_book sell_book st g p =
      let buy_depth = in_band_depth (some buy_book) Side.buy s.ioc_price_buffer_bps in
      let sell_depth = in_band_depth (some sell_book) Side.sell s.ioc_price_buffer_bps in
      let required = mul_dec amount s.min_in_band_depth_ratio in
      elim (Bool-cases (
        ltb_ℤ (pos 0) s.min_in_band_depth_ratio
        && (ltb_ℤ buy_depth required || ltb_ℤ sell_depth required))) [
          | inl e ↦ rw e (rewritten p)
          | inr e ↦ rw e p
        ]

  book_gates-IsSound :
      (s : Settings) (k : SpreadCalculator) (amount : Decimal) (b b' : Option OrderBookSnapshot)
      (st : HedgeState) (g : HedgeGroupState)
      → Planned v opp st g
      → IsSound v opp st (book_gates s k v opp amount b b' g)
  book_gates-IsSound s k amount (some b) (some b') st g p =
      >>=-IsSound (priced s v g (evaluate_direction k opp.symbol b b' amount)) _ st st
        (priced-IsSound s (evaluate_direction k opp.symbol b b' amount) st g p)
        (deep-IsSound s amount b b' st)
  book_gates-IsSound s k amount none _ st g p = p
  book_gates-IsSound s k amount (some b) none st g p = p

  fresh_gates-IsSound :
      (s : Settings) (k : Option SpreadCalculator) (amount : Decimal) (st : HedgeState)
      (g : HedgeGroupState)
      → Planned v opp st g
      → IsSound v opp st (fresh_gates s k v opp amount g)
  unfolding fresh_gates
  fresh_gates-IsSound s none amount st g p = p
  fresh_gates-IsSound s (some k) amount st g p =
      >>=-IsSound (age_gate s v opp g) _ st st (age_gate-IsSound s st g p) (
        book_gates-IsSound s k amount (Books.get v.books opp.buy_exchange opp.symbol)
          (Books.get v.books opp.sell_exchange opp.symbol) st)

  new_group-Planned : (amount : Decimal) → Planned v opp HedgeState.new (new_group v opp amount)
  new_group-Planned amount = record {
    id = refl;
    buy_at = refl;
    sell_at = refl;
    state = refl;
    bought = refl;
    sold = refl;
    net = refl;
    profit = refl;
    repairs = refl;
    cost = refl;
  }

  -- The gates let through a group that is SUBMITTING, or abort; no transition is refused.
  pub gates-IsSound :
      (s : Settings) (k : Option SpreadCalculator) (amount : Decimal)
      → IsSound v opp HedgeState.submitting (gates s k v opp amount)
  unfolding gates can_transition
  gates-IsSound s k amount =
      >>=-IsSound _ (turn_to HedgeState.submitting) HedgeState.planning HedgeState.submitting
        (>>=-IsSound _ (fresh_gates s k v opp amount) HedgeState.planning HedgeState.planning
          (>>=-IsSound _ (turn_to HedgeState.planning) HedgeState.new HedgeState.planning
            (signal_gate-IsSound s HedgeState.new (new_group v opp amount)
              (new_group-Planned amount))
            (λ g. turn_to-IsSound HedgeState.new HedgeState.planning g refl))
          (fresh_gates-IsSound s k amount HedgeState.planning))
        (λ g. turn_to-IsSound HedgeState.planning HedgeState.submitting g refl)
