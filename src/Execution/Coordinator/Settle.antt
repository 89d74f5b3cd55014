-- ===== src/Execution/Coordinator/Settle.antt =====
-- What `execute` of app/execution/hedge_coordinator.py does with the answers of the two legs.
use arb_system.Base.{
  ◌-◌, Bool, true, false, not, ◌&&◌, ◌||◌, Text, Option, none, some, [], ◌∷◌, Decimal, pos, ◌+ℤ◌,
  ◌-ℤ◌, abs_ℤ, mul_dec, ltb_ℤ, leb_ℤ, ltb, if◌then◌else◌, or_default,
}
use arb_system.Models.{
  Side, HedgeState, UnifiedOrderState, HedgeGroupState, Note, FailureReason, is_filled,
}
use arb_system.StateMachine.{order_terminal}
use arb_system.Risk.Exposure
use arb_system.Execution.Tracker
use arb_system.Execution.Repair.{
  Outcome, returned, threw, tolerance, credit, add_pnl, add_note, move_to,
}
use arb_system.Execution.Coordinator.Desk.{Coordinator, Moment, Desk, pnl_recorded, repair_at}

abbrev pub with_reason : FailureReason → HedgeGroupState → HedgeGroupState
with_reason why g = record g { failure_reason = some (or_default g.failure_reason why) }

abbrev pub ended : Moment → HedgeGroupState → HedgeGroupState
ended v g = record g { updated_at = v.ended_at }

unfoldable pub release_exposure : {W : Type 0} → HedgeGroupState → Desk W → Desk W
release_exposure g d = if leb_ℤ g.planning_notional_quote (pos 0) then d else record d {
  exposure =
      Exposure.release g.sell_exchange g.planning_notional_quote g.hedge_group_id
        (Exposure.release g.buy_exchange g.planning_notional_quote g.hedge_group_id d.exposure);
}

abbrev pub record_pnl_at : {W : Type 0} → Coordinator W → Moment → HedgeGroupState → Desk W → Desk W
record_pnl_at c v g d = record d {
  breaker = pnl_recorded c.breaker_config v.max_losses g.realized_pnl_quote d.breaker;
}

abbrev pub has_id : Option Text → Bool
has_id none = false
has_id (some []) = false
has_id (some (_ ∷ _)) = true

-- The survivor is registered, and cancelled if it is still open.
abbrev pub cancel_open : {W : Type 0} → Coordinator W → UnifiedOrderState → Desk W → Desk W
cancel_open c o d = record d {
  tracker = Tracker.add o d.tracker;
  world =
      if not (order_terminal o.status) && has_id o.exchange_order_id
      then c.cancel o d.world
      else d.world;
}

abbrev pub add_leg : Side → UnifiedOrderState → HedgeGroupState → HedgeGroupState
add_leg Side.buy o g = record g {
  buy_order_id = some o.internal_order_id;
  executed_buy_amount = o.filled;
}
add_leg Side.sell o g = record g {
  sell_order_id = some o.internal_order_id;
  executed_sell_amount = o.filled;
}

abbrev pub with_vwap : Side → UnifiedOrderState → HedgeGroupState → HedgeGroupState
with_vwap Side.buy o g = record g { buy_actual_vwap = o.avg_fill_price }
with_vwap Side.sell o g = record g { sell_actual_vwap = o.avg_fill_price }

abbrev pub cost_of : UnifiedOrderState → Decimal
cost_of o = mul_dec (or_default o.avg_fill_price (pos 0)) o.filled

abbrev pub fee_of : UnifiedOrderState → Decimal
fee_of o = or_default o.fee_amount (pos 0)

abbrev pub leg_pnl : Side → UnifiedOrderState → HedgeGroupState → HedgeGroupState
leg_pnl side o g =
    let h = with_vwap side o g in
    if ltb_ℤ (pos 0) o.filled
    then record h {
      actual_fee_quote = h.actual_fee_quote +ℤ fee_of o;
      realized_pnl_quote = add_pnl h.realized_pnl_quote (credit side (cost_of o) -ℤ fee_of o);
    }
    else g

-- The group with the surviving leg on its books.
unfoldable pub book_leg : Side → UnifiedOrderState → HedgeGroupState → HedgeGroupState
book_leg side o g =
    let h = leg_pnl side o (add_leg side o g) in
    record h { net_position_base = h.executed_buy_amount -ℤ h.executed_sell_amount }

-- An exception of the repair is caught here.
abbrev pub caught : {W : Type 0} → Outcome × Desk W → Outcome × Desk W
caught (returned g, d) = (returned g, d)
caught (threw g, d) = (returned (add_note Note.rollback_repair_failed g), d)

abbrev pub repair_caught :
    {W : Type 0} → Coordinator W → Moment → Outcome → Desk W → Outcome × Desk W
repair_caught c v (threw g) d = (threw g, d)
repair_caught c v (returned g) d = caught (repair_at c v g d)

abbrev pub flatten :
    {W : Type 0} → Coordinator W → Moment → HedgeGroupState → Desk W → Outcome × Desk W
flatten c v g d =
    let h = with_reason FailureReason.single_leg_failed g in
    if ltb_ℤ tolerance (abs_ℤ g.net_position_base)
    then repair_caught c v (move_to HedgeState.failed_needs_repair h) d
    else (returned (record g { state = HedgeState.aborted }), d)

abbrev pub then_pnl : {W : Type 0} → Coordinator W → Moment → Outcome × Desk W → Outcome × Desk W
then_pnl c v (threw g, d) = (threw g, d)
then_pnl c v (returned g, d) = (returned g, record_pnl_at c v g d)

unfoldable pub rollback_single_leg :
    {W : Type 0}
    → Coordinator W
    → Moment
    → HedgeGroupState
    → UnifiedOrderState
    → Side
    → Desk W
    → Outcome × Desk W
rollback_single_leg c v g o side d =
    then_pnl c v (flatten c v (book_leg side o g) (cancel_open c o d))

abbrev pub then_release : {W : Type 0} → Moment → Outcome × Desk W → Outcome × Desk W
then_release v (threw g, d) = (threw g, d)
then_release v (returned g, d) = (returned (ended v g), release_exposure g d)

abbrev pub with_ids : UnifiedOrderState → UnifiedOrderState → HedgeGroupState → HedgeGroupState
with_ids b s g = record g {
  buy_order_id = some b.internal_order_id;
  sell_order_id = some s.internal_order_id;
}

-- The group with both legs on its books.
unfoldable pub book_both :
    Moment → UnifiedOrderState → UnifiedOrderState → HedgeGroupState → HedgeGroupState
book_both v b s g = record g {
  executed_buy_amount = b.filled;
  executed_sell_amount = s.filled;
  net_position_base = b.filled -ℤ s.filled;
  buy_actual_vwap = b.avg_fill_price;
  sell_actual_vwap = s.avg_fill_price;
  realized_pnl_quote = some (cost_of s -ℤ cost_of b -ℤ (fee_of b +ℤ fee_of s));
  actual_fee_quote = fee_of b +ℤ fee_of s;
  latency_ms_order_to_fill =
      some (v.filled_at - (if ltb b.updated_at s.updated_at then s.updated_at else b.updated_at));
}

abbrev pub needs_repair : UnifiedOrderState → UnifiedOrderState → HedgeGroupState → Bool
needs_repair b s g =
    not (is_filled b.status)
    || not (is_filled s.status)
    || ltb_ℤ tolerance (abs_ℤ g.net_position_base)

-- An exception of the repair is not caught here.
abbrev pub repair_uncaught :
    {W : Type 0} → Coordinator W → Moment → Outcome → Desk W → Outcome × Desk W
repair_uncaught c v (threw g) d = (threw g, d)
repair_uncaught c v (returned g) d = repair_at c v g d

abbrev pub close_both :
    {W : Type 0}
    → Coordinator W
    → Moment
    → UnifiedOrderState
    → UnifiedOrderState
    → Outcome
    → Desk W
    → Outcome × Desk W
close_both c v b s (threw g) d = (threw g, d)
close_both c v b s (returned g) d =
    let h = book_both v b s g in
    if needs_repair b s h
    then repair_uncaught c v
        (move_to HedgeState.failed_needs_repair (with_reason FailureReason.partial_fill h)) d
    else (move_to HedgeState.completed h, d)

abbrev pub then_finish : {W : Type 0} → Coordinator W → Moment → Outcome × Desk W → Outcome × Desk W
then_finish c v (threw g, d) = (threw g, d)
then_finish c v (returned g, d) = (returned (ended v g), record_pnl_at c v g (release_exposure g d))

unfoldable pub settle_both :
    {W : Type 0}
    → Coordinator W
    → Moment
    → HedgeGroupState
    → UnifiedOrderState
    → UnifiedOrderState
    → Desk W
    → Outcome × Desk W
settle_both c v g b s d =
    let d' = record d { tracker = Tracker.add s (Tracker.add b d.tracker) } in
    then_finish c v (close_both c v b s (move_to HedgeState.hedging (with_ids b s g)) d')

-- The four cases of the two answers.
unfoldable pub settle_legs :
    {W : Type 0}
    → Coordinator W
    → Moment
    → HedgeGroupState
    → Option UnifiedOrderState
    → Option UnifiedOrderState
    → Desk W
    → Outcome × Desk W
unfolding rollback_single_leg settle_both
settle_legs c v g none none d =
    let h : HedgeGroupState = record (add_note Note.both_legs_failed g) {
      state = HedgeState.aborted;
    } in
    (returned (ended v h), release_exposure h d)
settle_legs c v g (some b) none d =
    then_release v (rollback_single_leg c v (add_note Note.sell_leg_failed g) b Side.buy d)
settle_legs c v g none (some s) d =
    then_release v (rollback_single_leg c v (add_note Note.buy_leg_failed g) s Side.sell d)
settle_legs c v g (some b) (some s) d = settle_both c v g b s d
