-- ===== src/Execution/Repair.antt =====
-- app/execution/repair_engine.py. A new client order id is an argument. `threw` is an exception that
-- leaves `repair`; it carries the group, which the code has changed in place by then.
pub mod Endings
pub mod Fills
pub mod Laws
use arb_system.Base.{
  ℕ, ◌+◌, Bool, true, false, ◌&&◌, Text, Option, none, some, [], ◌∷◌, ◌++◌, Decimal, pos, whole,
  ◌+ℤ◌, ◌-ℤ◌, neg_ℤ, abs_ℤ, mul_dec, div_dec, ltb_ℤ, leb_ℤ, eqb_ℤ, if◌then◌else◌, or_default,
  is_some, leb,
}
use arb_system.Models.{
  Side, OrderType, HedgeState, OrderBookSnapshot, OrderIntent, UnifiedOrderState, HedgeGroupState,
  Note, FailureReason,
}
use arb_system.Settings.{Settings}
use arb_system.StateMachine.{assert_transition}
use arb_system.MarketData.Books
use arb_system.MarketData.Books.{Books}
use arb_system.Strategy.Slippage.{Vwap, vwap_buy, vwap_sell}
use arb_system.Execution.Policy.{adverse, best_of, in_band_depth}
use arb_system.Execution.Submission.{Submit}
use arb_system.Execution.Tracker.{Tracker}
use arb_system.Execution.Tracker

pub data Outcome : Type 0 where
  returned : HedgeGroupState → Outcome
  threw : HedgeGroupState → Outcome

abbrev pub group_of : Outcome → HedgeGroupState
group_of (returned g) = g
group_of (threw g) = g

-- `Decimal("0.00000001")`
abbrev pub tolerance : Decimal
tolerance = pos 100_000_000_000_000_000_000

-- Where a residual position may be closed.
pub record Residual : Type 0 where
  pub primary : Text
  pub fallback : Text
  pub side : Side
  pub amount : Decimal

unfoldable pub residual_of : HedgeGroupState → Residual
residual_of g =
    if ltb_ℤ (pos 0) g.net_position_base
    then record {
      primary = g.sell_exchange;
      fallback = g.buy_exchange;
      side = Side.sell;
      amount = g.net_position_base;
    }
    else record {
      primary = g.buy_exchange;
      fallback = g.sell_exchange;
      side = Side.buy;
      amount = neg_ℤ g.net_position_base;
    }

pub record Venue : Type 0 where
  pub exchange : Text
  pub book : Option OrderBookSnapshot
  pub group : HedgeGroupState

abbrev pub add_note : Note → HedgeGroupState → HedgeGroupState
add_note n g = record g { notes = g.notes ++ (n ∷ []) }

-- The venue with the depth for the residual, and the group with the note of a pivot.
unfoldable pub choose_venue : Settings → Books → Residual → HedgeGroupState → Venue
choose_venue s books r g =
    let primary_book = Books.get books r.primary g.symbol in
    let fallback_book = Books.get books r.fallback g.symbol in
    let primary_depth = in_band_depth primary_book r.side s.ioc_price_buffer_bps in
    let fallback_depth = in_band_depth fallback_book r.side s.ioc_price_buffer_bps in
    let pivot =
      Note.pivot_to_filled_leg r.primary primary_depth r.fallback fallback_depth r.amount in
    if ltb_ℤ primary_depth r.amount && is_some fallback_book && ltb_ℤ primary_depth fallback_depth
    then record { exchange = r.fallback; book = fallback_book; group = add_note pivot g }
    else record { exchange = r.primary; book = primary_book; group = g }

abbrev buffer_of : Settings → Decimal
buffer_of s = div_dec s.ioc_price_buffer_bps (whole 10000)

abbrev pub vwap_on : Side → OrderBookSnapshot → Decimal → Vwap
vwap_on Side.buy book amount = vwap_buy book amount
vwap_on Side.sell book amount = vwap_sell book amount

-- What a cost does to the quote balance: a sale credits it, a purchase debits it.
abbrev pub credit : Side → Decimal → Decimal
credit Side.buy cost = neg_ℤ cost
credit Side.sell cost = cost

-- The profit after a repair at the estimated price, where an estimate can be made.
unfoldable pub projected_pnl :
    Settings → Residual → HedgeGroupState → Option OrderBookSnapshot → Option Decimal
projected_pnl s r g none = none
projected_pnl s r g (some book) =
    let est = vwap_on r.side book r.amount in
    let cost = mul_dec (adverse r.side (buffer_of s) est.price) est.filled in
    if ltb_ℤ (pos 0) est.filled
    then some (or_default g.realized_pnl_quote (pos 0) +ℤ credit r.side cost)
    else none

abbrev pub too_costly : Settings → Option Decimal → Bool
too_costly s none = false
too_costly s (some pnl) = ltb_ℤ pnl (neg_ℤ s.max_repair_loss_quote)

abbrev pub skipped : Settings → Option Decimal → HedgeGroupState → HedgeGroupState
skipped s pnl g = record g {
  notes =
      g.notes
      ++ (Note.skipped_max_loss (or_default pnl (pos 0)) (neg_ℤ s.max_repair_loss_quote) ∷ []);
  failure_reason = some FailureReason.repair_skipped_max_loss;
  state = HedgeState.failed_needs_repair;
}

abbrev pub exhausted : HedgeGroupState → HedgeGroupState
exhausted g = record g {
  notes = g.notes ++ (Note.attempts_exhausted g.repair_attempts ∷ []);
  failure_reason = some (or_default g.failure_reason FailureReason.repair_attempts_exhausted);
  state = HedgeState.aborted;
}

abbrev reference : Settings → Side → Option OrderBookSnapshot → Option Decimal
reference s side none = none
reference s side (some book) = elim (best_of side book) [
  | none ↦ none
  | some best ↦ some (adverse side (buffer_of s) best)
]

abbrev pub repair_intent : Settings → Text → Residual → Venue → OrderIntent
repair_intent s client r v = record {
  hedge_group_id = v.group.hedge_group_id;
  exchange = v.exchange;
  symbol = v.group.symbol;
  side = r.side;
  order_type = OrderType.ioc_limit;
  amount = r.amount;
  price = reference s r.side v.book;
  client_order_id = some client;
  is_repair = true;
}

abbrev pub add_executed : Side → Decimal → HedgeGroupState → HedgeGroupState
add_executed Side.buy filled g = record g {
  executed_buy_amount = g.executed_buy_amount +ℤ filled;
  net_position_base = g.executed_buy_amount +ℤ filled -ℤ g.executed_sell_amount;
}
add_executed Side.sell filled g = record g {
  executed_sell_amount = g.executed_sell_amount +ℤ filled;
  net_position_base = g.executed_buy_amount -ℤ (g.executed_sell_amount +ℤ filled);
}

abbrev pub add_pnl : Option Decimal → Decimal → Option Decimal
add_pnl none delta = some delta
add_pnl (some pnl) delta = some (pnl +ℤ delta)

abbrev pub book_pnl :
    Side → Decimal → Option Decimal → Option Decimal → HedgeGroupState → HedgeGroupState
book_pnl side filled none fee_amount g = g
book_pnl side filled (some price) fee_amount g =
    let fee = or_default fee_amount (pos 0) in
    let delta = credit side (mul_dec price filled) -ℤ fee in
    if ltb_ℤ (pos 0) filled
    then record g {
      repair_cost_quote = g.repair_cost_quote +ℤ delta;
      actual_fee_quote = g.actual_fee_quote +ℤ fee;
      realized_pnl_quote = add_pnl g.realized_pnl_quote delta;
    }
    else g

unfoldable pub fold_fill : Side → UnifiedOrderState → HedgeGroupState → HedgeGroupState
fold_fill side o g =
    book_pnl side o.filled o.avg_fill_price o.fee_amount (add_executed side o.filled g)

-- `assert_transition`, then the assignment of the state.
abbrev pub moved : Option (Unit {0}) → HedgeState → HedgeGroupState → Outcome
moved none s g = threw g
moved (some _) s g = returned (record g { state = s })

abbrev pub move_to : HedgeState → HedgeGroupState → Outcome
move_to s g = moved (assert_transition g.state s) s g

unfoldable pub settled_state : Decimal → HedgeState
settled_state net =
    if leb_ℤ (abs_ℤ net) tolerance then HedgeState.completed else HedgeState.failed_needs_repair

unfoldable pub finish : HedgeGroupState → Outcome
finish g = move_to (settled_state g.net_position_base) g

abbrev pub start_repair : HedgeGroupState → HedgeGroupState
start_repair g = record g { state = HedgeState.repairing; repair_attempts = g.repair_attempts + 1 }

module _ {W : Type 0} (submit : Submit W) (s : Settings) (client : Text) (books : Books) where
  -- What follows the reply of the router.
  unfoldable pub on_reply :
      Side → HedgeGroupState → Tracker → Option UnifiedOrderState × W → Outcome × (Tracker × W)
  on_reply side g t (none, w) = (threw g, (t, w))
  on_reply side g t (some o, w) = (finish (fold_fill side o g), (Tracker.add o t, w))

  abbrev pub submit_repair : Residual → Venue → Outcome → Tracker → W → Outcome × (Tracker × W)
  submit_repair r v (threw g) t w = (threw g, (t, w))
  submit_repair r v (returned g) t w =
      on_reply r.side (start_repair v.group) t (submit (repair_intent s client r v) w)

  unfoldable pub attempt : Residual → Venue → Tracker → W → Outcome × (Tracker × W)
  attempt r v t w =
      let pnl = projected_pnl s r v.group v.book in
      if too_costly s pnl
      then (returned (skipped s pnl v.group), (t, w))
      else submit_repair r v (move_to HedgeState.repairing v.group) t w

  unfoldable pub repair : HedgeGroupState → Tracker → W → Outcome × (Tracker × W)
  repair g t w =
      let r = residual_of g in
      if eqb_ℤ g.net_position_base (pos 0)
      then (returned (record g { state = HedgeState.completed }), (t, w))
      else if leb s.max_repair_attempts g.repair_attempts
      then (returned (exhausted g), (t, w))
      else attempt r (choose_venue s books r g) t w
