-- ===== src/Execution/Coordinator/Position.antt =====
-- The state and the position of a group while app/execution/hedge_coordinator.py settles its legs.
use arb_system.Base.{◌≡◌, refl, Option, none, some, Decimal, pos, ltb_ℤ, Bool-cases, inl, inr, List}
use arb_system.Models.{Side, HedgeState, UnifiedOrderState, HedgeGroupState, Note}
use arb_system.Settings.{Settings}
use arb_system.Risk.Exposure.{Exposure}
use arb_system.Execution.Submission.{Submit}
use arb_system.Execution.Repair.{
  Outcome, returned, threw, group_of, fold_fill, book_pnl, start_repair,
}
use arb_system.Execution.Repair.Endings.{
  noted, Ending, flat, spent, refused, blocked, failed, filled, repair-Ending,
}
use arb_system.Execution.Repair.Fills.{IsBalanced, IsHedged}
use arb_system.Execution.Repair.Laws.{
  Both, After, hedged, open_again, gave_up, Interrupted, repair-ends, Ending-IsBalanced,
  finish-closed_by, closed_by, failed_may_repair,
}
use arb_system.Execution.Coordinator.Desk.{Coordinator, Moment, Desk, repair_at}

-- What a release of exposure reads of a group.
pub record Kept (h g : HedgeGroupState) : Type 0 where
  pub id : g.hedge_group_id ≡ h.hedge_group_id
  pub buy_at : g.buy_exchange ≡ h.buy_exchange
  pub sell_at : g.sell_exchange ≡ h.sell_exchange
  pub notional : g.planning_notional_quote ≡ h.planning_notional_quote

pub Kept-refl : (h : HedgeGroupState) → Kept h h
Kept-refl h = record { id = refl; buy_at = refl; sell_at = refl; notional = refl }

book_pnl-Kept :
    (side : Side) (n : Decimal) (price fee : Option Decimal) (g : HedgeGroupState)
    → Kept g (book_pnl side n price fee g)
book_pnl-Kept side n none fee g = Kept-refl g
book_pnl-Kept side n (some p) fee g = elim (Bool-cases (ltb_ℤ (pos 0) n)) [
  | inl e ↦ rw e (record { id = refl; buy_at = refl; sell_at = refl; notional = refl })
  | inr e ↦ rw e (Kept-refl g)
]

fold_fill-Kept :
    (side : Side) (o : UnifiedOrderState) (g : HedgeGroupState) → Kept g (fold_fill side o g)
unfolding fold_fill
fold_fill-Kept Side.buy o g =
    let k = book_pnl-Kept Side.buy o.filled o.avg_fill_price o.fee_amount _ in
    record { id = k.id; buy_at = k.buy_at; sell_at = k.sell_at; notional = k.notional }
fold_fill-Kept Side.sell o g =
    let k = book_pnl-Kept Side.sell o.filled o.avg_fill_price o.fee_amount _ in
    record { id = k.id; buy_at = k.buy_at; sell_at = k.sell_at; notional = k.notional }

closed_by-Kept :
    (g : HedgeGroupState) (ns : List Note) (side : Side) (o : UnifiedOrderState)
    → Kept g (closed_by g ns side o)
closed_by-Kept g ns side o =
    let k = fold_fill-Kept side o (start_repair (noted ns g)) in
    record { id = k.id; buy_at = k.buy_at; sell_at = k.sell_at; notional = k.notional }

Ending-Kept :
    {W : Type 0} (submit : Submit W) (s : Settings) (g : HedgeGroupState) (out : Outcome)
    → Ending submit s g out
    → Kept g (group_of out)
Ending-Kept submit s g _ (flat h) = record {
  id = refl;
  buy_at = refl;
  sell_at = refl;
  notional = refl;
}
Ending-Kept submit s g _ (spent many) = record {
  id = refl;
  buy_at = refl;
  sell_at = refl;
  notional = refl;
}
Ending-Kept submit s g _ (refused ns pnl high) = record {
  id = refl;
  buy_at = refl;
  sell_at = refl;
  notional = refl;
}
Ending-Kept submit s g _ (blocked ns no_turn) = record {
  id = refl;
  buy_at = refl;
  sell_at = refl;
  notional = refl;
}
Ending-Kept submit s g _ (failed ns intent w few lost) = record {
  id = refl;
  buy_at = refl;
  sell_at = refl;
  notional = refl;
}
Ending-Kept submit s g _ (filled ns intent w o few closes got) =
    rw (finish-closed_by g ns intent.side o) (closed_by-Kept g ns intent.side o)

-- What a hedge ends as. COMPLETED is hedged; REPAIRING is what an exception in a rollback leaves.
pub data Final (g : HedgeGroupState) : Type 0 where
  done_hedged : g.state ≡ HedgeState.completed → IsHedged g → Final g
  left_open : g.state ≡ HedgeState.failed_needs_repair → Final g
  given_up : g.state ≡ HedgeState.aborted → Final g
  interrupted : g.state ≡ HedgeState.repairing → Final g

After-Final : {s : Settings} {h g : HedgeGroupState} → After s h g → Final g
After-Final (hedged e small) = done_hedged e small
After-Final (open_again e) = left_open e
After-Final (gave_up e same many) = given_up e

-- Where a repair of the group `h` leaves it; the exposure is `x` as before.
pub record Mended {W : Type 0} (h : HedgeGroupState) (x : Exposure) (r : Outcome × Desk W)
    : Type 0 where
  pub ends : Both Final (λ g. g.state ≡ HedgeState.repairing) r.0
  pub kept : Kept h (group_of r.0)
  pub even : IsBalanced (group_of r.0)
  pub exposure : r.1.exposure ≡ x

pub Both-map :
    {P Q P' Q' : HedgeGroupState → Type 0} (out : Outcome)
    → Both P Q out
    → ((g : HedgeGroupState) → P g → P' g)
    → ((g : HedgeGroupState) → Q g → Q' g)
    → Both P' Q' out
Both-map (returned g) b f k = f g b
Both-map (threw g) b f k = k g b

Interrupted-repairing :
    (h g : HedgeGroupState)
    → h.state ≡ HedgeState.failed_needs_repair
    → Interrupted h g
    → g.state ≡ HedgeState.repairing
Interrupted-repairing h g e i = elim i.state [
  | inl (turned, counted) ↦ turned
  | inr (same, refused_turn) ↦ absurd (failed_may_repair h.state e refused_turn)
]

pub repair_at-Mended :
    {W : Type 0} (c : Coordinator W) (v : Moment) (h : HedgeGroupState) (d : Desk W)
    → h.state ≡ HedgeState.failed_needs_repair
    → IsBalanced h
    → Mended h d.exposure (repair_at c v h d)
repair_at-Mended c v h d e even =
    let ending =
      repair-Ending c.submit c.settings v.repair_client v.repair_books h d.tracker d.world in
    record {
      ends =
          Both-map _
            (repair-ends c.submit c.settings v.repair_client v.repair_books h d.tracker d.world)
            (λ g r. After-Final r.after) (λ g i. Interrupted-repairing h g e i);
      kept = Ending-Kept c.submit c.settings h _ ending;
      even = Ending-IsBalanced c.submit c.settings h _ even ending;
      exposure = refl;
    }
