-- ===== src/Runtime/Dispatch/Tasks.antt =====
-- `_execute_hedge_async` of app/runtime/app_bootstrap.py. The balances that the risk engine reads are
-- those that the executors' orders change; `venue` is the rest of what an order changes.
use arb_system.Base.{
  Bool, true, false, ◌&&◌, not, Text, Option, none, some, List, [], ◌∷◌, Dict, or_default,
  if◌then◌else◌,
}
use arb_system.Models.{HedgeGroupState, is_dry_run}
use arb_system.Accounts.Balances
use arb_system.Accounts.Balances.{Balances}
use arb_system.Risk.Exposure
use arb_system.Risk.Exposure.{Exposure}
use arb_system.Risk.Engine.{RiskEngine, Now, record_realized_pnl}
use arb_system.Execution.Tracker.{Tracker}
use arb_system.Execution.Repair.{Outcome, returned, threw}
use arb_system.Execution.Coordinator.Desk.{Coordinator, Moment, Desk}
use arb_system.Execution.Coordinator.Execute as Hedge
use arb_system.Execution.MakerTaker.{MakerSettings, MakerTakerReport, SubmitWithin, MakerDesk}
use arb_system.Execution.MakerTaker as MakerTaker
use arb_system.Execution.MakerTaker.Hedge.{MakerMoment}
use arb_system.Execution.MakerTaker.Execute as Maker
use arb_system.Runtime.Dispatch.{HedgeTask, pre_id}

pub record System (V : Type 0) : Type 0 where
  pub risk : RiskEngine
  pub hedges : Dict Text HedgeGroupState
  pub tracker : Tracker
  pub reports : List MakerTakerReport
  pub venue : V

-- The executors, and whether `execution_mode` is "maker_taker".
pub record Executors (V : Type 0) : Type 0 where
  pub coordinator : Coordinator (Balances × V)
  pub maker_submit : SubmitWithin (Balances × V)
  pub maker_settings : MakerSettings
  pub is_maker_taker : Bool

-- What the environment supplies to a task.
pub record TaskMoment : Type 0 where
  pub hedge : Moment
  pub maker : MakerMoment
  pub ended : Now

abbrev pub desk_of : {V : Type 0} → System V → Desk (Balances × V)
desk_of s = record {
  hedges = s.hedges;
  exposure = s.risk.exposure;
  breaker = some s.risk.breaker;
  tracker = s.tracker;
  world = (s.risk.balances, s.venue);
}

-- The profit of a group that was returned joins the daily loss.
abbrev pub booked : Now → Outcome → RiskEngine → RiskEngine
booked now (returned g) e = record_realized_pnl now g.realized_pnl_quote e
booked now (threw g) e = e

abbrev pub after_hedge : {V : Type 0} → Now → Outcome × Desk (Balances × V) → System V → System V
after_hedge now (out, d) s = record s {
  hedges = d.hedges;
  tracker = d.tracker;
  venue = d.world.1;
  risk = booked now out (record s.risk {
    exposure = d.exposure;
    breaker = or_default d.breaker s.risk.breaker;
    balances = d.world.0;
  });
}

abbrev pub uncharged : HedgeTask → Exposure → Exposure
uncharged k x =
    let o = k.opportunity in
    Exposure.release o.sell_exchange k.approval.notional (pre_id o)
      (Exposure.release o.buy_exchange k.approval.notional (pre_id o) x)

abbrev pub release_pre : {V : Type 0} → HedgeTask → System V → System V
release_pre k s = record s { risk = record s.risk { exposure = uncharged k s.risk.exposure } }

abbrev pub filled_in : Text → Bool
filled_in [] = false
filled_in (_ ∷ _) = true

unfoldable pub release_reserves : {V : Type 0} → HedgeTask → System V → System V
release_reserves k s =
    let o = k.opportunity in
    if filled_in k.base && filled_in k.quote
    then record s {
      risk = record s.risk {
        balances =
            Balances.release_reserve o.sell_exchange k.base k.reserve_base
              (Balances.release_reserve o.buy_exchange k.quote k.reserve_quote s.risk.balances);
      };
    }
    else s

-- The desk of the maker-taker executor, which does not know of the exposure.
abbrev pub after_maker :
    {V : Type 0}
    → HedgeTask
    → System V
    → Option (MakerTaker.Outcome × MakerDesk (Balances × V))
    → Option (System V)
after_maker k s none = none
after_maker k s (some (out, d)) = some (
    release_pre k (
      release_reserves k (record s {
        reports = d.ring;
        venue = d.world.1;
        risk = record s.risk { balances = d.world.0 };
      })))

-- `none` is a maker order that is still waiting.
unfoldable pub execute_hedge :
    {V : Type 0} → Executors V → TaskMoment → HedgeTask → System V → Option (System V)
execute_hedge x t k s =
    let o = k.opportunity in
    if x.is_maker_taker && not (is_dry_run x.maker_settings.mode)
    then after_maker k s (
        Maker.execute x.maker_submit x.maker_settings t.maker o k.approval.amount
          (record { ring = s.reports; world = (s.risk.balances, s.venue) }))
    else some (
        release_reserves k (
          after_hedge t.ended
            (Hedge.execute x.coordinator t.hedge o k.approval.amount (desk_of (release_pre k s)))
            s))
