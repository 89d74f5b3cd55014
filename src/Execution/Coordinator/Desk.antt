-- ===== src/Execution/Coordinator/Desk.antt =====
-- The state of app/execution/hedge_coordinator.py and of the components that it drives. The legs are
-- submitted one after the other, the buy leg first. Between its calls no other task runs.
use arb_system.Base.{
  ℕ, Bool, Text, Option, none, some, List, [], ◌∷◌, Decimal, Dict, lookup, insert, values, text_key,
  if◌then◌else◌,
}
use arb_system.Models.{HedgeGroupState, UnifiedOrderState}
use arb_system.Settings.{Settings}
use arb_system.StateMachine.{terminal}
use arb_system.MarketData.Books.{Books}
use arb_system.Strategy.Spread.{SpreadCalculator}
use arb_system.Risk.Breaker.{Breaker, BreakerConfig, record_outcome, record_pnl}
use arb_system.Risk.Exposure.{Exposure}
use arb_system.Execution.Submission.{Submit}
use arb_system.Execution.Tracker.{Tracker}
use arb_system.Execution.Repair.{Outcome, repair}

-- The settings and the collaborators. `cancel` is the cancellation of an order at its exchange, of
-- which the code only logs the outcome (no adapter, no change); `calculator` is `none` if the coordinator has no books or no
-- calculator.
pub record Coordinator (W : Type 0) : Type 0 where
  pub settings : Settings
  pub submit : Submit W
  pub cancel : UnifiedOrderState → W → W
  pub calculator : Option SpreadCalculator
  pub breaker_config : BreakerConfig

-- What the environment supplies to one call of `execute`: new ids, the times in milliseconds (the
-- breaker's in microseconds), the books, and the answer of the breaker's getter.
pub record Moment : Type 0 where
  pub hedge_id : Text
  pub now : ℕ
  pub filled_at : ℕ
  pub ended_at : ℕ
  pub buy_client : Text
  pub sell_client : Text
  pub repair_client : Text
  pub buy_recorded : ℕ
  pub sell_recorded : ℕ
  pub max_losses : Option (Option ℕ)
  pub books : Books
  pub repair_books : Books

pub record Desk (W : Type 0) : Type 0 where
  pub hedges : Dict Text HedgeGroupState
  pub exposure : Exposure
  pub breaker : Option Breaker
  pub tracker : Tracker
  pub world : W

unfoldable pub register : {W : Type 0} → HedgeGroupState → Desk W → Desk W
register g d = record d { hedges = insert g.hedge_group_id g d.hedges }

unfoldable pub all_hedges : {W : Type 0} → Desk W → List HedgeGroupState
all_hedges d = values d.hedges

abbrev pub not_terminal : List HedgeGroupState → List HedgeGroupState
not_terminal [] = []
not_terminal (g ∷ gs) = if terminal g.state then not_terminal gs else g ∷ not_terminal gs

unfoldable pub active_hedges : {W : Type 0} → Desk W → List HedgeGroupState
unfolding all_hedges
active_hedges d = not_terminal (all_hedges d)

unfoldable pub get : {W : Type 0} → Desk W → Text → Option HedgeGroupState
get d id = lookup id d.hedges

abbrev pub outcome_recorded : BreakerConfig → Bool → ℕ → Option Breaker → Option Breaker
outcome_recorded c ok now none = none
outcome_recorded c ok now (some b) = some (record_outcome c ok now b)

abbrev pub pnl_recorded :
    BreakerConfig → Option (Option ℕ) → Option Decimal → Option Breaker → Option Breaker
pnl_recorded c getter pnl none = none
pnl_recorded c getter pnl (some b) = some (record_pnl c getter pnl b)

abbrev pub after_repair : {W : Type 0} → Desk W → Outcome × (Tracker × W) → Outcome × Desk W
after_repair d (out, (t, w)) = (out, record d { tracker = t; world = w })

-- The repair engine, on the coordinator's tracker.
abbrev pub repair_at :
    {W : Type 0} → Coordinator W → Moment → HedgeGroupState → Desk W → Outcome × Desk W
repair_at c v g d =
    after_repair d (repair c.submit c.settings v.repair_client v.repair_books g d.tracker d.world)
