-- ===== src/Runtime/Dispatch.antt =====
-- The body of `_scanner_loop` in app/runtime/app_bootstrap.py, up to the tasks that it creates. Metrics
-- and the rows written to the database, with the decision noted on the opportunity, are left out. No
-- task runs between two opportunities of one scan; the clock readings are an argument.
pub mod Tasks
pub mod Restored
pub mod Limits
use arb_system.Base.{
  ℕ, suc, Bool, true, false, ◌||◌, not, ltb, Text, text, upper, text_has, before, after, split,
  strip, contains, text_key, length, Option, none, some, List, [], ◌∷◌, ◌++◌, Decimal, pos,
  if◌then◌else◌,
}
use arb_system.Models.{RejectReason, ArbitrageOpportunity}
use arb_system.Settings.{Settings, non_empty, strip_all}
use arb_system.MarketData.Books.{Books}
use arb_system.Accounts.Balances
use arb_system.Accounts.Balances.{Balances}
use arb_system.Risk.Exposure
use arb_system.Risk.Exposure.{Exposure}
use arb_system.Risk.Engine.{RiskEngine, Now, Approval, evaluate, set_cooldown}
use arb_system.Risk.Engine.Checks.{Check, passed, rejected, raised}
use arb_system.Strategy.Spread.{SpreadCalculator}
use arb_system.Strategy.Scanner.{Scanner, record_detected, record_decision, scan_once}

-- The arguments of a task that executes a hedge.
pub record HedgeTask : Type 0 where
  pub opportunity : ArbitrageOpportunity
  pub approval : Approval
  pub base : Text
  pub quote : Text
  pub reserve_quote : Decimal
  pub reserve_base : Decimal

-- The state of the loop; `stopped` is an exception that leaves the iteration.
pub record Cycle : Type 0 where
  pub risk : RiskEngine
  pub scanner : Scanner
  pub tasks : List HedgeTask
  pub stopped : Bool

-- `reason.value`
abbrev pub reason_value : RejectReason → Text
reason_value RejectReason.kill_switch = text "kill_switch"
reason_value RejectReason.circuit_breaker = text "circuit_breaker"
reason_value RejectReason.market_data_stale = text "market_data_stale"
reason_value RejectReason.below_min_edge = text "below_min_edge"
reason_value RejectReason.below_min_profit = text "below_min_profit"
reason_value RejectReason.below_min_size = text "below_min_size"
reason_value RejectReason.insufficient_balance = text "insufficient_balance"
reason_value RejectReason.max_exposure = text "max_exposure"
reason_value RejectReason.too_many_open_hedges = text "too_many_open_hedges"
reason_value RejectReason.cooldown_active = text "cooldown_active"
reason_value RejectReason.mode_disallowed = text "mode_disallowed"
reason_value RejectReason.symbol_not_whitelisted = text "symbol_not_whitelisted"
reason_value RejectReason.exchange_unhealthy = text "exchange_unhealthy"
reason_value RejectReason.book_too_old = text "book_too_old"
reason_value RejectReason.signal_too_old = text "signal_too_old"
reason_value RejectReason.daily_loss_limit = text "daily_loss_limit"
reason_value RejectReason.consecutive_loss_limit = text "consecutive_loss_limit"
reason_value RejectReason.other = text "other"

abbrev pub pre_id : ArbitrageOpportunity → Text
pre_id o = text "pre-" ++ o.opportunity_id

abbrev pub task_of : ArbitrageOpportunity → Approval → HedgeTask
task_of o a =
    let pair = text_has b'/' o.symbol in
    record {
      opportunity = o;
      approval = a;
      base = if pair then before b'/' (upper o.symbol) else [];
      quote = if pair then after b'/' (upper o.symbol) else [];
      reserve_quote = if pair then a.notional else pos 0;
      reserve_base = if pair then a.amount else pos 0;
    }

abbrev pub reserve_both : HedgeTask → Balances → Balances
reserve_both k m =
    let o = k.opportunity in
    if text_has b'/' o.symbol
    then Balances.reserve o.sell_exchange k.base k.reserve_base
        (Balances.reserve o.buy_exchange k.quote k.reserve_quote m)
    else m

-- The notional is in flight from here on, under an id of its own.
abbrev pub charge_both : HedgeTask → Exposure → Exposure
charge_both k x =
    let o = k.opportunity in
    Exposure.add o.sell_exchange k.approval.notional (pre_id o)
      (Exposure.add o.buy_exchange k.approval.notional (pre_id o) x)

-- Every mode creates a task.
unfoldable pub accept : Now → HedgeTask → Cycle → Cycle
accept now k x = record x {
  scanner = record_decision true none x.scanner;
  risk = set_cooldown now k.opportunity.symbol none (record x.risk {
    balances = reserve_both k x.risk.balances;
    exposure = charge_both k x.risk.exposure;
  });
  tasks = x.tasks ++ (k ∷ []);
}

abbrev pub decide : Now → ArbitrageOpportunity → Check Approval → Cycle → Cycle
decide now o (passed a) x = accept now (task_of o a) x
decide now o (rejected r) x = record x {
  scanner = record_decision false (some (reason_value r)) x.scanner;
}
decide now o raised x = record x { stopped = true }

unfoldable pub dispatch : Now → ArbitrageOpportunity → Cycle → Cycle
dispatch now o x =
    if x.stopped
    then x
    else decide now o (evaluate x.risk now o) (record x { scanner = record_detected x.scanner })

-- The opportunities from the `n`-th of the scan on.
unfoldable pub dispatch_all : (ℕ → Now) → ℕ → List ArbitrageOpportunity → Cycle → Cycle
dispatch_all clock n [] x = x
dispatch_all clock n (o ∷ os) x = dispatch_all clock (suc n) os (dispatch (clock n) o x)

pub record LoopSettings : Type 0 where
  pub paused : Bool
  pub strategy_cross_exchange_spot_enabled : Bool
  pub strategy_cross_exchange_spot_exchanges : Text

unfoldable pub only_selected : List Text → List Text → List Text
only_selected selected [] = []
only_selected selected (n ∷ ns) =
    let rest = only_selected selected ns in if contains n selected then n ∷ rest else rest

abbrev or_all : List Text → List Text → List Text
or_all [] names = names
or_all (s ∷ ss) names = only_selected (s ∷ ss) names

unfoldable pub traded_exchanges : LoopSettings → List Text → List Text
traded_exchanges s names =
    or_all (non_empty (strip_all (split b',' (strip s.strategy_cross_exchange_spot_exchanges))))
      names

-- One iteration of the loop, for the names of the registry.
unfoldable pub iterate :
    LoopSettings → SpreadCalculator → ℕ → (ℕ → Text) → (ℕ → Now) → List Text → Cycle → Cycle
iterate s k now new_id clock names x =
    let exchanges = traded_exchanges s names in
    let found = scan_once x.risk.settings x.risk.books k now new_id exchanges x.scanner in
    if s.paused || not s.strategy_cross_exchange_spot_enabled || ltb (length exchanges) 2
    then x
    else dispatch_all clock 0 found.out (record x { scanner = found.scanner; stopped = false })
