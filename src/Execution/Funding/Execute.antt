-- ===== src/Execution/Funding/Execute.antt =====
-- `execute` of app/execution/funding_executor.py.
use arb_system.Base.{ℕ, Option, none, some, if◌then◌else◌}
use arb_system.Models.{Mode, OrderBookSnapshot}
use arb_system.Strategy.Funding.{FundingRateOpportunity}
use arb_system.Execution.PaperFill.{PaperEngine, Draw}
use arb_system.Execution.Funding.{FundingSettings, FundingHedge, FundingMoment, FundingDesk}
use arb_system.Execution.Funding.Paper.{execute_paper}
use arb_system.Execution.Funding.Live.{Adapters, execute_live}

-- `None`, an exception, or a hedge.
pub data FundingResult : Type 0 where
  skipped threw : FundingResult
  hedged : FundingHedge → FundingResult

abbrev result_of :
    {V : Type 0} → Option FundingHedge × FundingDesk V → FundingResult × FundingDesk V
result_of (none, d) = (threw, d)
result_of (some h, d) = (hedged h, d)

abbrev hedge_result : {V : Type 0} → FundingHedge × FundingDesk V → FundingResult × FundingDesk V
hedge_result (h, d) = (hedged h, d)

module _ {V : Type 0} (engine : PaperEngine) (a : Adapters V) (s : FundingSettings)
    (m : FundingMoment) (spot_draw perp_draw : Draw) (o : FundingRateOpportunity)
    (perp : Option OrderBookSnapshot) (now : ℕ) where
  abbrev pub execute_in : Mode → FundingDesk V → FundingResult × FundingDesk V
  execute_in Mode.dry_run d = (skipped, d)
  execute_in Mode.paper_trade d =
      result_of (execute_paper engine s m spot_draw perp_draw o perp now d)
  execute_in Mode.live d = hedge_result (execute_live a s m o d)

  unfoldable pub execute : FundingDesk V → FundingResult × FundingDesk V
  execute d =
      if s.strategy_funding_rate_spot_perp_enabled then execute_in s.mode d else (skipped, d)
