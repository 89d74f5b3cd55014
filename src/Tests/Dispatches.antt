-- ===== src/Tests/Dispatches.antt =====
-- The dispatch of opportunities and their tasks on the small market.
use arb_system.Base.{
  ℕ, suc, ◌≡◌, ◌≢◌, refl, true, false, text_eq_iff, Option, some, none, List, [], ◌∷◌, Decimal, pos,
  whole, scale, slack, ◌≤ℤ◌, ◌<ℤ◌, ◌+ℤ◌, or_default, All, arith,
}
use arb_system.Accounts.Balances.{Balances}
use arb_system.Risk.Exposure.{in_flight, no_exposure}
use arb_system.Execution.Submission.{Submit}
use arb_system.Execution.Repair.Laws.{Answers}
use arb_system.Execution.Router.{dry_order}
use arb_system.Execution.Tracker.{no_orders}
use arb_system.Execution.MakerTaker.{replied}
use arb_system.Runtime.Dispatch.{Cycle, dispatch, dispatch_all, task_of}
use arb_system.Runtime.Dispatch.Tasks.{System, Executors, TaskMoment, execute_hedge}
use arb_system.Runtime.Dispatch.Restored.{SameFlight, dispatch-restores}
use arb_system.Runtime.Dispatch.Limits.{IsPlain, IsCapped, dispatch_all-IsCapped}
use arb_system.Tests.Data.{
  north, south, settings, opportunity, calculator, breaker_config, engine, today, draw, moment,
}
use arb_system.Tests.Controls.{approval, approved}
use arb_system.Tests.Hedges.{no_exposure-IsNonnegative}
use arb_system.Tests.Makers.{maker_settings, maker_moment}
use arb_system.Tests.Scans.{scanner}

abbrev cycle : Cycle
cycle = record { risk = engine; scanner = scanner; tasks = []; stopped = false }

-- A router that fills every order, and leaves the balances to the exchange.
abbrev fill_all : Submit (Balances × ℕ)
fill_all intent (m, n) = (some (dry_order (draw n) intent), (m, suc n))

fill_all-Answers : Answers fill_all
fill_all-Answers intent (m, n) = (dry_order (draw n) intent, refl)

abbrev executors : Executors ℕ
executors = record {
  coordinator = record {
    settings = settings;
    submit = fill_all;
    cancel = λ _ w. w;
    calculator = some calculator;
    breaker_config = breaker_config;
  };
  maker_submit = λ intent w. (replied (dry_order (draw w.1) intent), w);
  maker_settings = maker_settings;
  is_maker_taker = false;
}

abbrev task_moment : TaskMoment
task_moment = record { hedge = moment; maker = maker_moment; ended = today }

abbrev system : System ℕ
system = record {
  risk = (dispatch today opportunity cycle).risk;
  hedges = [];
  tracker = no_orders;
  reports = [];
  venue = 0;
}

abbrev system_after : System ℕ
system_after =
    or_default (execute_hedge executors task_moment (task_of opportunity approval) system) system

task_ends :
    execute_hedge executors task_moment (task_of opportunity approval) system ≡ some system_after
unfolding execute_hedge
task_ends = refl

least_nonneg : pos 0 ≤ℤ whole 10
unfolding whole scale
least_nonneg = omega arith

dispatch-restores_example : SameFlight system_after.risk.exposure no_exposure
dispatch-restores_example =
    dispatch-restores executors task_moment fill_all-Answers today opportunity cycle approval system
      system_after refl approved no_exposure-IsNonnegative least_nonneg refl task_ends

spare_small : slack (whole 100) <ℤ whole 10
unfolding slack whole scale
spare_small = omega arith

north_is_not_south : north ≢ south
north_is_not_south e = let same : false ≡ true = (text_eq_iff north south).1 e in absurd (cc)

hundred_positive : pos 0 <ℤ whole 100
unfolding whole scale
hundred_positive = omega arith

opportunity-IsPlain : IsPlain (slack (whole 100)) opportunity
opportunity-IsPlain = record {
  priced = hundred_positive;
  fine = omega arith;
  apart = north_is_not_south;
}

no_exposure-IsCapped : IsCapped settings (slack (whole 100)) no_exposure
unfolding in_flight arb_system.Base.lookup slack whole scale ◌+ℤ◌
no_exposure-IsCapped e = omega arith

dispatch_all-IsCapped_example :
    IsCapped settings
      (slack (whole 100))
      (dispatch_all (λ _. today) 0 (opportunity ∷ opportunity ∷ []) cycle).risk.exposure
dispatch_all-IsCapped_example =
    dispatch_all-IsCapped (slack (whole 100)) (λ _. today) 0 (opportunity ∷ opportunity ∷ []) cycle
      (opportunity-IsPlain, (opportunity-IsPlain, tt)) spare_small no_exposure-IsCapped
