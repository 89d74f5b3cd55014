-- ===== src/Tests/Makers.antt =====
-- The maker-taker executor on the small market.
use arb_system.Base.{
  ℕ, suc, ◌+◌, ◌*◌, ◌≡◌, ◌≢◌, refl, Text, text, Option, none, some, List, [], ◌∷◌, Decimal, whole,
  pos, arith,
}
use arb_system.Models.{Mode}
use arb_system.Execution.Router.{dry_order}
use arb_system.Execution.MakerTaker.{
  MakerSettings, SubmitWithin, replied, MakerDesk, Outcome, threw,
}
use arb_system.Execution.MakerTaker.Wait.{Poll, Waited, wait}
use arb_system.Execution.MakerTaker.Hedge.{MakerMoment}
use arb_system.Execution.MakerTaker.Execute.{execute}
use arb_system.Execution.MakerTaker.Waiting.{IsWaited, wait-ends}
use arb_system.Execution.MakerTaker.Calm.{IsCalm}
use arb_system.Execution.MakerTaker.Sales.{IsFairWithin, Ends}
use arb_system.Execution.MakerTaker.Endings.{execute-returns}
use arb_system.Tests.Data.{north_book, books, opportunity, draw}

abbrev pub maker_settings : MakerSettings
maker_settings = record {
  mode = Mode.paper_trade;
  maker_offset_bps = whole 200;
  min_fill_ratio = whole 0;
  max_wait_ms = 5_000;
  max_price_deviation_bps = whole 3;
  ioc_price_buffer_bps = whole 10;
}

-- A poll each second.
abbrev polls : ℕ → Poll
polls n = record { elapsed_ms = n * 1_000; book = some north_book }

wait-ends_example :
    (x : Waited) × (wait maker_settings (whole 100) (whole 1) (whole 99) polls 6 0 ≡ some x)
    × (wait maker_settings (whole 100) (whole 1) (whole 99) polls (6 + 4) 0 ≡ some x)
    × IsWaited maker_settings (whole 100) (whole 1) (whole 99) polls x
unfolding whole arb_system.Base.scale
wait-ends_example =
    wait-ends maker_settings (whole 100) (whole 1) (whole 99) polls 5 6 4 (omega arith)
      (omega arith) (omega arith)

abbrev pub maker_moment : MakerMoment
maker_moment = record {
  hid = text "h1";
  hedge_client = text "h";
  panic_client = text "p";
  books = books;
  polls = polls;
  rounds = 6;
  hedge_books = books;
  panic_books = books;
  posted_at = 1;
  completed_at = 2;
}

-- A router that fills every order in time.
abbrev pub in_time : SubmitWithin ℕ
in_time intent n = (replied (dry_order (draw n) intent), suc n)

in_time-IsFairWithin : IsFairWithin in_time
in_time-IsFairWithin intent n o positive e = ground arith

abbrev maker_desk : MakerDesk ℕ
maker_desk = record { ring = []; world = 0 }

in_time-IsCalm : IsCalm in_time
in_time-IsCalm intent n e = absurd (cc)

execute-returns_example :
    (end : Outcome × MakerDesk ℕ) × (execute in_time maker_settings maker_moment opportunity
        (whole 2)
        maker_desk
      ≡ some end)
    × (end.0 ≢ threw)
    × Ends maker_settings (whole 2) maker_desk end
unfolding whole arb_system.Base.scale
execute-returns_example =
    execute-returns in_time maker_settings maker_moment opportunity (whole 2) in_time-IsFairWithin
      maker_desk 5 in_time-IsCalm (omega arith) (omega arith) (omega arith)
