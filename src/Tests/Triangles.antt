-- ===== src/Tests/Triangles.antt =====
-- The triangular scanner and executor at one exchange with three books.
use arb_system.Base.{
  ℕ, zero, suc, ◌≡◌, ◌≢◌, refl, Bool, true, false, Text, text, text_eq_iff, Option, none, some,
  List, [], ◌∷◌, Decimal, whole, pos, ◌-ℤ◌, ◌<ℤ◌, All, All-map, length, arith,
}
use arb_system.Models.{Mode, OrderBookSnapshot, OrderIntent}
use arb_system.MarketData.Books.{Books}
use arb_system.Strategy.Triangular.{Triangle, TriangularOpportunity, TriangularScanner}
use arb_system.Strategy.Triangular.Evaluate.{
  Tops, found, trip_of, opportunity_of, evaluate_direction,
}
use arb_system.Strategy.Triangular.Scan.{TriangularSettings, scan_once}
use arb_system.Strategy.Triangular.Laws.{IsKept, scan_once-IsKept}
use arb_system.Execution.Submission.{Submit, IsEcho}
use arb_system.Execution.PaperFill.{PaperEngine}
use arb_system.Execution.Router.{World, dry_order}
use arb_system.Execution.Router
use arb_system.Execution.Triangular.{TriangularOutcome, ExecutionReport, Stamp, Executor, plan}
use arb_system.Execution.Triangular.Plan.{Carries, plan-Carries}
use arb_system.Execution.Triangular.Run.{run}
use arb_system.Execution.Triangular.RunSync.{paper_stamp, run_sync}
use arb_system.Execution.Triangular.Chains.{Ends, run-Ends}
use arb_system.Execution.Triangular.Full.{run-dry}
use arb_system.Execution.Triangular.Agreement.{IsDecisive, run_sync-eq-run, run-threw}
use arb_system.Tests.Data.{north, level, fees, draw, dry_submit}

abbrev book : Text → ℕ → ℕ → OrderBookSnapshot
book symbol bid ask = record {
  exchange = north;
  symbol = symbol;
  bids = level bid 3 ∷ [];
  asks = level ask 2 ∷ [];
  ts_local = 1_000;
}

abbrev tri_books : Books
tri_books = record {
  max_stale_ms = 1_000;
  entries =
      (
        (north, text "BTC/USDT"),
        record { snapshot = book (text "BTC/USDT") 99 100; received_at_ms = 1_000 },
      )
      ∷ (
        (north, text "ETH/BTC"),
        record { snapshot = book (text "ETH/BTC") 1 2; received_at_ms = 1_000 },
      )
      ∷ (
        (north, text "ETH/USDT"),
        record { snapshot = book (text "ETH/USDT") 210 220; received_at_ms = 1_000 },
      )
      ∷ [];
  subscribers = [];
}

abbrev triangle : Triangle
triangle = record { a = text "USDT"; b = text "BTC"; c = text "ETH" }

abbrev tops : Tops
tops = record {
  ask_ba = whole 100;
  bid_ba = whole 99;
  ask_cb = whole 2;
  bid_cb = whole 1;
  ask_ca = whole 220;
  bid_ca = whole 210;
}

abbrev tri_settings : TriangularSettings
tri_settings = record {
  exchanges = text "north";
  triangular_exchange = text "south";
  triangular_triangles = text "usdt, btc, eth; usdt";
  triangular_min_net_edge_bps = whole 2;
  max_notional_per_trade = whole 200;
}

abbrev tri_scanner : TriangularScanner
tri_scanner = record { ring = []; session_count = 0; scan_count = 0; last_scan_at = none }

abbrev start : ℕ
start = 0

scan_once-IsKept_example :
    IsKept tri_settings
      (λ (w : ℕ). tri_books)
      (λ w. 1_200)
      (scan_once tri_settings fees
        (λ w. tri_books)
        (λ w. 1_200)
        (λ n. n ∷ [])
        none
        (λ x. true)
        (λ ex pair w. w)
        tri_scanner
        start).scanner
scan_once-IsKept_example =
    scan_once-IsKept tri_settings fees (λ (w : ℕ). tri_books) (λ w. 1_200) (λ n. n ∷ []) none
      (λ x. true) (λ ex pair w. w) tri_scanner start (omega arith, tt)

-- What the scanner finds from USDT over BTC and ETH.
abbrev tri_opp : TriangularOpportunity
tri_opp =
    opportunity_of fees tri_books 1_200 (text "t1") north triangle (whole 200) false
      (trip_of false triangle tops (whole 200))

is_found :
    evaluate_direction fees tri_books 1_200 (text "t1") north triangle (whole 200) false
    ≡ found tri_opp
unfolding evaluate_direction arb_system.MarketData.Books.get arb_system.MarketData.Books.entry
    arb_system.MarketData.Books.is_stale arb_system.Base.lookup
    arb_system.Strategy.Triangular.pairs_for arb_system.Base.min_ℤ arb_system.Base.whole
    arb_system.Base.scale
is_found = refl

b_is_not_c : text "BTC" ≢ text "ETH"
b_is_not_c e = let same : false ≡ true = (text_eq_iff (text "BTC") (text "ETH")).1 e in absurd (cc)

plan-Carries_example : Carries tri_books 1_200 tri_opp (plan tri_opp)
plan-Carries_example =
    plan-Carries fees tri_books 1_200 (text "t1") north triangle (whole 200) false tri_opp refl refl
      refl b_is_not_c is_found

abbrev stamp : Stamp
stamp = record { exec_id = text "h-1234567890"; mode = text "paper"; started = 1; finished = 2 }

abbrev executor : Executor ℕ
executor = record { ring = []; world = 0 }

pub dry_submit-IsEcho : IsEcho dry_submit
dry_submit-IsEcho intent n o e = (ground (arith, e), ground (arith, e), ground (arith, e))

run-Ends_example :
    Ends dry_submit tri_opp (whole 200) executor (run dry_submit stamp tri_opp (whole 200) executor)
run-Ends_example = run-Ends dry_submit dry_submit-IsEcho stamp tri_opp (whole 200) executor

abbrev paper_engine : PaperEngine
paper_engine = record { partial_fill_ratio = whole 1; fee_bps = whole 10; fee_model = none }

abbrev world : World ℕ
world = record { balances = none; venue = 0; calls = 0 }

gains : pos 0 <ℤ tri_opp.end_quote
unfolding arb_system.Strategy.Triangular.Evaluate.forward_trip arb_system.Base.mul_dec
    arb_system.Base.div_dec arb_system.Base.whole arb_system.Base.scale arb_system.Base.round_div
gains = omega arith

run-dry_example :
    (r : ExecutionReport) × ((run
        (Router.submit paper_engine draw (λ n. tri_books) (λ intent v. (none, v)) Mode.dry_run)
        stamp
        tri_opp
        (whole 200)
        (record { ring = []; world = world })).0
      ≡ some r)
    × (r.outcome ≡ TriangularOutcome.completed)
    × (length r.legs ≡ 3)
    × (r.realized_pnl_quote ≡ tri_opp.end_quote -ℤ whole 200)
run-dry_example =
    run-dry paper_engine draw (λ n. tri_books) (λ intent v. (none, v)) fees tri_books 1_200
      (text "t1") north triangle (whole 200) false tri_opp stamp
      (record { ring = []; world = world }) refl refl refl b_is_not_c is_found gains

dry_submit-IsDecisive : IsDecisive dry_submit
dry_submit-IsDecisive intent n = (_, refl, λ h. refl)

priced : All (λ l. pos 0 <ℤ l.price) (plan tri_opp)
priced = All-map (plan tri_opp) (λ l q. q.positive) plan-Carries_example.quoted

run_sync-eq-run_example :
    run_sync dry_submit stamp tri_opp (whole 200) executor
    ≡ run dry_submit (paper_stamp stamp) tri_opp (whole 200) executor
run_sync-eq-run_example =
    run_sync-eq-run dry_submit stamp tri_opp (whole 200) executor dry_submit-IsDecisive priced

-- A router that fills the first order and raises at every other one. Its world is the number of the
-- orders sent and of the repairs among them.
abbrev counted : Bool → ℕ → ℕ
counted true n = suc n
counted false n = n

abbrev second_fails : Submit (ℕ × ℕ)
second_fails intent (zero, r) = (some (dry_order (draw 0) intent), (1, counted intent.is_repair r))
second_fails intent (suc n, r) = (none, (suc (suc n), counted intent.is_repair r))

abbrev fresh : Executor (ℕ × ℕ)
fresh = record { ring = []; world = (0, 0) }

second_raises :
    ((run second_fails stamp tri_opp (whole 200) fresh).0 ≡ none)
    × ((run second_fails stamp tri_opp (whole 200) fresh).1.world.0 ≡ 2)
unfolding run arb_system.Execution.Triangular.Run.run_legs plan arb_system.Base.split_arrow
    arb_system.Strategy.Triangular.Evaluate.forward_trip arb_system.Base.div_dec
    arb_system.Base.mul_dec arb_system.Base.whole arb_system.Base.scale arb_system.Base.round_div
second_raises = (refl, refl)

no_repair :
    (intent : OrderIntent) (w : ℕ × ℕ)
    → intent.is_repair ≡ false
    → w.1 ≡ 0
    → (second_fails intent w).1.1 ≡ 0
no_repair intent (zero, r) e p = rw e p
no_repair intent (suc n, r) e p = rw e p

run-threw_example :
    ((run second_fails stamp tri_opp (whole 200) fresh).1.ring ≡ [])
    × ((run second_fails stamp tri_opp (whole 200) fresh).1.world.1 ≡ 0)
run-threw_example =
    run-threw second_fails (λ w. w.1 ≡ 0) no_repair stamp tri_opp (whole 200) fresh second_raises.0
      refl
