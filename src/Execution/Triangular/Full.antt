-- ===== src/Execution/Triangular/Full.antt =====
-- A run of app/execution/triangular_executor.py whose orders are filled in full at their price, as in
-- dry-run mode.
use arb_system.Base.{
  ℕ, suc, ◌≡◌, ◌≢◌, refl, sym, ◌∙◌, ap, Bool, false, Text, Option, some, List, [], ◌∷◌, ◌++◌,
  append_assoc, append-nil, Decimal, pos, ◌<ℤ◌, ◌-ℤ◌, leb_ℤ, arith, All, All-map, length,
  pos-of_mul, pos-of_div,
}
use arb_system.Models.{Mode, Side, OrderStatus, OrderIntent, UnifiedOrderState}
use arb_system.MarketData.Books.{Books}
use arb_system.Strategy.Fees.{FeeModel}
use arb_system.Strategy.Triangular.{Triangle, TriangularOpportunity}
use arb_system.Strategy.Triangular.Evaluate.{found, evaluate_direction}
use arb_system.Execution.Submission.{Submit}
use arb_system.Execution.PaperFill.{PaperEngine, Draw}
use arb_system.Execution.Router.{World, dry_order}
use arb_system.Execution.Router
use arb_system.Execution.Triangular.{
  LegResult, TriangularOutcome, ExecutionReport, Leg, Stamp, Executor, plan, leg_intent, to_leg,
  brought,
}
use arb_system.Execution.Triangular.Plan.{IsPlain, traded, at_prices, plan-Carries}
use arb_system.Execution.Triangular.Run.{Walk, finished, size, is_failure, run_legs, sized, run}

-- A reply to every order, filled in full at the price of the order.
abbrev IsFull : {W : Type 0} → Submit W → Type 0
IsFull {W} submit =
    (intent : OrderIntent) (w : W)
    → (o : UnifiedOrderState) × ((submit intent w).0 ≡ some o)
      × (o.filled ≡ intent.amount)
      × (o.avg_fill_price ≡ intent.price)
      × (o.status ≡ OrderStatus.filled)

abbrev IsPriced : List Leg → Type 0
IsPriced = All (λ l. pos 0 <ℤ l.price)

-- What a trade brings is positive only if what it starts from is.
traded_pos :
    (side : Side) (price q : Decimal) → pos 0 <ℤ price → pos 0 <ℤ traded side price q → pos 0 <ℤ q
traded_pos Side.buy price q h k = pos-of_div q price h k
traded_pos Side.sell price q h k = pos-of_mul q price h k

at_prices_pos : (ls : List Leg) (q : Decimal) → IsPriced ls → pos 0 <ℤ at_prices ls q → pos 0 <ℤ q
unfolding at_prices
at_prices_pos [] q p h = h
at_prices_pos (l ∷ ls) q p h = traded_pos l.side l.price q p.0 (at_prices_pos ls _ p.1 h)

-- An order filled in full is for a positive amount and brings what the trade brings.
sized_pos :
    (side : Side) (price q : Decimal)
    → pos 0 <ℤ price
    → pos 0 <ℤ traded side price q
    → pos 0 <ℤ sized side price q
sized_pos Side.buy price q h k = ground arith
sized_pos Side.sell price q h k = pos-of_mul q price h k

brought-full :
    (side : Side) (price q : Decimal) (o : UnifiedOrderState)
    → pos 0 <ℤ price
    → o.filled ≡ sized side price q
    → o.avg_fill_price ≡ some price
    → brought side o ≡ traded side price q
brought-full Side.buy price q o h f a = ground (arith, f)
brought-full Side.sell price q o h f a = rw (f, a) refl

fine_full :
    (o : UnifiedOrderState)
    → pos 0 <ℤ o.filled
    → o.status ≡ OrderStatus.filled
    → is_failure o ≡ false
fine_full o h e = rw e (ground arith)

module _ {W : Type 0} (submit : Submit W) (exec_id exchange : Text) (full : IsFull submit) where
  -- The results of a run in which every leg was filled.
  Complete : List Leg → List LegResult → Decimal → Walk → Type 0
  Complete ls legs left out =
      (rs : List LegResult) × (length rs ≡ length ls) × (out ≡ finished (legs ++ rs) left)

  run_legs-full :
      (ls : List Leg) (i : ℕ) (q : Decimal) (legs : List LegResult) (fills : List UnifiedOrderState)
      (w : W)
      → IsPriced ls
      → pos 0 <ℤ at_prices ls q
      → Complete ls legs (at_prices ls q) (run_legs submit exec_id exchange ls i q legs fills w).0
  unfolding Complete run_legs at_prices
  run_legs-full [] i q legs fills w p h =
      ([], refl, ap (λ (l : List LegResult). finished l q) (sym (append-nil legs)))
  run_legs-full (l ∷ ls) i q legs fills w p h =
      let start = at_prices_pos ls (traded l.side l.price q) p.1 h in
      let amount = sized_pos l.side l.price q p.0 start in
      let some_amount : leb_ℤ (size l q) (pos 0) ≡ false = ground arith in
      let (o, got, filled, price, status) = full (leg_intent exec_id exchange i l (size l q)) w in
      let fine : is_failure o ≡ false = fine_full o (rw filled amount) status in
      let carry : brought l.side o ≡ traded l.side l.price q =
        brought-full l.side l.price q o p.0 filled price in
      let (rs, n, e) =
        run_legs-full ls (suc i) (traded l.side l.price q) (legs ++ (to_leg i o ∷ []))
          (fills ++ (o ∷ [])) (submit (leg_intent exec_id exchange i l (size l q)) w).1 p.1 h in
      (
        to_leg i o ∷ rs,
        ap suc n,
        rw (some_amount, got, fine, carry) (rw (append_assoc legs (to_leg i o ∷ []) rs) at e),
      )

run-full :
    {W : Type 0} (submit : Submit W) (full : IsFull submit) (st : Stamp) (o : TriangularOpportunity)
    (probe : Decimal) (x : Executor W)
    → IsPriced (plan o)
    → pos 0 <ℤ at_prices (plan o) probe
    → (r : ExecutionReport) × ((run submit st o probe x).0 ≡ some r)
      × (r.outcome ≡ TriangularOutcome.completed)
      × (length r.legs ≡ length (plan o))
      × (r.realized_pnl_quote ≡ at_prices (plan o) probe -ℤ probe)
unfolding run Complete
run-full submit full st o probe x priced gain =
    let (rs, n, e) =
      run_legs-full submit st.exec_id o.exchange full (plan o) 1 probe [] [] x.world priced gain in
    rw e (_, refl, refl, n, refl)

dry-IsFull :
    {L : Type 0} (engine : PaperEngine) (draw : ℕ → Draw) (books : ℕ → Books)
    (create_order : OrderIntent → L → Option UnifiedOrderState × L)
    → IsFull (Router.submit engine draw books create_order Mode.dry_run)
unfolding Router.submit
dry-IsFull engine draw books create_order intent w =
    (dry_order (draw w.calls) intent, refl, refl, refl, refl)

-- In dry-run mode an opportunity that the scanner found, with something left at its end, is carried out
-- completely: the run returns a report of three filled legs whose profit is just the end amount that
-- the scanner computed less the probe, as long as no name of an asset holds a dash and the two assets
-- in between differ.
pub run-dry :
    {L : Type 0} (engine : PaperEngine) (draw : ℕ → Draw) (later : ℕ → Books)
    (create_order : OrderIntent → L → Option UnifiedOrderState × L) (fees : FeeModel)
    (books : Books) (now : ℕ) (id exchange : Text) (t : Triangle) (probe : Decimal) (reverse : Bool)
    (o : TriangularOpportunity) (st : Stamp) (x : Executor (World L))
    → IsPlain t.a
    → IsPlain t.b
    → IsPlain t.c
    → t.b ≢ t.c
    → evaluate_direction fees books now id exchange t probe reverse ≡ found o
    → pos 0 <ℤ o.end_quote
    → (r : ExecutionReport) × ((run
          (Router.submit engine draw later create_order Mode.dry_run)
          st
          o
          o.probe_quote
          x).0
        ≡ some r)
      × (r.outcome ≡ TriangularOutcome.completed)
      × (length r.legs ≡ 3)
      × (r.realized_pnl_quote ≡ o.end_quote -ℤ o.probe_quote)
run-dry engine draw later create_order fees books now id exchange t probe reverse o st x pa pb pc
      distinct e gain =
    let c = plan-Carries fees books now id exchange t probe reverse o pa pb pc distinct e in
    let priced : IsPriced (plan o) = All-map (plan o) (λ l q. q.positive) c.quoted in
    let gain' : pos 0 <ℤ at_prices (plan o) o.probe_quote = rw c.brings gain in
    let (r, ret, out, n, profit) =
      run-full (Router.submit engine draw later create_order Mode.dry_run)
        (dry-IsFull engine draw later create_order) st o o.probe_quote x priced gain' in
    (r, ret, out, n ∙ c.legs, rw c.brings at profit)
