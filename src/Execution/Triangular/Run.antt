-- ===== src/Execution/Triangular/Run.antt =====
-- `_run` of app/execution/triangular_executor.py.
use arb_system.Base.{
  ℕ, suc, Bool, true, false, ◌||◌, Text, Option, none, some, List, [], ◌∷◌, ◌++◌, Decimal, pos,
  div_dec, ltb_ℤ, leb_ℤ, if◌then◌else◌,
}
use arb_system.Models.{Side, OrderStatus, UnifiedOrderState}
use arb_system.Strategy.Triangular.{TriangularOpportunity}
use arb_system.Execution.Submission.{Submit}
use arb_system.Execution.Triangular.{
  LegResult, LegReason, ExecutionReport, Leg, Stamp, Executor, plan, leg_intent, to_leg,
  unfilled_leg, brought, completed_report, failed_report, reported,
}
use arb_system.Execution.Triangular.Rollback.{rollback_async}

-- How the loop over the plan ends: with its results and what is left in hand; at a leg that failed,
-- with the fills before it; or by an exception of the router.
pub data Walk : Type 0 where
  finished : List LegResult → Decimal → Walk
  failed : ℕ → UnifiedOrderState → List LegResult → List UnifiedOrderState → Walk
  threw : Walk

abbrev pub sized : Side → Decimal → Decimal → Decimal
sized Side.buy price running = if ltb_ℤ (pos 0) price then div_dec running price else pos 0
sized Side.sell price running = running

abbrev pub size : Leg → Decimal → Decimal
size l running = sized l.side l.price running

abbrev pub is_refused : OrderStatus → Bool
is_refused OrderStatus.rejected = true
is_refused OrderStatus.cancelled = true
is_refused _ = false

abbrev pub is_failure : UnifiedOrderState → Bool
is_failure o = leb_ℤ o.filled (pos 0) || is_refused o.status

abbrev pub zero_leg : ℕ → Leg → Decimal → LegResult
zero_leg i l amount = unfilled_leg i l.pair l.side amount LegReason.zero_intent_amount

module _ {W : Type 0} (submit : Submit W) (exec_id exchange : Text) where
  abbrev pub on_reply :
      ℕ
      → Leg
      → (Decimal → List LegResult → List UnifiedOrderState → W → Walk × W)
      → List LegResult
      → List UnifiedOrderState
      → Option UnifiedOrderState × W
      → Walk × W
  on_reply i l rest legs fills (none, w) = (threw, w)
  on_reply i l rest legs fills (some o, w) =
      if is_failure o
      then (failed i o (legs ++ (to_leg i o ∷ [])) fills, w)
      else rest (brought l.side o) (legs ++ (to_leg i o ∷ [])) (fills ++ (o ∷ [])) w

  unfoldable pub run_legs :
      List Leg → ℕ → Decimal → List LegResult → List UnifiedOrderState → W → Walk × W
  run_legs [] i running legs fills w = (finished legs running, w)
  run_legs (l ∷ ls) i running legs fills w =
      let amount = size l running in
      let reply = submit (leg_intent exec_id exchange i l amount) w in
      let rest = on_reply i l (run_legs ls (suc i)) legs fills reply in
      if leb_ℤ amount (pos 0)
      then (finished (legs ++ (zero_leg i l amount ∷ [])) running, w)
      else rest

module _ {W : Type 0} (submit : Submit W) (st : Stamp) (o : TriangularOpportunity)
    (probe : Decimal) where
  abbrev pub conclude : List ExecutionReport → Walk × W → Option ExecutionReport × Executor W
  conclude ring (finished legs running, w) =
      reported (completed_report st o probe legs running) ring w
  conclude ring (failed i state legs fills, w) =
      let (back, w') = rollback_async submit st.exec_id o.exchange fills w in
      reported (failed_report st o probe legs back i state.status) ring w'
  conclude ring (threw, w) = (none, record { ring = ring; world = w })

  unfoldable pub run : Executor W → Option ExecutionReport × Executor W
  run x = conclude x.ring (run_legs submit st.exec_id o.exchange (plan o) 1 probe [] [] x.world)
