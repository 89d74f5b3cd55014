-- ===== src/Execution/Triangular/RunSync.antt =====
-- `_run_sync` of app/execution/triangular_executor.py, over the paper engine.
use arb_system.Base.{
  ℕ, suc, Bool, not, ◌||◌, ◌&&◌, Text, text, Option, none, some, List, [], ◌∷◌, ◌++◌, Decimal, pos,
  div_dec, ltb_ℤ, leb_ℤ, if◌then◌else◌,
}
use arb_system.Models.{UnifiedOrderState, is_buy, is_filled}
use arb_system.Strategy.Triangular.{TriangularOpportunity}
use arb_system.Execution.Submission.{Submit}
use arb_system.Execution.Triangular.{
  LegResult, ExecutionReport, Leg, Stamp, Executor, plan, leg_intent, to_leg, brought,
  completed_report, failed_report, reported,
}
use arb_system.Execution.Triangular.Rollback.{rollback}
use arb_system.Execution.Triangular.Run.{Walk, finished, failed, threw, zero_leg}

abbrev pub size_sync : Leg → Decimal → Decimal
size_sync l running =
    if is_buy l.side && ltb_ℤ (pos 0) l.price then div_dec running l.price else running

abbrev pub is_failure_sync : UnifiedOrderState → Bool
is_failure_sync o = not (is_filled o.status) || leb_ℤ o.filled (pos 0)

module _ {W : Type 0} (simulate : Submit W) (exec_id exchange : Text) where
  abbrev pub on_reply_sync :
      ℕ
      → Leg
      → (Decimal → List LegResult → List UnifiedOrderState → W → Walk × W)
      → List LegResult
      → List UnifiedOrderState
      → Option UnifiedOrderState × W
      → Walk × W
  on_reply_sync i l rest legs fills (none, w) = (threw, w)
  on_reply_sync i l rest legs fills (some o, w) =
      if is_failure_sync o
      then (failed i o (legs ++ (to_leg i o ∷ [])) fills, w)
      else rest (brought l.side o) (legs ++ (to_leg i o ∷ [])) (fills ++ (o ∷ [])) w

  unfoldable pub run_legs_sync :
      List Leg → ℕ → Decimal → List LegResult → List UnifiedOrderState → W → Walk × W
  run_legs_sync [] i running legs fills w = (finished legs running, w)
  run_legs_sync (l ∷ ls) i running legs fills w =
      let amount = size_sync l running in
      let reply = simulate (leg_intent exec_id exchange i l amount) w in
      let rest = on_reply_sync i l (run_legs_sync ls (suc i)) legs fills reply in
      if leb_ℤ amount (pos 0)
      then (finished (legs ++ (zero_leg i l amount ∷ [])) running, w)
      else rest

module _ {W : Type 0} (simulate : Submit W) (st : Stamp) (o : TriangularOpportunity)
    (probe : Decimal) where
  abbrev pub report_back :
      List ExecutionReport
      → ℕ
      → UnifiedOrderState
      → List LegResult
      → Option (List LegResult) × W
      → Option ExecutionReport × Executor W
  report_back ring i state legs (none, w) = (none, record { ring = ring; world = w })
  report_back ring i state legs (some back, w) =
      reported (failed_report st o probe legs back i state.status) ring w

  abbrev pub conclude_sync : List ExecutionReport → Walk × W → Option ExecutionReport × Executor W
  conclude_sync ring (finished legs running, w) =
      reported (completed_report st o probe legs running) ring w
  conclude_sync ring (failed i state legs fills, w) =
      report_back ring i state legs (rollback simulate st.exec_id o.exchange fills w)
  conclude_sync ring (threw, w) = (none, record { ring = ring; world = w })

-- `mode="paper-trade"` in both reports.
abbrev pub paper_stamp : Stamp → Stamp
paper_stamp st = record st { mode = text "paper-trade" }

unfoldable pub run_sync :
    {W : Type 0}
    → Submit W
    → Stamp
    → TriangularOpportunity
    → Decimal
    → Executor W
    → Option ExecutionReport × Executor W
run_sync simulate st o probe x =
    conclude_sync simulate (paper_stamp st) o probe x.ring
      (run_legs_sync simulate st.exec_id o.exchange (plan o) 1 probe [] [] x.world)
