-- ===== src/Execution/Triangular/Chains.antt =====
-- How a run of app/execution/triangular_executor.py can end.
use arb_system.Base.{
  ℕ, ◌≡◌, refl, Option, none, some, List, [], ◌∷◌, ◌++◌, Decimal, ◌∙◌, ◌-ℤ◌, inl, inr,
  append_bounded, ◌⊎◌,
}
use mathlib.Core.List.{reverse, reverse-cons}
use arb_system.Models.{OrderStatus, UnifiedOrderState}
use arb_system.Strategy.Triangular.{TriangularOpportunity}
use arb_system.Execution.Submission.{Submit, IsEcho}
use arb_system.Execution.Triangular.{
  LegResult, TriangularOutcome, ExecutionReport, Stamp, Executor, plan, failed_report, ring_max,
}
use arb_system.Execution.Triangular.Rollback.{reverse_legs, rollback_async}
use arb_system.Execution.Triangular.Run.{Walk, conclude, run}
use arb_system.Execution.Triangular.Walks.{
  Chain, Broken, Undoes, Walked, run_legs-Walked, reverse_legs-Undoes, none_left, undone, ran,
  broke, lost,
}

-- Nothing was filled before the failure, or what was filled had to be reversed.
abbrev pub outcome_after : List UnifiedOrderState → TriangularOutcome
outcome_after [] = TriangularOutcome.aborted
outcome_after (_ ∷ _) = TriangularOutcome.rolled_back

abbrev ending_of : List LegResult → TriangularOutcome
ending_of [] = TriangularOutcome.aborted
ending_of (_ ∷ _) = TriangularOutcome.rolled_back

module _ {W : Type 0} (submit : Submit W) (o : TriangularOpportunity) (probe : Decimal) where
  -- A run without a failed leg: the profit is what the last leg brought less the probe.
  pub record IsCompleted (w w' : W) (r : ExecutionReport) : Type 0 where
    pub left : Decimal
    pub chain : Chain submit o.exchange (plan o) 1 probe w r.legs left w'
    pub outcome : r.outcome ≡ TriangularOutcome.completed
    pub profit : r.realized_pnl_quote ≡ left -ℤ probe
    pub untouched : r.rollback_legs ≡ []

  -- A run with a failed leg: from the world it left, the fills before it are reversed, the last first.
  pub record IsBroken (w w' : W) (r : ExecutionReport) : Type 0 where
    pub place : ℕ
    pub last : UnifiedOrderState
    pub fills : List UnifiedOrderState
    pub between : W
    pub chain : Broken submit o.exchange place last (plan o) 1 probe w r.legs fills between
    pub undone_fills : Undoes submit o.exchange (reverse fills) between r.rollback_legs w'
    pub outcome : r.outcome ≡ outcome_after fills
    pub reason : r.reason ≡ some (place, last.status)

  abbrev pub Ends : Executor W → Option ExecutionReport × Executor W → Type 0
  Ends x (none, x') = x'.ring ≡ x.ring
  Ends x (some r, x') =
      (x'.ring ≡ append_bounded ring_max r x.ring)
      × (IsCompleted x.world x'.world r ⊎ IsBroken x.world x'.world r)

  ending_of-Undoes :
      (f : UnifiedOrderState) (fs : List UnifiedOrderState) (w w' : W) (back : List LegResult)
      → Undoes submit o.exchange (fs ++ (f ∷ [])) w back w'
      → ending_of back ≡ TriangularOutcome.rolled_back
  ending_of-Undoes f [] w w' _ (undone _ _ _ _ r rs _ _ _ _) = refl
  ending_of-Undoes f (p ∷ fs) w w' _ (undone _ _ _ _ r rs _ _ _ _) = refl

  outcome_after-Undoes :
      (fills : List UnifiedOrderState) (w w' : W) (back : List LegResult)
      → Undoes submit o.exchange (reverse fills) w back w'
      → ending_of back ≡ outcome_after fills
  outcome_after-Undoes [] w _ _ (none_left _) = refl
  outcome_after-Undoes (f ∷ fs) w w' back u =
      let u' = rw (reverse-cons f fs) at u in ending_of-Undoes f (reverse fs) w w' back u'

failed_report-outcome :
    (st : Stamp) (o : TriangularOpportunity) (probe : Decimal) (legs back : List LegResult) (i : ℕ)
    (status : OrderStatus)
    → (failed_report st o probe legs back i status).outcome ≡ ending_of back
failed_report-outcome st o probe legs [] i status = refl
failed_report-outcome st o probe legs (_ ∷ _) i status = refl

module _ {W : Type 0} (submit : Submit W) (echo : IsEcho submit) (st : Stamp)
    (o : TriangularOpportunity) (probe : Decimal) (x : Executor W) where
  conclude-Ends :
      (out : Walk) (w : W)
      → Walked submit o.exchange (plan o) 1 probe [] [] x.world w out
      → Ends submit o probe x (conclude submit st o probe x.ring (out, w))
  unfolding rollback_async
  conclude-Ends _ w (ran all rs left e c) = (
    refl,
    inl record { left = left; chain = rw e c; outcome = refl; profit = refl; untouched = refl },
  )
  conclude-Ends _ w (broke k last all rs filled gone e e' b) =
      let back = reverse_legs submit st.exec_id o.exchange 1 (reverse filled) w in
      let u = reverse_legs-Undoes submit o.exchange st.exec_id echo 1 (reverse filled) w in
      (
        refl,
        inr record {
          place = k;
          last = last;
          fills = filled;
          between = w;
          chain = rw (e, e') b;
          undone_fills = u;
          outcome =
              failed_report-outcome st o probe all back.0 k last.status
              ∙ outcome_after-Undoes submit o probe filled w back.1 back.0 u;
          reason = refl;
        },
      )
  conclude-Ends _ w lost = refl

  -- Whatever the router does, as long as its replies name the pair, the side and the amount of their
  -- orders: a run that returns adds its report to the ring. Either no leg failed, the order of each leg
  -- was sent for what the one before it brought, and the profit is what is left less the probe. Or a leg
  -- failed after legs of that kind, and for each fill before it, the last one first, an order on the
  -- other side for the amount filled was sent and recorded with what it filled, or with nothing if the
  -- router raised; the outcome says whether there was any fill. No other order was sent.
  -- A run that throws leaves the ring as it was.
  pub run-Ends : Ends submit o probe x (run submit st o probe x)
  unfolding run
  run-Ends =
      conclude-Ends _ _
        (run_legs-Walked submit o.exchange st.exec_id echo (plan o) 1 probe [] [] x.world)
