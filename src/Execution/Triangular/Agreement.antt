-- ===== src/Execution/Triangular/Agreement.antt =====
-- The paper-only variant of app/execution/triangular_executor.py against the one that trades, and what
-- an exception leaves behind.
use arb_system.Base.{
  ℕ, suc, ◌≡◌, refl, true, false, Text, none, some, List, [], ◌∷◌, ◌++◌, Decimal, pos, ◌<ℤ◌, leb_ℤ,
  Bool-cases, Option-cases, inl, inr, arith, All,
}
use mathlib.Core.List.{reverse}
use arb_system.Models.{Side, OrderIntent, UnifiedOrderState, is_filled}
use arb_system.Strategy.Triangular.{TriangularOpportunity}
use arb_system.Execution.Submission.{Submit}
use arb_system.Execution.Triangular.{
  LegResult, ExecutionReport, Leg, Stamp, Executor, plan, leg_intent, to_leg, brought,
}
use arb_system.Execution.Triangular.Rollback.{
  reverse_intent, reverse_legs, rollback_async, reverse_legs_sync, rollback,
}
use arb_system.Execution.Triangular.Run.{
  Walk, finished, failed, threw, size, is_failure, run_legs, conclude, run,
}
use arb_system.Execution.Triangular.RunSync.{
  size_sync, is_failure_sync, run_legs_sync, conclude_sync, paper_stamp, run_sync,
}

-- Every order is answered, and an order that is filled at all is FILLED.
abbrev pub IsDecisive : {W : Type 0} → Submit W → Type 0
IsDecisive {W} submit =
    (intent : OrderIntent) (w : W)
    → (o : UnifiedOrderState) × ((submit intent w).0 ≡ some o)
      × (pos 0 <ℤ o.filled → is_filled o.status ≡ true)

size_sync-eq-sized :
    (side : Side) (l : Leg) (q : Decimal)
    → pos 0 <ℤ l.price
    → l.side ≡ side
    → size_sync l q ≡ size l q
size_sync-eq-sized Side.buy l q h e = rw e (ground arith)
size_sync-eq-sized Side.sell l q h e = rw e refl

is_failure-sync :
    (o : UnifiedOrderState)
    → (pos 0 <ℤ o.filled → is_filled o.status ≡ true)
    → is_failure_sync o ≡ is_failure o
is_failure-sync o h = ground (arith, h)

module _ {W : Type 0} (submit : Submit W) (exec_id exchange : Text) (sure : IsDecisive submit) where
  run_legs-sync :
      (ls : List Leg) (i : ℕ) (q : Decimal) (legs : List LegResult) (fills : List UnifiedOrderState)
      (w : W)
      → All (λ l. pos 0 <ℤ l.price) ls
      → run_legs_sync submit exec_id exchange ls i q legs fills w
        ≡ run_legs submit exec_id exchange ls i q legs fills w
  unfolding run_legs run_legs_sync
  run_legs-sync [] i q legs fills w p = refl
  run_legs-sync (l ∷ ls) i q legs fills w p =
      let intent = leg_intent exec_id exchange i l (size l q) in
      let (o, got, whole_fill) = sure intent w in
      let same : is_failure_sync o ≡ is_failure o = is_failure-sync o whole_fill in
      let legs' = legs ++ (to_leg i o ∷ []) in
      let ih =
        run_legs-sync ls (suc i) (brought l.side o) legs' (fills ++ (o ∷ [])) (submit intent w).1
          p.1 in
      rw (size_sync-eq-sized l.side l q p.0 refl) (elim (Bool-cases (leb_ℤ (size l q) (pos 0))) [
        | inl low ↦ rw low refl
        | inr high ↦ elim (Bool-cases (is_failure o)) [
          | inl bad ↦ rw (high, got, same, bad) refl
          | inr fine ↦ rw (high, got, same, fine) ih
        ]
      ])

  reverse_legs-sync :
      (i : ℕ) (os : List UnifiedOrderState) (w : W)
      → reverse_legs_sync submit exec_id exchange i os w
        ≡ (let (legs, w') = reverse_legs submit exec_id exchange i os w in (some legs, w'))
  unfolding reverse_legs reverse_legs_sync
  reverse_legs-sync i [] w = refl
  reverse_legs-sync i (o ∷ os) w =
      let intent = reverse_intent exec_id exchange i o in
      let (reply, got, _) = sure intent w in
      rw (got, reverse_legs-sync (suc i) os (submit intent w).1) refl

conclude-sync :
    {W : Type 0} (submit : Submit W) (sure : IsDecisive submit) (st : Stamp)
    (o : TriangularOpportunity) (probe : Decimal) (ring : List ExecutionReport) (out : Walk) (w : W)
    → conclude_sync submit st o probe ring (out, w) ≡ conclude submit st o probe ring (out, w)
unfolding rollback rollback_async
conclude-sync submit sure st o probe ring (finished legs running) w = refl
conclude-sync submit sure st o probe ring (failed i state legs fills) w =
    rw (reverse_legs-sync submit st.exec_id o.exchange sure 1 (reverse fills) w) refl
conclude-sync submit sure st o probe ring threw w = refl

-- The variant for the paper engine does just what the one that trades does under the mode
-- "paper-trade", in the report, the ring and the world, if every leg of the plan has a positive price, every order is answered, and an order that
-- is filled at all is FILLED.
pub run_sync-eq-run :
    {W : Type 0} (submit : Submit W) (st : Stamp) (o : TriangularOpportunity) (probe : Decimal)
    (x : Executor W)
    → IsDecisive submit
    → All (λ l. pos 0 <ℤ l.price) (plan o)
    → run_sync submit st o probe x ≡ run submit (paper_stamp st) o probe x
unfolding run run_sync
run_sync-eq-run submit st o probe x sure priced =
    rw (run_legs-sync submit st.exec_id o.exchange sure (plan o) 1 probe [] [] x.world priced)
      (conclude-sync submit sure (paper_stamp st) o probe x.ring _ _)

module _ {W : Type 0} (submit : Submit W) (P : W → Type 0)
    (keep : (intent : OrderIntent) (w : W)
      → intent.is_repair ≡ false
      → P w
      → P (submit intent w).1) where
  run_legs-keeps :
      (exec_id exchange : Text) (ls : List Leg) (i : ℕ) (q : Decimal) (legs : List LegResult)
      (fills : List UnifiedOrderState) (w : W)
      → P w
      → P (run_legs submit exec_id exchange ls i q legs fills w).1
  unfolding run_legs
  run_legs-keeps exec_id exchange [] i q legs fills w p = p
  run_legs-keeps exec_id exchange (l ∷ ls) i q legs fills w p =
      let intent = leg_intent exec_id exchange i l (size l q) in
      let p' = keep intent w refl p in
      elim (Bool-cases (leb_ℤ (size l q) (pos 0))) [
        | inl low ↦ rw low p
        | inr high ↦ elim (Option-cases (submit intent w).0) [
          | inl silent ↦ rw (high, silent) p'
          | inr (o, got) ↦ elim (Bool-cases (is_failure o)) [
            | inl bad ↦ rw (high, got, bad) p'
            | inr fine ↦
                rw (high, got, fine)
                  (run_legs-keeps exec_id exchange ls (suc i) (brought l.side o)
                    (legs ++ (to_leg i o ∷ [])) (fills ++ (o ∷ [])) (submit intent w).1 p')
          ]
        ]
      ]

  conclude-threw :
      (st : Stamp) (o : TriangularOpportunity) (probe : Decimal) (ring : List ExecutionReport)
      (out : Walk) (w : W)
      → (conclude submit st o probe ring (out, w)).0 ≡ none
      → P w
      → ((conclude submit st o probe ring (out, w)).1.ring ≡ ring)
        × P (conclude submit st o probe ring (out, w)).1.world
  conclude-threw st o probe ring (finished legs running) w e p = absurd (cc)
  conclude-threw st o probe ring (failed i state legs fills) w e p = absurd (cc)
  conclude-threw st o probe ring threw w e p = (refl, p)

  -- When an exception leaves the executor, it has sent nothing but orders of its plan: whatever holds of
  -- the world before and is kept by every order that is no repair holds still. So nothing that was filled
  -- has been reversed. The ring is as it was.
  pub run-threw :
      (st : Stamp) (o : TriangularOpportunity) (probe : Decimal) (x : Executor W)
      → (run submit st o probe x).0 ≡ none
      → P x.world
      → ((run submit st o probe x).1.ring ≡ x.ring) × P (run submit st o probe x).1.world
  unfolding run
  run-threw st o probe x e p =
      conclude-threw st o probe x.ring _ _ e
        (run_legs-keeps st.exec_id o.exchange (plan o) 1 probe [] [] x.world p)
