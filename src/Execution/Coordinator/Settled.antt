-- ===== src/Execution/Coordinator/Settled.antt =====
-- The profit that `execute` of app/execution/hedge_coordinator.py books when both legs were accepted,
-- and that it returns then.
use arb_system.Base.{◌≡◌, refl, ◌∙◌, Decimal, pos, ◌-ℤ◌, ◌+ℤ◌, Bool-cases, inl, inr, int_laws, ap}
use arb_system.Models.{HedgeState, UnifiedOrderState, HedgeGroupState, FailureReason}
use arb_system.StateMachine.{can_transition}
use arb_system.Execution.Repair.{Outcome, returned, threw, group_of}
use arb_system.Execution.Repair.Fills.{pnl_without_repair}
use arb_system.Execution.Repair.Laws.{Repaired, Answers, repair-ends, repair-returns}
use arb_system.Base.{is_some, Option, none, some, true}
use arb_system.Models.{OrderIntent, ArbitrageOpportunity}
use arb_system.Execution.Coordinator.Gates.{Gate, ready, aborted, raised, gates}
use arb_system.Execution.Coordinator.Execute.{planned, submit_legs, after_gates, execute}
use arb_system.Execution.Coordinator.Vetting.{IsSound, gates-IsSound}
use arb_system.Execution.Coordinator.Desk.{Coordinator, Moment, Desk, repair_at}
use arb_system.Execution.Coordinator.Settle.{
  cost_of, fee_of, with_reason, with_ids, book_both, needs_repair, close_both, then_finish,
  settle_both, settle_legs, ended,
}
use arb_system.Execution.Coordinator.Outcomes.{assert_legal}

-- What the two legs have brought in, fees paid.
abbrev pub legs_pnl : UnifiedOrderState → UnifiedOrderState → Decimal
legs_pnl b s = cost_of s -ℤ cost_of b -ℤ (fee_of b +ℤ fee_of s)

-- A returned group whose profit is that of the legs and of its repairs.
abbrev pub Booked : UnifiedOrderState → UnifiedOrderState → HedgeGroupState → Type 0
Booked b s g = pnl_without_repair g ≡ legs_pnl b s

-- An outcome that returns with such a group.
abbrev pub Returns : {W : Type 0} → (HedgeGroupState → Type 0) → Outcome × Desk W → Type 0
Returns P r = (g : HedgeGroupState) × (r.0 ≡ returned g) × P g

less_zero : (a : Decimal) → a -ℤ pos 0 ≡ a
less_zero a = omega int_laws

module _ {W : Type 0} (c : Coordinator W) (v : Moment) (answers : Answers c.submit) where
  repair_at-Returns :
      (b s : UnifiedOrderState) (h : HedgeGroupState) (d : Desk W)
      → h.state ≡ HedgeState.failed_needs_repair
      → Booked b s h
      → Returns (Booked b s) (repair_at c v h d)
  repair_at-Returns b s h d e booked =
      let run =
        repair-ends c.submit c.settings v.repair_client v.repair_books h d.tracker d.world in
      let (g, same) =
        repair-returns c.submit c.settings v.repair_client v.repair_books h d.tracker d.world
          answers e in
      let after : Repaired c.settings h g = rw same at run in (g, same, after.cost ∙ booked)

  close_both-Returns :
      (b s : UnifiedOrderState) (g : HedgeGroupState) (d : Desk W)
      → g.state ≡ HedgeState.hedging
      → g.repair_cost_quote ≡ pos 0
      → Returns (Booked b s) (close_both c v b s (returned g) d)
  unfolding can_transition book_both
  close_both-Returns b s g d e free = elim (Bool-cases (needs_repair b s (book_both v b s g))) [
    | inl unfinished ↦
        let h : HedgeGroupState =
          record (with_reason FailureReason.partial_fill (book_both v b s g)) {
            state = HedgeState.failed_needs_repair;
          } in
        let booked : Booked b s h = rw free (less_zero (legs_pnl b s)) in
        rw
          (
            unfinished,
            assert_legal HedgeState.hedging HedgeState.failed_needs_repair g.state e refl,
          )
          (repair_at-Returns b s h d refl booked)
    | inr finished ↦
        rw (finished, assert_legal HedgeState.hedging HedgeState.completed g.state e refl)
          (_, refl, rw free (less_zero (legs_pnl b s)))
  ]

  then_finish-Returns :
      (b s : UnifiedOrderState) (r : Outcome × Desk W)
      → Returns (Booked b s) r
      → Returns (Booked b s) (then_finish c v r)
  then_finish-Returns b s (returned g, d) (h, e, booked) =
      (ended v g, refl, ap (λ o. pnl_without_repair (group_of o)) e ∙ booked)
  then_finish-Returns b s (threw g, d) (h, e, booked) = absurd (cc)

  -- A pair of accepted legs is always settled, if the router answers every order: the call returns, and
  -- the booked profit is what the two legs brought in, less their fees, and the repair cost.
  pub settle_both-Booked :
      (g : HedgeGroupState) (b s : UnifiedOrderState) (d : Desk W)
      → g.state ≡ HedgeState.submitting
      → g.repair_cost_quote ≡ pos 0
      → Returns (Booked b s) (settle_both c v g b s d)
  unfolding settle_both can_transition
  settle_both-Booked g b s d e free =
      let h : HedgeGroupState = record (with_ids b s g) { state = HedgeState.hedging } in
      rw (assert_legal HedgeState.submitting HedgeState.hedging g.state e refl)
        (then_finish-Returns b s _ (close_both-Returns b s h _ refl free))

  accepted-Returns :
      (g : HedgeGroupState) (b s : Option UnifiedOrderState) (d : Desk W)
      → is_some b ≡ true
      → is_some s ≡ true
      → g.state ≡ HedgeState.submitting
      → g.repair_cost_quote ≡ pos 0
      → Returns (λ _. Unit {0}) (settle_legs c v g b s d)
  unfolding settle_legs
  accepted-Returns g (some b) (some s) d hb hs e free =
      let (h, same, booked) = settle_both-Booked g b s d e free in (h, same, tt)
  accepted-Returns g none s d hb hs e free = absurd (cc)
  accepted-Returns g (some b) none d hb hs e free = absurd (cc)

  answered : (intent : OrderIntent) (w : W) → is_some (c.submit intent w).0 ≡ true
  answered intent w = let (o, e) = answers intent w in rw e

  after_gates-Returns :
      (opp : ArbitrageOpportunity) (amount : Decimal) (m : Gate) (d : Desk W)
      → IsSound v opp HedgeState.submitting m
      → Returns (λ _. Unit {0}) (after_gates c v opp amount m d)
  unfolding submit_legs
  after_gates-Returns opp amount (ready g) d p =
      accepted-Returns (planned opp amount g) _ _ _ (answered _ d.world) (answered _ _) p.state
        p.cost
  after_gates-Returns opp amount (aborted g) d p = (g, refl, tt)
  after_gates-Returns opp amount (raised g) d p = absurd p

  -- If the router answers every order, `execute` returns: no exception leaves it, whatever the books, the
  -- settings and the opportunity.
  pub execute-Returns :
      (opp : ArbitrageOpportunity) (amount : Decimal) (d : Desk W)
      → Returns (λ _. Unit {0}) (execute c v opp amount d)
  unfolding execute
  execute-Returns opp amount d =
      after_gates-Returns opp amount (gates c.settings c.calculator v opp amount) d
        (gates-IsSound v opp c.settings c.calculator amount)
