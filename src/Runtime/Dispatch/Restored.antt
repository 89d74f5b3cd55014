-- ===== src/Runtime/Dispatch/Restored.antt =====
-- The exposure before the dispatch and after the task of app/runtime/app_bootstrap.py.
use arb_system.Base.{
  mul_dec, ◌≡◌, refl, sym, ap, ◌∙◌, false, ◌&&◌, not, Text, Option, none, some, pos, ◌≤ℤ◌,
  Bool-cases, Option-cases, inl, inr, arith,
}
use arb_system.Accounts.Balances.{Balances}
use arb_system.Models.{ArbitrageOpportunity, is_dry_run}
use arb_system.Risk.Exposure.{Exposure, in_flight}
use arb_system.Risk.Engine.{
  RiskEngine, Now, Approval, evaluate, record_realized_pnl, set_cooldown, mid_of,
}
use arb_system.Risk.Engine.Checks.{passed}
use arb_system.Risk.Engine.Approved.{evaluate-approved}
use arb_system.Execution.Repair.{Outcome, returned, threw}
use arb_system.Execution.Repair.Laws.{Answers}
use arb_system.Execution.Coordinator.Desk.{Desk}
use arb_system.Execution.Coordinator.Execute as Hedge
use arb_system.Execution.Coordinator.Execute.{planning_notional}
use arb_system.Execution.Coordinator.Charge.{IsNonnegative, release_two}
use arb_system.Execution.Coordinator.Outcomes.{Done, settled, leaked}
use arb_system.Execution.Coordinator.Laws.{execute-Done}
use arb_system.Execution.Coordinator.Settled.{Returns, execute-Returns}
use arb_system.Execution.MakerTaker as MakerTaker
use arb_system.Execution.MakerTaker.{MakerDesk}
use arb_system.Runtime.Dispatch.{HedgeTask, Cycle, task_of, charge_both, accept, dispatch, pre_id}
use arb_system.Runtime.Dispatch.Tasks.{
  System, Executors, TaskMoment, desk_of, booked, after_hedge, uncharged, release_pre,
  release_reserves, after_maker, execute_hedge, filled_in,
}

ended-injective : {V : Type 0} {a b : System V} → some a ≡ some b → a ≡ b
ended-injective e = cc

-- Two exposures with the same notional in flight everywhere.
abbrev pub SameFlight : Exposure → Exposure → Type 0
SameFlight x y = (e : Text) → in_flight x e ≡ in_flight y e

uncharged-charged :
    (k : HedgeTask) (x : Exposure)
    → IsNonnegative x
    → pos 0 ≤ℤ k.approval.notional
    → SameFlight (uncharged k (charge_both k x)) x
uncharged-charged k x ok h e =
    let o = k.opportunity in
    release_two o.buy_exchange o.sell_exchange (pre_id o) e k.approval.notional x ok h

booked-exposure :
    (now : Now) (out : Outcome) (e : RiskEngine) → (booked now out e).exposure ≡ e.exposure
unfolding record_realized_pnl
booked-exposure now (returned g) e = elim (Option-cases g.realized_pnl_quote) [
  | inl unknown ↦ rw unknown refl
  | inr (p, known) ↦ rw known refl
]
booked-exposure now (threw g) e = refl

Done-restored :
    {W : Type 0} (x y : Exposure) (r : Outcome × Desk W)
    → Done x y r
    → Returns (λ _. Unit {0}) r
    → SameFlight r.1.exposure x
Done-restored x y _ (settled f b same) a = same
Done-restored x y _ (leaked s b e) (g, never, _) = absurd (cc)

release_reserves-exposure :
    {V : Type 0} (k : HedgeTask) (s : System V)
    → (release_reserves k s).risk.exposure ≡ s.risk.exposure
unfolding release_reserves
release_reserves-exposure k s = elim (Bool-cases (filled_in k.base && filled_in k.quote)) [
  | inl pair ↦ rw pair refl
  | inr other ↦ rw other refl
]

after_hedge-exposure :
    {V : Type 0} (now : Now) (r : Outcome × Desk (Balances × V)) (s : System V)
    → (after_hedge now r s).risk.exposure ≡ r.1.exposure
after_hedge-exposure now (out, d) s = booked-exposure now out _

after_maker-exposure :
    {V : Type 0} (k : HedgeTask) (s s' : System V)
    (r : Option (MakerTaker.Outcome × MakerDesk (Balances × V)))
    → after_maker k s r ≡ some s'
    → s'.risk.exposure ≡ uncharged k s.risk.exposure
after_maker-exposure k s s' none e = absurd (cc)
after_maker-exposure k s s' (some (out, d)) e =
    sym (ap (λ (y : System _). y.risk.exposure) (ended-injective e))
    ∙ ap (uncharged k) (release_reserves-exposure k _)

planned_notional :
    (o : ArbitrageOpportunity) (a : Approval)
    → a.notional ≡ mul_dec a.amount (mid_of o)
    → planning_notional o a.amount ≡ a.notional
unfolding planning_notional mid_of
planned_notional o a e = sym e

module _ {V : Type 0} (x : Executors V) (t : TaskMoment)
    (answers : Answers x.coordinator.submit) where
  hedge-SameFlight :
      (k : HedgeTask) (s : System V) (before : Exposure)
      → IsNonnegative before
      → pos 0 ≤ℤ planning_notional k.opportunity k.approval.amount
      → SameFlight (uncharged k s.risk.exposure) before
      → SameFlight
          (release_reserves k (
            after_hedge t.ended
              (Hedge.execute x.coordinator t.hedge k.opportunity k.approval.amount
                (desk_of (release_pre k s)))
              s)).risk.exposure
          before
  hedge-SameFlight k s before ok h same e =
      let d = desk_of (release_pre k s) in
      let run = Hedge.execute x.coordinator t.hedge k.opportunity k.approval.amount d in
      let done =
        execute-Done x.coordinator t.hedge k.opportunity k.approval.amount d
          (λ f. rw (same f) (ok f)) h in
      let there = execute-Returns x.coordinator t.hedge answers k.opportunity k.approval.amount d in
      ap (λ (y : Exposure). in_flight y e)
        (release_reserves-exposure k _ ∙ after_hedge-exposure t.ended run s)
      ∙ Done-restored _ _ run done there e
      ∙ same e

  execute_hedge-SameFlight :
      (k : HedgeTask) (s s' : System V) (before : Exposure)
      → IsNonnegative before
      → pos 0 ≤ℤ planning_notional k.opportunity k.approval.amount
      → SameFlight (uncharged k s.risk.exposure) before
      → execute_hedge x t k s ≡ some s'
      → SameFlight s'.risk.exposure before
  unfolding execute_hedge
  execute_hedge-SameFlight k s s' before ok h same e f =
      elim (Bool-cases (x.is_maker_taker && not (is_dry_run x.maker_settings.mode))) [
        | inl maker ↦
            ap (λ (y : Exposure). in_flight y f) (after_maker-exposure k s s' _ (rw maker at e))
            ∙ same f
        | inr taker ↦
            sym
              (ap (λ (y : System V). in_flight y.risk.exposure f) (ended-injective (rw taker at e)))
            ∙ hedge-SameFlight k s before ok h same f
      ]

  -- From the approval of an opportunity to the end of its task, what is in flight at every exchange comes
  -- back to what it was before the approval, in both execution modes, if the router answers every order.
  -- Nothing in flight before, nor the least size of an order, may be negative.
  pub dispatch-restores :
      (now : Now) (o : ArbitrageOpportunity) (c : Cycle) (a : Approval) (s s' : System V)
      → c.stopped ≡ false
      → evaluate c.risk now o ≡ passed a
      → IsNonnegative c.risk.exposure
      → pos 0 ≤ℤ c.risk.settings.min_order_size_quote
      → s.risk.exposure ≡ (dispatch now o c).risk.exposure
      → execute_hedge x t (task_of o a) s ≡ some s'
      → SameFlight s'.risk.exposure c.risk.exposure
  unfolding dispatch accept set_cooldown
  dispatch-restores now o c a s s' going approved ok least charge e =
      let (_, _, funds, product) = evaluate-approved c.risk now o approved in
      let large = funds.large_enough in
      let positive : pos 0 ≤ℤ a.notional = omega arith in
      let charge' : s.risk.exposure ≡ charge_both (task_of o a) c.risk.exposure =
        rw (going, approved) at charge in
      execute_hedge-SameFlight (task_of o a) s s' c.risk.exposure ok
        (rw (planned_notional o a product) positive)
        (rw charge' (uncharged-charged (task_of o a) c.risk.exposure ok positive)) e
