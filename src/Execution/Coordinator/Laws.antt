-- ===== src/Execution/Coordinator/Laws.antt =====
-- The guarantees of `execute` in app/execution/hedge_coordinator.py.
use arb_system.Base.{◌≡◌, refl, ap, sym, ◌∙◌, Text, some, Decimal, pos, ◌-ℤ◌, ◌≤ℤ◌, inl, inr, ◌⊎◌}
use arb_system.Models.{HedgeState, HedgeGroupState, ArbitrageOpportunity}
use arb_system.Risk.Exposure.{Exposure}
use arb_system.Execution.Repair.{Outcome, returned}
use arb_system.Execution.Repair.Fills.{IsBalanced}
use arb_system.Strategy.Spread.{SpreadCalculator}
use arb_system.Execution.Coordinator.Desk.{Coordinator, Moment, Desk, register}
use arb_system.Execution.Coordinator.Gates.{Gate, ready, aborted, raised, gates}
use arb_system.Execution.Coordinator.Execute.{
  planning_notional, planned, submit_legs, after_gates, registered, execute,
}
use arb_system.Execution.Coordinator.Vetting.{Planned, IsSound, gates-IsSound}
use arb_system.Execution.Coordinator.Vetted.{Vetted, gates-Vetted}
use arb_system.Execution.Coordinator.Charge.{charged, IsNonnegative}
use arb_system.Execution.Coordinator.Position.{given_up}
use arb_system.Execution.Coordinator.Outcomes.{Done, settled, leaked, settle_legs-Done}

-- Nothing has been submitted or charged: the group is ABORTED and all but the list of hedges is as before.
pub data IsUntouched {W : Type 0} (d : Desk W) : Outcome × Desk W → Type 0 where
  untouched :
      {g : HedgeGroupState}
      → g.state ≡ HedgeState.aborted
      → IsUntouched d (returned g, register g d)

-- The exposure that `execute` charges for an opportunity.
abbrev pub charge_of : ArbitrageOpportunity → Decimal → Text → Exposure → Exposure
charge_of opp amount id x =
    charged opp.buy_exchange opp.sell_exchange id (planning_notional opp amount) x

Planned-IsBalanced :
    {v : Moment} {opp : ArbitrageOpportunity} {s : HedgeState} {g : HedgeGroupState}
    → Planned v opp s g
    → IsBalanced g
unfolding ◌-ℤ◌
Planned-IsBalanced p = rw (p.net, p.bought, p.sold)

Done-registered :
    {W : Type 0} (x y : Exposure) (r : Outcome × Desk W) → Done x y r → Done x y (registered r)
unfolding register
Done-registered x y _ (settled f b e) = settled f b e
Done-registered x y _ (leaked s b e) = leaked s b e

module _ {W : Type 0} (c : Coordinator W) (v : Moment) (opp : ArbitrageOpportunity)
    (amount : Decimal) (d : Desk W) where
  submit_legs-Done :
      (g : HedgeGroupState)
      → IsNonnegative d.exposure
      → pos 0 ≤ℤ planning_notional opp amount
      → Planned v opp HedgeState.submitting g
      → Done d.exposure
          (charge_of opp amount v.hedge_id d.exposure)
          (submit_legs c v opp amount g d)
  unfolding submit_legs
  submit_legs-Done g ok h p =
      settle_legs-Done opp.buy_exchange opp.sell_exchange v.hedge_id (planning_notional opp amount)
        d.exposure ok h c v (planned opp amount g) _ _ _ p.state (Planned-IsBalanced p)
        (record { id_is = p.id; buy_at = p.buy_at; sell_at = p.sell_at; notional = refl }) refl

  after_gates-Done :
      (m : Gate)
      → IsNonnegative d.exposure
      → pos 0 ≤ℤ planning_notional opp amount
      → IsSound v opp HedgeState.submitting m
      → Done d.exposure
          (charge_of opp amount v.hedge_id d.exposure)
          (after_gates c v opp amount m d)
  after_gates-Done (ready g) ok h p = submit_legs-Done g ok h p
  after_gates-Done (aborted g) ok h p =
      settled (given_up p.state) (Planned-IsBalanced p) (λ e. refl)
  after_gates-Done (raised g) ok h p = absurd p

  -- A hedge that returns is COMPLETED with its position hedged, or FAILED_NEEDS_REPAIR, or ABORTED, or
  -- REPAIRING; its net position is what was bought less what was sold, and the exposure of every
  -- exchange is what it was before. An exception leaves the group REPAIRING and both exchanges still
  -- charged. Nothing in flight and no notional to plan may be negative.
  pub execute-Done :
      IsNonnegative d.exposure
      → pos 0 ≤ℤ planning_notional opp amount
      → Done d.exposure (charge_of opp amount v.hedge_id d.exposure) (execute c v opp amount d)
  unfolding execute
  execute-Done ok h = Done-registered _ _ _ (
      after_gates-Done (gates c.settings c.calculator v opp amount) ok h
        (gates-IsSound v opp c.settings c.calculator amount))

  after_gates-Vetted :
      (k : SpreadCalculator) (m : Gate)
      → c.calculator ≡ some k
      → gates c.settings c.calculator v opp amount ≡ m
      → IsSound v opp HedgeState.submitting m
      → Vetted c.settings k v opp amount
        ⊎ IsUntouched d (registered (after_gates c v opp amount m d))
  after_gates-Vetted k (ready g) has e p = inl (
      gates-Vetted c.settings k v opp amount
        (ap (λ t. gates c.settings t v opp amount) (sym has) ∙ e))
  after_gates-Vetted k (aborted g) has e p = inr (untouched p.state)
  after_gates-Vetted k (raised g) has e p = absurd p

  -- With books and a calculator at hand, `execute` either leaves all but the list of hedges as it was
  -- and the group ABORTED, or the trade has been vetted: the signal and both books are young enough,
  -- the edge recomputed for the approved amount reaches the minimum, and both books hold the required
  -- share of the amount within the price band.
  pub execute-Vetted :
      (k : SpreadCalculator)
      → c.calculator ≡ some k
      → Vetted c.settings k v opp amount ⊎ IsUntouched d (execute c v opp amount d)
  unfolding execute
  execute-Vetted k e =
      after_gates-Vetted k (gates c.settings c.calculator v opp amount) e refl
        (gates-IsSound v opp c.settings c.calculator amount)
