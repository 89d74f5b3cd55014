-- ===== src/Tests/Hedges.antt =====
-- The hedge coordinator, the repair engine and the order tracker on the small market.
use arb_system.Base.{
  ℕ, ◌≡◌, refl, Text, text, Decimal, whole, pos, some, ◌≤ℤ◌, ◌≢◌, contains, false, text_key, none,
  List, [], ◌∷◌, ◌⊎◌, arith, ◌++◌, if◌then◌else◌, text_eq,
}
use arb_system.Models.{HedgeState, HedgeGroupState, UnifiedOrderState}
use arb_system.Execution.Submission.{IsFair}
use arb_system.Risk.Exposure.{no_exposure}
use arb_system.Execution.Repair.{returned, group_of, repair}
use arb_system.Execution.Repair.Fills.{IsBalanced, IsCloser}
use arb_system.Execution.Repair.Laws.{
  Both, Repaired, Interrupted, Answers, repair-ends, repair-returns, repair-IsCloser,
}
use arb_system.Execution.Coordinator.Execute.{execute, planning_notional}
use arb_system.Execution.Coordinator.Settle.{settle_both}
use arb_system.Execution.Coordinator.Laws.{charge_of, IsUntouched, execute-Done, execute-Vetted}
use arb_system.Execution.Coordinator.Charge.{IsNonnegative}
use arb_system.Execution.Coordinator.Outcomes.{Done}
use arb_system.Execution.Coordinator.Vetted.{Vetted}
use arb_system.Execution.Coordinator.Settled.{Returns, Booked, settle_both-Booked, execute-Returns}
use arb_system.Execution.Router.{dry_order}
use arb_system.Execution.Tracker.{no_orders, ids_of}
use arb_system.Tests.Data.{
  settings, books, opportunity, coordinator, moment, desk, uneven, dry_submit, draw, calculator,
  an_intent,
}
use arb_system.Execution.Coordinator.Gates.{new_group}

abbrev amount : Decimal
amount = whole 2

dry_submit-IsFair : IsFair dry_submit
dry_submit-IsFair intent n o positive e = ground arith

dry_submit-Answers : Answers dry_submit
dry_submit-Answers intent n = (dry_order (draw n) intent, refl)

pub no_exposure-IsNonnegative : IsNonnegative no_exposure
unfolding arb_system.Risk.Exposure.in_flight arb_system.Base.lookup
no_exposure-IsNonnegative e = omega arith

notional_nonneg : pos 0 ≤ℤ planning_notional opportunity amount
unfolding planning_notional arb_system.Base.whole arb_system.Base.mul_dec arb_system.Base.scale
notional_nonneg = omega arith

execute-Done_example :
    Done no_exposure
      (charge_of opportunity amount (text "h1") no_exposure)
      (execute coordinator moment opportunity amount desk)
execute-Done_example =
    execute-Done coordinator moment opportunity amount desk no_exposure-IsNonnegative
      notional_nonneg

execute-Vetted_example :
    Vetted settings calculator moment opportunity amount
    ⊎ IsUntouched desk (execute coordinator moment opportunity amount desk)
execute-Vetted_example = execute-Vetted coordinator moment opportunity amount desk calculator refl

uneven-IsBalanced : IsBalanced uneven
unfolding arb_system.Base.◌-ℤ◌ arb_system.Base.whole arb_system.Base.scale
uneven-IsBalanced = refl

repair-IsCloser_example :
    let after = group_of (repair dry_submit settings (text "r") books uneven no_orders 0).0 in
    IsCloser (whole 1) after.net_position_base × IsBalanced after
repair-IsCloser_example =
    repair-IsCloser dry_submit settings (text "r") books uneven no_orders 0 dry_submit-IsFair
      uneven-IsBalanced

repair-ends_example :
    Both
      (Repaired settings uneven)
      (Interrupted uneven)
      (repair dry_submit settings (text "r") books uneven no_orders 0).0
repair-ends_example = repair-ends dry_submit settings (text "r") books uneven no_orders 0

repair-returns_example :
    (g : HedgeGroupState) × ((repair dry_submit settings (text "r") books uneven no_orders 0).0
      ≡ returned g)
repair-returns_example =
    repair-returns dry_submit settings (text "r") books uneven no_orders 0 dry_submit-Answers refl

-- Two accepted legs of a hedge that is being submitted.
abbrev submitting : HedgeGroupState
submitting = record (new_group moment opportunity amount) { state = HedgeState.submitting }

abbrev leg : ℕ → UnifiedOrderState
leg n = record (dry_order (draw n) an_intent) { avg_fill_price = some (whole 100) }

settle_both-Booked_example :
    Returns
      (Booked (leg 1) (leg 2))
      (settle_both coordinator moment submitting (leg 1) (leg 2) desk)
settle_both-Booked_example =
    settle_both-Booked coordinator moment dry_submit-Answers submitting (leg 1) (leg 2) desk refl
      refl

leg_is_new : contains (1 ∷ []) (ids_of no_orders (text "h1")) ≡ false
unfolding ids_of arb_system.Base.contains arb_system.Base.lookup
leg_is_new = refl

leg_has_group : (leg 1).hedge_group_id ≢ []
leg_has_group e = absurd (cc)

execute-Returns_example :
    Returns (λ _. Unit {0}) (execute coordinator moment opportunity amount desk)
execute-Returns_example =
    execute-Returns coordinator moment dry_submit-Answers opportunity amount desk
