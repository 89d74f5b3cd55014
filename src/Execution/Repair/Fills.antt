-- ===== src/Execution/Repair/Fills.antt =====
-- What the fill of a repair order does to a hedge group (app/execution/repair_engine.py).
use arb_system.Base.{
  ◌≡◌, refl, ◌⊎◌, inl, inr, Option, none, some, Decimal, pos, ◌+ℤ◌, ◌-ℤ◌, abs_ℤ, ltb_ℤ, leb_ℤ, ◌≤ℤ◌,
  or_default, Bool-cases, arith, int_laws, pos_part, neg_part, ap,
}
use arb_system.Models.{Side, HedgeState, UnifiedOrderState, HedgeGroupState}
use arb_system.StateMachine.{assert_transition, can_transition}
use arb_system.Execution.Repair.{
  returned, tolerance, fold_fill, add_pnl, book_pnl, settled_state, finish,
}
use arb_system.Execution.Repair.Endings.{Closes, long, short}

-- The net position is what was bought less what was sold.
abbrev pub IsBalanced : HedgeGroupState → Type 0
IsBalanced g = g.net_position_base ≡ g.executed_buy_amount -ℤ g.executed_sell_amount

-- `b` lies between `a` and nothing.
abbrev pub IsCloser : Decimal → Decimal → Type 0
IsCloser a b = (pos 0 ≤ℤ a → (pos 0 ≤ℤ b) × (b ≤ℤ a)) × (a ≤ℤ pos 0 → (b ≤ℤ pos 0) × (a ≤ℤ b))

-- The profit booked so far, less what repairs have contributed to it.
abbrev pub pnl_without_repair : HedgeGroupState → Decimal
pnl_without_repair g = or_default g.realized_pnl_quote (pos 0) -ℤ g.repair_cost_quote

-- What holds of the position once it counts as hedged.
abbrev pub IsHedged : HedgeGroupState → Type 0
IsHedged g = abs_ℤ g.net_position_base ≤ℤ tolerance

-- The profit and the flags of `fold_fill` leave the position alone.
pub book_pnl-net :
    (side : Side) (n : Decimal) (price fee : Option Decimal) (g : HedgeGroupState)
    → (book_pnl side n price fee g).net_position_base ≡ g.net_position_base
book_pnl-net side n none fee g = refl
book_pnl-net side n (some p) fee g = ground arith

book_pnl-state :
    (side : Side) (n : Decimal) (price fee : Option Decimal) (g : HedgeGroupState)
    → ((book_pnl side n price fee g).state ≡ g.state)
      × ((book_pnl side n price fee g).repair_attempts ≡ g.repair_attempts)
book_pnl-state side n none fee g = (refl, refl)
book_pnl-state side n (some p) fee g = ground arith

add_pnl-cost :
    (pnl : Option Decimal) (cost delta : Decimal)
    → or_default (add_pnl pnl delta) (pos 0) -ℤ (cost +ℤ delta) ≡ or_default pnl (pos 0) -ℤ cost
add_pnl-cost none cost delta = omega int_laws
add_pnl-cost (some p) cost delta = omega int_laws

book_pnl-cost :
    (side : Side) (n : Decimal) (price fee : Option Decimal) (g : HedgeGroupState)
    → pnl_without_repair (book_pnl side n price fee g) ≡ pnl_without_repair g
book_pnl-cost side n none fee g = refl
book_pnl-cost side n (some p) fee g = elim (Bool-cases (ltb_ℤ (pos 0) n)) [
  | inl e ↦ rw e (add_pnl-cost g.realized_pnl_quote g.repair_cost_quote _)
  | inr e ↦ rw e
]

pub fold_fill-state :
    (side : Side) (o : UnifiedOrderState) (g : HedgeGroupState)
    → ((fold_fill side o g).state ≡ g.state)
      × ((fold_fill side o g).repair_attempts ≡ g.repair_attempts)
unfolding fold_fill
fold_fill-state Side.buy o g = book_pnl-state Side.buy o.filled o.avg_fill_price o.fee_amount _
fold_fill-state Side.sell o g = book_pnl-state Side.sell o.filled o.avg_fill_price o.fee_amount _

pub fold_fill-cost :
    (side : Side) (o : UnifiedOrderState) (g : HedgeGroupState)
    → pnl_without_repair (fold_fill side o g) ≡ pnl_without_repair g
unfolding fold_fill
fold_fill-cost Side.buy o g = book_pnl-cost Side.buy o.filled o.avg_fill_price o.fee_amount _
fold_fill-cost Side.sell o g = book_pnl-cost Side.sell o.filled o.avg_fill_price o.fee_amount _

pub fold_fill-IsCloser :
    (o : UnifiedOrderState) (g : HedgeGroupState) {side : Side} {amount : Decimal}
    → IsBalanced g
    → Closes g.net_position_base side amount
    → (pos 0 ≤ℤ o.filled) × (o.filled ≤ℤ amount)
    → IsCloser g.net_position_base (fold_fill side o g).net_position_base
unfolding fold_fill
fold_fill-IsCloser o g even (long h) fair =
    rw book_pnl-net (omega (int_laws, ap pos_part even, ap neg_part even, fair))
fold_fill-IsCloser o g even (short h) fair =
    rw book_pnl-net (omega (int_laws, ap pos_part even, ap neg_part even, fair))

pub settled_state-cases :
    (net : Decimal)
    → ((settled_state net ≡ HedgeState.completed) × (abs_ℤ net ≤ℤ tolerance))
      ⊎ (settled_state net ≡ HedgeState.failed_needs_repair)
unfolding settled_state
settled_state-cases net = ground arith

-- From REPAIRING both ends of a repair are legal.
pub finish-repairing :
    (g : HedgeGroupState)
    → g.state ≡ HedgeState.repairing
    → finish g ≡ returned (record g { state = settled_state g.net_position_base })
unfolding finish assert_transition settled_state can_transition
finish-repairing g h = elim (Bool-cases (leb_ℤ (abs_ℤ g.net_position_base) tolerance)) [
  | inl e ↦ rw (e, h)
  | inr e ↦ rw (e, h)
]

book_pnl-IsBalanced :
    (side : Side) (n : Decimal) (price fee : Option Decimal) (g : HedgeGroupState)
    → IsBalanced g
    → IsBalanced (book_pnl side n price fee g)
book_pnl-IsBalanced side n none fee g h = h
book_pnl-IsBalanced side n (some p) fee g h = elim (Bool-cases (ltb_ℤ (pos 0) n)) [
  | inl e ↦ rw e h
  | inr e ↦ rw e h
]

pub fold_fill-IsBalanced :
    (side : Side) (o : UnifiedOrderState) (g : HedgeGroupState) → IsBalanced (fold_fill side o g)
unfolding fold_fill
fold_fill-IsBalanced Side.buy o g =
    book_pnl-IsBalanced Side.buy o.filled o.avg_fill_price o.fee_amount _ refl
fold_fill-IsBalanced Side.sell o g =
    book_pnl-IsBalanced Side.sell o.filled o.avg_fill_price o.fee_amount _ refl
