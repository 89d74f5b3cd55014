-- ===== src/StateMachine.antt =====
-- app/execution/state_machine.py. The two transition tables, with each set as a list.
pub mod Reach
use arb_system.Base.{Bool, true, false, ◌||◌, List, [], ◌∷◌, Option, none, some, if◌then◌else◌}
use arb_system.Models.{HedgeState, OrderStatus, hedge_eq, status_eq}

unfoldable pub hedge_transitions : HedgeState → List HedgeState
hedge_transitions HedgeState.new = HedgeState.planning ∷ HedgeState.aborted ∷ []
hedge_transitions HedgeState.planning = HedgeState.submitting ∷ HedgeState.aborted ∷ []
hedge_transitions HedgeState.submitting =
    HedgeState.hedging ∷ HedgeState.failed_needs_repair ∷ HedgeState.aborted ∷ []
hedge_transitions HedgeState.hedging =
    HedgeState.completed ∷ HedgeState.failed_needs_repair ∷ HedgeState.aborted ∷ []
hedge_transitions HedgeState.completed = []
hedge_transitions HedgeState.failed_needs_repair = HedgeState.repairing ∷ HedgeState.aborted ∷ []
hedge_transitions HedgeState.repairing =
    HedgeState.completed ∷ HedgeState.failed_needs_repair ∷ HedgeState.aborted ∷ []
hedge_transitions HedgeState.aborted = []

abbrev has_state : HedgeState → List HedgeState → Bool
has_state s [] = false
has_state s (t ∷ ts) = hedge_eq s t || has_state s ts

unfoldable pub can_transition : HedgeState → HedgeState → Bool
unfolding hedge_transitions
can_transition old new_state = has_state new_state (hedge_transitions old)

-- `assert_transition`: `none` is the `PermanentError`.
unfoldable pub assert_transition : HedgeState → HedgeState → Option (Unit {0})
unfolding can_transition
assert_transition old new_state = if can_transition old new_state then some tt else none

unfoldable pub terminal : HedgeState → Bool
terminal s = hedge_eq s HedgeState.completed || hedge_eq s HedgeState.aborted

unfoldable pub order_transitions : OrderStatus → List OrderStatus
order_transitions OrderStatus.created =
    OrderStatus.submitted ∷ OrderStatus.rejected ∷ OrderStatus.unknown ∷ []
order_transitions OrderStatus.submitted =
    OrderStatus.partially_filled ∷ OrderStatus.filled ∷ OrderStatus.cancel_requested
    ∷ OrderStatus.cancelled ∷ OrderStatus.rejected ∷ OrderStatus.expired ∷ OrderStatus.unknown ∷ []
order_transitions OrderStatus.partially_filled =
    OrderStatus.filled ∷ OrderStatus.cancel_requested ∷ OrderStatus.cancelled ∷ OrderStatus.unknown
    ∷ []
order_transitions OrderStatus.filled = []
order_transitions OrderStatus.cancel_requested =
    OrderStatus.cancelled ∷ OrderStatus.filled ∷ OrderStatus.unknown ∷ []
order_transitions OrderStatus.cancelled = []
order_transitions OrderStatus.rejected = []
order_transitions OrderStatus.expired = []
order_transitions OrderStatus.unknown =
    OrderStatus.created ∷ OrderStatus.submitted ∷ OrderStatus.partially_filled ∷ OrderStatus.filled
    ∷ OrderStatus.cancel_requested ∷ OrderStatus.cancelled ∷ OrderStatus.rejected
    ∷ OrderStatus.expired ∷ OrderStatus.unknown ∷ []

abbrev has_status : OrderStatus → List OrderStatus → Bool
has_status s [] = false
has_status s (t ∷ ts) = status_eq s t || has_status s ts

unfoldable pub order_can_transition : OrderStatus → OrderStatus → Bool
unfolding order_transitions
order_can_transition old new_status =
    if status_eq old new_status then true else has_status new_status (order_transitions old)

unfoldable pub order_terminal : OrderStatus → Bool
order_terminal s =
    status_eq s OrderStatus.filled
    || status_eq s OrderStatus.cancelled
    || status_eq s OrderStatus.rejected
    || status_eq s OrderStatus.expired
