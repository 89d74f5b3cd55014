-- ===== src/StateMachine/Reach.antt =====
-- Paths through the two transition tables of app/execution/state_machine.py.
use arb_system.Base.{ℕ, suc, ◌+◌, ◌*◌, ◌≤◌, ◌≡◌, ◌↔◌, true, false, not, arith, if◌then◌else◌}
use arb_system.Models.{HedgeState, OrderStatus, hedge_eq}
use arb_system.StateMachine.{can_transition, terminal, order_can_transition, order_terminal}

-- A path of allowed transitions from `NEW`, with its length and the number of repairs on it.
pub data HedgePath : HedgeState → ℕ → ℕ → Type 0 where
  start : HedgePath HedgeState.new 0 0
  step :
      {s : HedgeState} {n r : ℕ} (t : HedgeState)
      → HedgePath s n r
      → can_transition s t ≡ true
      → HedgePath t (suc n) (if hedge_eq t HedgeState.repairing then suc r else r)

-- A hedge state is terminal exactly when no transition leaves it.
terminal_iff :
    (s : HedgeState) → (terminal s ≡ true) ↔ ((t : HedgeState) → can_transition s t ≡ false)
unfolding terminal can_transition
terminal_iff s = (λ h t. ground arith, λ h. ground (arith, h HedgeState.aborted))

-- Every state that is not terminal may be aborted, and no other.
abort_allowed : (s : HedgeState) → can_transition s HedgeState.aborted ≡ not (terminal s)
unfolding terminal can_transition
abort_allowed s = ground arith

abbrev slack : HedgeState → ℕ
slack HedgeState.new = 0
slack HedgeState.planning = 1
slack HedgeState.submitting = 2
slack HedgeState.hedging = 3
slack HedgeState.failed_needs_repair = 4
slack HedgeState.repairing = 3
slack HedgeState.completed = 4
slack HedgeState.aborted = 5

slack_step :
    (s t : HedgeState) (n r : ℕ)
    → can_transition s t ≡ true
    → n ≤ slack s + 2 * r
    → suc n ≤ slack t + 2 * (if hedge_eq t HedgeState.repairing then suc r else r)
unfolding can_transition
slack_step s t n r h le = ground arith

HedgePath-slack : {s : HedgeState} {n r : ℕ} → HedgePath s n r → n ≤ slack s + 2 * r
HedgePath-slack start = omega arith
HedgePath-slack (step {s} {n} {r} t p h) = slack_step s t n r h (HedgePath-slack p)

-- A path of allowed transitions in the table from NEW has at most five steps, and two more for each
-- repair on its way.
pub path_bounded : {s : HedgeState} {n r : ℕ} → HedgePath s n r → n ≤ 5 + 2 * r
path_bounded {s} p = ground (arith, HedgePath-slack p)

-- A settled order keeps its status: from `FILLED`, `CANCELLED`, `REJECTED` and `EXPIRED` the only
-- allowed step is to stay, and from every other status some other one may follow.
order_settled_iff :
    (s : OrderStatus)
    → (order_terminal s ≡ true) ↔ ((t : OrderStatus) → order_can_transition s t ≡ true → s ≡ t)
unfolding order_terminal order_can_transition
order_settled_iff s =
    (λ h t k. ground arith, λ h. ground (arith, h OrderStatus.unknown, h OrderStatus.filled))
