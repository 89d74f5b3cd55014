-- ===== src/Execution/Repair/Laws.antt =====
-- What `repair` of app/execution/repair_engine.py does to the position, the state and the profit of a
-- hedge group.
use arb_system.Base.{
  ◌+◌, ◌≤◌, ◌<◌, ◌≡◌, ◌≢◌, refl, ◌⊎◌, inl, inr, Text, none, some, List, Decimal, pos, abs_ℤ, ◌≤ℤ◌,
  arith,
}
use arb_system.Models.{Side, HedgeState, OrderIntent, UnifiedOrderState, HedgeGroupState, Note}
use arb_system.Settings.{Settings}
use arb_system.StateMachine.{assert_transition, can_transition}
use arb_system.MarketData.Books.{Books}
use arb_system.Execution.Submission.{Submit, IsFair}
use arb_system.Execution.Tracker.{Tracker}
use arb_system.Execution.Repair.{
  Outcome, returned, threw, group_of, tolerance, fold_fill, settled_state, finish, start_repair,
  repair,
}
use arb_system.Execution.Repair.Endings.{
  noted, Closes_positive, Ending, flat, spent, refused, blocked, failed, filled, repair-Ending,
}
use arb_system.Execution.Repair.Fills.{
  IsBalanced, IsCloser, IsHedged, pnl_without_repair, fold_fill-state, fold_fill-cost,
  fold_fill-IsCloser, settled_state-cases, finish-repairing, fold_fill-IsBalanced,
}

-- What a repair leaves of a group. A group that a fill left COMPLETED is hedged.
pub data After (s : Settings) (g g' : HedgeGroupState) : Type 0 where
  hedged : g'.state ≡ HedgeState.completed → IsHedged g' → After s g g'
  open_again : g'.state ≡ HedgeState.failed_needs_repair → After s g g'
  gave_up :
      g'.state ≡ HedgeState.aborted
      → g'.net_position_base ≡ g.net_position_base
      → s.max_repair_attempts ≤ g.repair_attempts
      → After s g g'

after_fill :
    (s : Settings) (g h : HedgeGroupState)
    → After s g (record h { state = settled_state h.net_position_base })
after_fill s g h = elim (settled_state-cases h.net_position_base) [
  | inl (e, small) ↦ hedged e small
  | inr e ↦ open_again e
]

-- What a repair that returns establishes.
pub record Repaired (s : Settings) (g g' : HedgeGroupState) : Type 0 where
  pub after : After s g g'
  pub attempts :
      g.repair_attempts ≤ s.max_repair_attempts → g'.repair_attempts ≤ s.max_repair_attempts
  pub cost : pnl_without_repair g' ≡ pnl_without_repair g

-- The group after the fill of a repair order, once `finish` has run.
abbrev pub closed_by : HedgeGroupState → List Note → Side → UnifiedOrderState → HedgeGroupState
closed_by g ns side o =
    let k = fold_fill side o (start_repair (noted ns g)) in
    record k { state = settled_state k.net_position_base }

pub finish-closed_by :
    (g : HedgeGroupState) (ns : List Note) (side : Side) (o : UnifiedOrderState)
    → finish (fold_fill side o (start_repair (noted ns g))) ≡ returned (closed_by g ns side o)
finish-closed_by g ns side o =
    finish-repairing (fold_fill side o (start_repair (noted ns g)))
      (fold_fill-state side o (start_repair (noted ns g))).0

closed_by-Repaired :
    (s : Settings) (g : HedgeGroupState) (ns : List Note) (side : Side) (o : UnifiedOrderState)
    → g.repair_attempts < s.max_repair_attempts
    → Repaired s g (closed_by g ns side o)
closed_by-Repaired s g ns side o few = record {
  after = after_fill s g (fold_fill side o (start_repair (noted ns g)));
  attempts = λ _. omega (arith, (fold_fill-state side o (start_repair (noted ns g))).1);
  cost = fold_fill-cost side o (start_repair (noted ns g));
}

zero_hedged : (net : Decimal) → net ≡ pos 0 → abs_ℤ net ≤ℤ tolerance
unfolding abs_ℤ
zero_hedged net e = rw e (omega arith)

-- An outcome that returns satisfies `P`, and one that throws satisfies `Q`.
abbrev pub Both : (HedgeGroupState → Type 0) → (HedgeGroupState → Type 0) → Outcome → Type 0
Both P Q (returned g) = P g
Both P Q (threw g) = Q g

-- What an exception leaves: nothing submitted and the state as it was, or REPAIRING with an attempt
-- counted. The position and the profit are as before.
pub record Interrupted (g g' : HedgeGroupState) : Type 0 where
  pub bought : g'.executed_buy_amount ≡ g.executed_buy_amount
  pub sold : g'.executed_sell_amount ≡ g.executed_sell_amount
  pub net : g'.net_position_base ≡ g.net_position_base
  pub profit : g'.realized_pnl_quote ≡ g.realized_pnl_quote
  pub state :
      ((g'.state ≡ HedgeState.repairing) × (g'.repair_attempts ≡ g.repair_attempts + 1))
      ⊎ ((g'.state ≡ g.state) × (assert_transition g.state HedgeState.repairing ≡ none))

module _ {W : Type 0} (submit : Submit W) (s : Settings) where
  pub Ending-Both :
      (g : HedgeGroupState) (out : Outcome)
      → Ending submit s g out
      → Both (Repaired s g) (Interrupted g) out
  Ending-Both g _ (flat e) = record {
    after = hedged refl (zero_hedged g.net_position_base e);
    attempts = λ few. few;
    cost = refl;
  }
  Ending-Both g _ (spent many) = record {
    after = gave_up refl refl many;
    attempts = λ few. few;
    cost = refl;
  }
  Ending-Both g _ (refused ns pnl high) = record {
    after = open_again refl;
    attempts = λ few. few;
    cost = refl;
  }
  Ending-Both g _ (blocked ns no_turn) = record {
    bought = refl;
    sold = refl;
    net = refl;
    profit = refl;
    state = inr (refl, no_turn);
  }
  Ending-Both g _ (failed ns intent w few lost) = record {
    bought = refl;
    sold = refl;
    net = refl;
    profit = refl;
    state = inl (refl, refl);
  }
  Ending-Both g _ (filled ns intent w o few closes got) =
      rw (finish-closed_by g ns intent.side o) (closed_by-Repaired s g ns intent.side o few)

  Ending-IsCloser :
      (g : HedgeGroupState) (out : Outcome)
      → IsFair submit
      → IsBalanced g
      → Ending submit s g out
      → IsCloser g.net_position_base (group_of out).net_position_base
  Ending-IsCloser g _ fair even (flat e) = omega arith
  Ending-IsCloser g _ fair even (spent many) = omega arith
  Ending-IsCloser g _ fair even (refused ns pnl high) = omega arith
  Ending-IsCloser g _ fair even (blocked ns no_turn) = omega arith
  Ending-IsCloser g _ fair even (failed ns intent w few lost) = omega arith
  Ending-IsCloser g _ fair even (filled ns intent w o few closes got) =
      rw (finish-closed_by g ns intent.side o) (
        fold_fill-IsCloser o (start_repair (noted ns g)) even closes
          (fair intent w o (Closes_positive closes) got))

-- A submission that always answers with an order.
abbrev pub Answers : {W : Type 0} → Submit W → Type 0
Answers {W} submit =
    (intent : OrderIntent) (w : W) → (o : UnifiedOrderState) × ((submit intent w).0 ≡ some o)

pub failed_may_repair :
    (state : HedgeState)
    → state ≡ HedgeState.failed_needs_repair
    → assert_transition state HedgeState.repairing ≢ none
unfolding assert_transition can_transition
failed_may_repair state e = rw e cc

module _ {W : Type 0} (submit : Submit W) (s : Settings) where
  pub Ending-returned :
      (g : HedgeGroupState) (out : Outcome)
      → Answers submit
      → g.state ≡ HedgeState.failed_needs_repair
      → Ending submit s g out
      → (g' : HedgeGroupState) × (out ≡ returned g')
  Ending-returned g _ answers e (flat h) = (_, refl)
  Ending-returned g _ answers e (spent many) = (_, refl)
  Ending-returned g _ answers e (refused ns pnl high) = (_, refl)
  Ending-returned g _ answers e (blocked ns no_turn) = absurd (failed_may_repair g.state e no_turn)
  Ending-returned g _ answers e (failed ns intent w few lost) =
      let (o, got) = answers intent w in absurd (cc)
  Ending-returned g _ answers e (filled ns intent w o few closes got) =
      (_, finish-closed_by g ns intent.side o)

  pub Ending-IsBalanced :
      (g : HedgeGroupState) (out : Outcome)
      → IsBalanced g
      → Ending submit s g out
      → IsBalanced (group_of out)
  Ending-IsBalanced g _ even (flat h) = even
  Ending-IsBalanced g _ even (spent many) = even
  Ending-IsBalanced g _ even (refused ns pnl high) = even
  Ending-IsBalanced g _ even (blocked ns no_turn) = even
  Ending-IsBalanced g _ even (failed ns intent w few lost) = even
  Ending-IsBalanced g _ even (filled ns intent w o few closes got) =
      rw (finish-closed_by g ns intent.side o)
        (fold_fill-IsBalanced intent.side o (start_repair (noted ns g)))

-- A repair that returns leaves the group hedged and COMPLETED, or FAILED_NEEDS_REPAIR, or ABORTED
-- where it had made all its attempts already; it never passes the allowed number of attempts, and the
-- profit changes by just what it adds to the repair cost. A repair that throws has touched neither the
-- amounts nor the profit: either the state machine refused it and the state is as before, or the
-- state is REPAIRING with one attempt more.
pub repair-ends :
    {W : Type 0} (submit : Submit W) (s : Settings) (client : Text) (books : Books)
    (g : HedgeGroupState) (t : Tracker) (w : W)
    → Both (Repaired s g) (Interrupted g) (repair submit s client books g t w).0
repair-ends submit s client books g t w =
    Ending-Both submit s g _ (repair-Ending submit s client books g t w)

-- A repair of a group that is FAILED_NEEDS_REPAIR returns, if the router always answers with an order.
pub repair-returns :
    {W : Type 0} (submit : Submit W) (s : Settings) (client : Text) (books : Books)
    (g : HedgeGroupState) (t : Tracker) (w : W)
    → Answers submit
    → g.state ≡ HedgeState.failed_needs_repair
    → (g' : HedgeGroupState) × ((repair submit s client books g t w).0 ≡ returned g')
repair-returns submit s client books g t w answers e =
    Ending-returned submit s g _ answers e (repair-Ending submit s client books g t w)

-- A repair never overshoots: when the router fills orders fairly and the net position of the group is
-- what was bought less what was sold, it is still that afterwards, and it lies between the old net
-- position and zero, however the repair ends.
pub repair-IsCloser :
    {W : Type 0} (submit : Submit W) (s : Settings) (client : Text) (books : Books)
    (g : HedgeGroupState) (t : Tracker) (w : W)
    → IsFair submit
    → IsBalanced g
    → (let after = group_of (repair submit s client books g t w).0 in
        IsCloser g.net_position_base after.net_position_base × IsBalanced after)
repair-IsCloser submit s client books g t w fair even =
    let ending = repair-Ending submit s client books g t w in
    (Ending-IsCloser submit s g _ fair even ending, Ending-IsBalanced submit s g _ even ending)
