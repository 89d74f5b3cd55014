-- ===== src/Execution/Coordinator/Outcomes.antt =====
-- How `execute` of app/execution/hedge_coordinator.py leaves the group and the exposure.
use arb_system.Base.{
  ◌≡◌, refl, ◌∙◌, true, Text, Option, none, some, Decimal, pos, abs_ℤ, ◌≤ℤ◌, ltb_ℤ, Bool-cases, inl,
  inr, arith,
}
use arb_system.Models.{Side, HedgeState, UnifiedOrderState, HedgeGroupState, FailureReason, Note}
use arb_system.Risk.Exposure.{Exposure, in_flight}
use arb_system.StateMachine.{assert_transition, can_transition}
use arb_system.Execution.Repair.{Outcome, returned, threw, tolerance, add_note}
use arb_system.Execution.Repair.Fills.{IsBalanced}
use arb_system.Execution.Coordinator.Desk.{Coordinator, Moment, Desk}
use arb_system.Execution.Coordinator.Settle.{
  book_leg, leg_pnl, add_leg, cancel_open, caught, flatten, then_pnl, then_release,
  rollback_single_leg, with_reason, ended, book_both, with_ids, needs_repair, close_both,
  then_finish, settle_both, settle_legs,
}
use arb_system.Execution.Coordinator.Position.{
  Kept, Kept-refl, Final, done_hedged, left_open, given_up, interrupted, Mended, repair_at-Mended,
}
use arb_system.Execution.Coordinator.Charge.{
  charged, Owes, Owes-Kept, Kept-trans, IsNonnegative, release_exposure-charged,
}

-- How a hedge ends that charged `y` on top of the exposure `x`: it returns with the exposure as it was,
-- or an exception leaves it REPAIRING and still charged. The net position is what was bought less what
-- was sold.
pub data Done {W : Type 0} (x y : Exposure) : Outcome × Desk W → Type 0 where
  settled :
      {g : HedgeGroupState} {d : Desk W}
      → Final g
      → IsBalanced g
      → ((e : Text) → in_flight d.exposure e ≡ in_flight x e)
      → Done x y (returned g, d)
  leaked :
      {g : HedgeGroupState} {d : Desk W}
      → g.state ≡ HedgeState.repairing
      → IsBalanced g
      → d.exposure ≡ y
      → Done x y (threw g, d)

ended-Final : (v : Moment) (g : HedgeGroupState) → Final g → Final (ended v g)
ended-Final v g (done_hedged e small) = done_hedged e small
ended-Final v g (left_open e) = left_open e
ended-Final v g (given_up e) = given_up e
ended-Final v g (interrupted e) = interrupted e

caught-Mended :
    {W : Type 0} (h : HedgeGroupState) (x : Exposure) (r : Outcome × Desk W)
    → Mended h x r
    → Mended h x (caught r)
caught-Mended h x (returned g, d) m = m
caught-Mended h x (threw g, d) m = record {
  ends = interrupted m.ends;
  kept = record {
    id = m.kept.id;
    buy_at = m.kept.buy_at;
    sell_at = m.kept.sell_at;
    notional = m.kept.notional;
  };
  even = m.even;
  exposure = m.exposure;
}

then_pnl-Mended :
    {W : Type 0} (c : Coordinator W) (v : Moment) (h : HedgeGroupState) (x : Exposure)
    (r : Outcome × Desk W)
    → Mended h x r
    → Mended h x (then_pnl c v r)
then_pnl-Mended c v h x (returned g, d) m = record {
  ends = m.ends;
  kept = m.kept;
  even = m.even;
  exposure = m.exposure;
}
then_pnl-Mended c v h x (threw g, d) m = m

Mended-Kept :
    {W : Type 0} {a b : HedgeGroupState} {x : Exposure} {r : Outcome × Desk W}
    → Kept a b
    → Mended b x r
    → Mended a x r
Mended-Kept k m = record {
  ends = m.ends;
  kept = Kept-trans k m.kept;
  even = m.even;
  exposure = m.exposure;
}

Mended-at :
    {W : Type 0} {a : HedgeGroupState} {x y : Exposure} {r : Outcome × Desk W}
    → x ≡ y
    → Mended a x r
    → Mended a y r
Mended-at e m = record { ends = m.ends; kept = m.kept; even = m.even; exposure = m.exposure ∙ e }

pub assert_legal :
    (s t now : HedgeState) → now ≡ s → can_transition s t ≡ true → assert_transition now t ≡ some tt
unfolding assert_transition
assert_legal s t now e legal = rw (e, legal)

flatten-Mended :
    {W : Type 0} (c : Coordinator W) (v : Moment) (g : HedgeGroupState) (d : Desk W)
    → g.state ≡ HedgeState.submitting
    → IsBalanced g
    → Mended g d.exposure (flatten c v g d)
unfolding can_transition
flatten-Mended c v g d e even = elim (Bool-cases (ltb_ℤ tolerance (abs_ℤ g.net_position_base))) [
  | inl exposed ↦
      let h : HedgeGroupState = record (with_reason FailureReason.single_leg_failed g) {
        state = HedgeState.failed_needs_repair;
      } in
      let k : Kept g h = record { id = refl; buy_at = refl; sell_at = refl; notional = refl } in
      rw (exposed, assert_legal HedgeState.submitting HedgeState.failed_needs_repair g.state e refl)
        (Mended-Kept k (caught-Mended h d.exposure _ (repair_at-Mended c v h d refl even)))
  | inr flat ↦ rw flat (record {
    ends = given_up refl;
    kept = record { id = refl; buy_at = refl; sell_at = refl; notional = refl };
    even = even;
    exposure = refl;
  })
]

leg_pnl-Kept :
    (side : Side) (o : UnifiedOrderState) (g : HedgeGroupState)
    → Kept g (leg_pnl side o g) × ((leg_pnl side o g).state ≡ g.state)
leg_pnl-Kept Side.buy o g = elim (Bool-cases (ltb_ℤ (pos 0) o.filled)) [
  | inl e ↦ rw e (record { id = refl; buy_at = refl; sell_at = refl; notional = refl }, refl)
  | inr e ↦ rw e (Kept-refl g, refl)
]
leg_pnl-Kept Side.sell o g = elim (Bool-cases (ltb_ℤ (pos 0) o.filled)) [
  | inl e ↦ rw e (record { id = refl; buy_at = refl; sell_at = refl; notional = refl }, refl)
  | inr e ↦ rw e (Kept-refl g, refl)
]

book_leg-Kept :
    (side : Side) (o : UnifiedOrderState) (g : HedgeGroupState)
    → Kept g (book_leg side o g) × ((book_leg side o g).state ≡ g.state)
unfolding book_leg
book_leg-Kept Side.buy o g =
    let (k, e) = leg_pnl-Kept Side.buy o (add_leg Side.buy o g) in
    (record { id = k.id; buy_at = k.buy_at; sell_at = k.sell_at; notional = k.notional }, e)
book_leg-Kept Side.sell o g =
    let (k, e) = leg_pnl-Kept Side.sell o (add_leg Side.sell o g) in
    (record { id = k.id; buy_at = k.buy_at; sell_at = k.sell_at; notional = k.notional }, e)

book_leg-IsBalanced :
    (side : Side) (o : UnifiedOrderState) (g : HedgeGroupState) → IsBalanced (book_leg side o g)
unfolding book_leg
book_leg-IsBalanced side o g = refl

module _ (buy sell id : Text) (n : Decimal) (x : Exposure) (ok : IsNonnegative x)
    (h : pos 0 ≤ℤ n) where
  then_release-Done :
      {W : Type 0} (v : Moment) (a : HedgeGroupState) (r : Outcome × Desk W)
      → Owes buy sell id n a
      → Mended a (charged buy sell id n x) r
      → Done x (charged buy sell id n x) (then_release v r)
  then_release-Done v a (returned g, d) o m =
      settled (ended-Final v g m.ends) m.even
        (λ e. release_exposure-charged buy sell id e n x g d ok h (Owes-Kept o m.kept) m.exposure)
  then_release-Done v a (threw g, d) o m = leaked m.ends m.even m.exposure

  then_finish-Done :
      {W : Type 0} (c : Coordinator W) (v : Moment) (a : HedgeGroupState) (r : Outcome × Desk W)
      → Owes buy sell id n a
      → Mended a (charged buy sell id n x) r
      → Done x (charged buy sell id n x) (then_finish c v r)
  then_finish-Done c v a (returned g, d) o m =
      settled (ended-Final v g m.ends) m.even
        (λ e. release_exposure-charged buy sell id e n x g d ok h (Owes-Kept o m.kept) m.exposure)
  then_finish-Done c v a (threw g, d) o m = leaked m.ends m.even m.exposure

  rollback-Done :
      {W : Type 0} (c : Coordinator W) (v : Moment) (g : HedgeGroupState) (o : UnifiedOrderState)
      (side : Side) (d : Desk W)
      → g.state ≡ HedgeState.submitting
      → Owes buy sell id n g
      → d.exposure ≡ charged buy sell id n x
      → Done x (charged buy sell id n x) (then_release v (rollback_single_leg c v g o side d))
  unfolding rollback_single_leg
  rollback-Done c v g o side d e owes same =
      let (k, kept_state) = book_leg-Kept side o g in
      let m =
        flatten-Mended c v (book_leg side o g) (cancel_open c o d) (kept_state ∙ e)
          (book_leg-IsBalanced side o g) in
      then_release-Done v g _ owes (then_pnl-Mended c v g _ _ (Mended-at same (Mended-Kept k m)))

  -- The group with both legs on its books.
  close_both-Mended :
      {W : Type 0} (c : Coordinator W) (v : Moment) (b s : UnifiedOrderState) (g : HedgeGroupState)
      (d : Desk W)
      → g.state ≡ HedgeState.hedging
      → Mended g d.exposure (close_both c v b s (returned g) d)
  unfolding can_transition book_both
  close_both-Mended c v b s g d e = elim (Bool-cases (needs_repair b s (book_both v b s g))) [
    | inl unfinished ↦
        let h : HedgeGroupState =
          record (with_reason FailureReason.partial_fill (book_both v b s g)) {
            state = HedgeState.failed_needs_repair;
          } in
        let k : Kept g h = record { id = refl; buy_at = refl; sell_at = refl; notional = refl } in
        rw
          (
            unfinished,
            assert_legal HedgeState.hedging HedgeState.failed_needs_repair g.state e refl,
          )
          (Mended-Kept k (repair_at-Mended c v h d refl refl))
    | inr finished ↦
        rw (finished, assert_legal HedgeState.hedging HedgeState.completed g.state e refl)
          (record {
            ends = done_hedged refl (ground arith);
            kept = record { id = refl; buy_at = refl; sell_at = refl; notional = refl };
            even = refl;
            exposure = refl;
          })
  ]

  settle_both-Done :
      {W : Type 0} (c : Coordinator W) (v : Moment) (g : HedgeGroupState) (b s : UnifiedOrderState)
      (d : Desk W)
      → g.state ≡ HedgeState.submitting
      → Owes buy sell id n g
      → d.exposure ≡ charged buy sell id n x
      → Done x (charged buy sell id n x) (settle_both c v g b s d)
  unfolding settle_both can_transition
  settle_both-Done c v g b s d e owes same =
      let h : HedgeGroupState = record (with_ids b s g) { state = HedgeState.hedging } in
      let k : Kept g h = record { id = refl; buy_at = refl; sell_at = refl; notional = refl } in
      rw (assert_legal HedgeState.submitting HedgeState.hedging g.state e refl) (
        then_finish-Done c v g _ owes
          (Mended-at same (Mended-Kept k (close_both-Mended c v b s h _ refl))))

  -- Every case of the two answers.
  pub settle_legs-Done :
      {W : Type 0} (c : Coordinator W) (v : Moment) (g : HedgeGroupState)
      (b s : Option UnifiedOrderState) (d : Desk W)
      → g.state ≡ HedgeState.submitting
      → IsBalanced g
      → Owes buy sell id n g
      → d.exposure ≡ charged buy sell id n x
      → Done x (charged buy sell id n x) (settle_legs c v g b s d)
  unfolding settle_legs
  settle_legs-Done c v g none none d e even owes same =
      let k : Owes buy sell id n
          (record (add_note Note.both_legs_failed g) { state = HedgeState.aborted }) =
        record {
          id_is = owes.id_is;
          buy_at = owes.buy_at;
          sell_at = owes.sell_at;
          notional = owes.notional;
        } in
      settled (given_up refl) even (λ e. release_exposure-charged buy sell id e n x _ d ok h k same)
  settle_legs-Done c v g (some b) none d e even owes same =
      rollback-Done c v (add_note Note.sell_leg_failed g) b Side.buy d e
        (record {
          id_is = owes.id_is;
          buy_at = owes.buy_at;
          sell_at = owes.sell_at;
          notional = owes.notional;
        })
        same
  settle_legs-Done c v g none (some s) d e even owes same =
      rollback-Done c v (add_note Note.buy_leg_failed g) s Side.sell d e
        (record {
          id_is = owes.id_is;
          buy_at = owes.buy_at;
          sell_at = owes.sell_at;
          notional = owes.notional;
        })
        same
  settle_legs-Done c v g (some b) (some s) d e even owes same =
      settle_both-Done c v g b s d e owes same
