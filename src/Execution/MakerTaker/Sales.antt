-- ===== src/Execution/MakerTaker/Sales.antt =====
-- What the sales after the wait of app/execution/maker_taker_executor.py can come to.
use arb_system.Base.{
  ◌≡◌, refl, ap, pos_part, neg_part, inl, inr, true, false, Option, List, [], ◌∷◌, Decimal, pos,
  ◌+ℤ◌, ◌-ℤ◌, ◌≤ℤ◌, ◌<ℤ◌, leb_ℤ, ltb_ℤ, ltb→lt_ℤ, ltb→le_ℤ, arith, int_laws, Bool-cases,
  append_bounded, or_default,
}
use arb_system.Models.{OrderIntent, UnifiedOrderState, ArbitrageOpportunity, is_dry_run}
use arb_system.Execution.MakerTaker.{
  MakerSettings, MakerState, MakerReason, LegKind, MakerLeg, MakerTakerReport, ring_max, Reply,
  late, raised, replied, SubmitWithin, MakerDesk, Outcome, skipped, threw, reported,
}
use arb_system.Execution.MakerTaker.Wait.{Waited}
use arb_system.Execution.MakerTaker.Hedge.{
  MakerMoment, finalize, panic_close, on_hedge, fill_ratio, panic_leg, panic_intent, timeout_leg,
  hedge_leg, flattened,
}
use arb_system.Execution.MakerTaker.Execute.{maker_leg}

-- An order for a positive amount that is answered in time is filled between nothing and that amount.
abbrev pub IsFairWithin : {W : Type 0} → SubmitWithin W → Type 0
IsFairWithin {W} submit =
    (intent : OrderIntent) (w : W) (o : UnifiedOrderState)
    → pos 0 <ℤ intent.amount
    → (submit intent w).0 ≡ replied o
    → (pos 0 ≤ℤ o.filled) × (o.filled ≤ℤ intent.amount)

-- What the legs of a report sold.
abbrev sold_in : LegKind → Option Decimal → Decimal
sold_in LegKind.maker_buy filled = pos 0
sold_in LegKind.hedge_sell filled = or_default filled (pos 0)
sold_in LegKind.panic_close filled = or_default filled (pos 0)

unfoldable pub sold : List MakerLeg → Decimal
sold [] = pos 0
sold (l ∷ ls) = sold_in l.leg l.filled_amount +ℤ sold ls

-- What was bought reached the ratio that is worth a hedge.
abbrev pub IsEnough : MakerSettings → Decimal → Decimal → Type 0
IsEnough s filled amount = (pos 0 <ℤ filled) × (s.min_fill_ratio ≤ℤ fill_ratio filled amount)

module _ {W : Type 0} (s : MakerSettings) (amount : Decimal) (d : MakerDesk W) where
  -- Nothing was sent, and at most as much was bought as is not worth a hedge; or all that was bought was
  -- sold by the hedge; or less than that was, and no more than what was bought was sold altogether.
  pub data Settled (r : MakerTakerReport) (w : W) : Type 0 where
    canceled :
        r.state ≡ MakerState.canceled
        → w ≡ d.world
        → r.hedge_filled_amount ≡ pos 0
        → sold r.legs ≡ pos 0
        → Settled r w
    done :
        r.state ≡ MakerState.done
        → IsEnough s r.filled_amount amount
        → r.hedge_filled_amount ≡ r.filled_amount
        → sold r.legs ≡ r.filled_amount
        → Settled r w
    flat :
        r.state ≡ MakerState.flat
        → IsEnough s r.filled_amount amount
        → r.hedge_filled_amount <ℤ r.filled_amount
        → r.hedge_filled_amount ≤ℤ sold r.legs
        → sold r.legs ≤ℤ r.filled_amount
        → Settled r w

  abbrev pub Ends : Outcome × MakerDesk W → Type 0
  Ends (skipped, d') = (is_dry_run s.mode ≡ true) × (d' ≡ d)
  Ends (threw, d') = d'.ring ≡ d.ring
  Ends (reported r, d') = (d'.ring ≡ append_bounded ring_max r d.ring) × Settled r d'.world

module _ {W : Type 0} (submit : SubmitWithin W) (s : MakerSettings) (m : MakerMoment)
    (opp : ArbitrageOpportunity) (amount : Decimal) (fair : IsFairWithin submit) where
  panic_leg-sold :
      (residual : Decimal) (reply : Reply)
      → pos 0 <ℤ residual
      → ((o : UnifiedOrderState) → reply ≡ replied o → (pos 0 ≤ℤ o.filled) × (o.filled ≤ℤ residual))
      → let leg = panic_leg submit s m opp amount residual reply in
        (pos 0 ≤ℤ sold_in leg.leg leg.filled_amount)
        × (sold_in leg.leg leg.filled_amount ≤ℤ residual)
  panic_leg-sold residual late h k = omega arith
  panic_leg-sold residual raised h k = omega arith
  panic_leg-sold residual (replied o) h k = k o refl

  panic_close-sold :
      (residual : Decimal) (a b : MakerLeg) (d : MakerDesk W)
      → pos 0 <ℤ residual
      → sold_in a.leg a.filled_amount ≡ pos 0
      → let total = sold (panic_close submit s m opp amount residual (a ∷ b ∷ []) d).0 in
        (sold_in b.leg b.filled_amount ≤ℤ total)
        × (total ≤ℤ sold_in b.leg b.filled_amount +ℤ residual)
  unfolding panic_close sold
  panic_close-sold residual a b d h e =
      let intent = panic_intent submit s m opp amount residual in
      let some_left : leb_ℤ residual (pos 0) ≡ false = ground arith in
      let bound =
        panic_leg-sold residual (submit intent d.world).0 h
          (λ o got. fair intent d.world o h got) in
      rw (some_left, e) (omega (int_laws, bound))

  panic_close-ring :
      (residual : Decimal) (legs : List MakerLeg) (d : MakerDesk W)
      → (panic_close submit s m opp amount residual legs d).1.ring ≡ d.ring
  unfolding panic_close
  panic_close-ring residual legs d = elim (Bool-cases (leb_ℤ residual (pos 0))) [
    | inl nothing ↦ rw nothing refl
    | inr some_left ↦ rw some_left refl
  ]

  flattened-Ends :
      (filled hedge_filled residual : Decimal) (reason : MakerReason) (legs : List MakerLeg) (w : W)
      (d : MakerDesk W)
      → IsEnough s filled amount
      → hedge_filled <ℤ filled
      → (let closed =
            panic_close submit s m opp amount residual legs record { ring = d.ring; world = w } in
          (hedge_filled ≤ℤ sold closed.0) × (sold closed.0 ≤ℤ filled)
          → Ends s amount d (flattened submit s m opp amount filled hedge_filled reason closed))
  unfolding finalize
  flattened-Ends filled hedge_filled residual reason legs w d enough less sale = (
    ap (append_bounded ring_max _)
        (panic_close-ring residual legs (record { ring = d.ring; world = w })),
    flat refl enough less sale.0 sale.1,
  )

  pub on_reply-Ends :
      (price : Decimal) (x : Waited) (intent : OrderIntent) (reply : Reply) (w : W)
      (d : MakerDesk W)
      → intent.amount ≡ x.filled
      → IsEnough s x.filled amount
      → ((o : UnifiedOrderState) → reply ≡ replied o → (pos 0 ≤ℤ o.filled) × (o.filled ≤ℤ x.filled))
      → Ends s amount d (
          on_hedge submit s m opp amount price x.filled intent
            (maker_leg submit s m opp amount price x ∷ [])
            d.ring
            (reply, w))
  unfolding on_hedge finalize
  on_reply-Ends price x intent late w d e enough k =
      let sale =
        panic_close-sold x.filled (maker_leg submit s m opp amount price x)
          (timeout_leg submit s m opp amount) (record { ring = d.ring; world = w }) enough.0 refl in
      flattened-Ends x.filled (pos 0) x.filled MakerReason.hedge_timeout_panic_closed _ w d enough
        enough.0 (omega (int_laws, sale))
  on_reply-Ends price x intent raised w d e enough k = refl
  on_reply-Ends price x intent (replied o) w d e enough k =
      elim (Bool-cases (ltb_ℤ o.filled x.filled)) [
        | inl less ↦ rw less (
            let below = ltb→lt_ℤ o.filled x.filled less in
            let sale =
              panic_close-sold (x.filled -ℤ o.filled) (maker_leg submit s m opp amount price x)
                (hedge_leg submit s m opp amount intent o) (record { ring = d.ring; world = w })
                (omega (int_laws, below)) refl in
            flattened-Ends x.filled o.filled (x.filled -ℤ o.filled)
              MakerReason.hedge_partial_panic_closed _ w d enough below (omega (int_laws, sale)))
        | inr all ↦ rw all (
            let same : o.filled ≡ x.filled =
              omega (int_laws, ltb→le_ℤ o.filled x.filled all, (k o refl).1) in
            (
              refl,
              done refl enough same
                  (unfold sold in (omega (int_laws, ap pos_part same, ap neg_part same))),
            ))
      ]
