-- ===== src/Execution/Funding/Ends.antt =====
-- The ends that `_execute_live` of app/execution/funding_executor.py can come to.
use arb_system.Base.{
  ◌≡◌, ◌≢◌, refl, true, false, ◌&&◌, text_eq, none, some, Option, Decimal, pos, ◌≤ℤ◌, ◌<ℤ◌,
  Bool-cases, inl, inr, ◌⊎◌, append_bounded,
}
use arb_system.Models.{OrderStatus, OrderIntent, UnifiedOrderState, is_filled, opposite}
use arb_system.MarketData.Books
use arb_system.Strategy.Funding.{FundingRateOpportunity, short_perp, spot_of}
use arb_system.Execution.Submission.{Submit}
use arb_system.Execution.Funding.{
  FundingSettings, FundingOutcome, FundingHedge, FundingMoment, FundingDesk, ring_max, spot_side,
  perp_side, spot_price, amount_at, spot_intent, perp_intent,
}
use arb_system.Execution.Funding.Live.{Adapters, survives, basis_bps}

-- Two orders on opposite sides for the same amount, the spot one bought just if the perpetual is shorted.
pub record IsPair (o : FundingRateOpportunity) (spot perp : UnifiedOrderState) : Type 0 where
  pub spot_on : spot.side ≡ spot_side o
  pub perp_on : perp.side ≡ opposite spot.side
  pub same : spot.amount ≡ perp.amount
  pub positive : pos 0 <ℤ spot.amount

-- The gates before the orders.
pub record IsGated {V : Type 0} (a : Adapters V) (s : FundingSettings) (o : FundingRateOpportunity)
    (d : FundingDesk V) (price : Decimal) : Type 0 where
  pub quoted :
      spot_price (spot_side o) (Books.get d.books o.exchange (spot_of o.symbol)) ≡ some price
  pub ready : (a.configured ≡ true) × (a.spot_there ≡ true) × (a.perp_ready ≡ true)
  pub positive : pos 0 <ℤ amount_at s price
  pub narrow :
      (mark : Decimal)
      → o.perp_mark_price ≡ some mark
      → pos 0 <ℤ mark
      → basis_bps mark price ≤ℤ s.funding_max_basis_bps

pub perp_side-opposite : (o : FundingRateOpportunity) → perp_side o ≡ opposite (spot_side o)
perp_side-opposite o = elim (Bool-cases (text_eq o.direction short_perp)) [
  | inl e ↦ rw e refl
  | inr e ↦ rw e refl
]

module _ {V : Type 0} (a : Adapters V) (s : FundingSettings) (m : FundingMoment)
    (o : FundingRateOpportunity) (d : FundingDesk V) where
  -- The two orders at a price: the reply and the venue after each.
  abbrev pub after_spot : Decimal → Option UnifiedOrderState × V
  after_spot price = a.create_spot (spot_intent m o price (amount_at s price)) d.venue

  abbrev pub after_perp : Decimal → Option UnifiedOrderState × V
  after_perp price = a.create_perp (perp_intent m o price (amount_at s price)) (after_spot price).1

  -- The hedge shows the replies to both orders.
  abbrev Shows : FundingHedge → Decimal → Type 0
  Shows h price = (h.spot_state ≡ (after_spot price).0) × (h.perp_state ≡ (after_perp price).0)

  -- Of the two orders just this one was answered, and it was sent through `create`.
  abbrev pub Sole : Decimal → UnifiedOrderState → Submit V → Type 0
  Sole price state create =
      (((after_spot price).0 ≡ some state)
        × ((after_perp price).0 ≡ none)
        × (create ≡ a.create_spot))
      ⊎ (((after_spot price).0 ≡ none)
          × ((after_perp price).0 ≡ some state)
          × (create ≡ a.create_perp))

  -- How a hedge, and the venue with it, can end.
  pub data LiveEnd (h : FundingHedge) (v : V) : Type 0 where
    -- A gate refused: nothing was sent.
    refused :
        v ≡ d.venue
        → h.outcome ≡ FundingOutcome.failed
        → (h.spot_state ≡ none) × (h.perp_state ≡ none)
        → LiveEnd h v
    -- Both orders were answered; the hedge is open just if both are FILLED. Nothing else was sent.
    answered :
        (spot perp : UnifiedOrderState) (price : Decimal)
        → IsGated a s o d price
        → Shows h price
        → ((after_spot price).0 ≡ some spot) × ((after_perp price).0 ≡ some perp)
        → IsPair o spot perp
        → ((spot.status ≡ OrderStatus.filled)
            × (perp.status ≡ OrderStatus.filled)
            × (h.outcome ≡ FundingOutcome.opened))
          ⊎ ((is_filled spot.status && is_filled perp.status ≡ false)
              × (h.outcome ≡ FundingOutcome.failed))
        → v ≡ (after_perp price).1
        → LiveEnd h v
    -- One order was answered FILLED or PARTIALLY_FILLED, and the other raised: what was filled is sent back
    -- through the same adapter after them.
    sent_back :
        (state : UnifiedOrderState) (create : Submit V) (intent : OrderIntent) (price : Decimal)
        → IsGated a s o d price
        → Shows h price
        → Sole price state create
        → pos 0 <ℤ state.filled
        → (intent.symbol ≡ state.symbol)
          × (intent.side ≡ opposite state.side)
          × (intent.amount ≡ state.filled)
        → v ≡ (create intent (after_perp price).1).1
        → (((create intent (after_perp price).1).0 ≡ none) × (h.outcome ≡ FundingOutcome.failed))
          ⊎ (((create intent (after_perp price).1).0 ≢ none)
              × (h.outcome ≡ FundingOutcome.repaired))
        → LiveEnd h v
    -- One order or both raised, and none was answered FILLED or PARTIALLY_FILLED with a fill. Nothing else
    -- was sent.
    lost :
        (price : Decimal)
        → IsGated a s o d price
        → Shows h price
        → h.outcome ≡ FundingOutcome.failed
        → (h.spot_state ≡ none) ⊎ (h.perp_state ≡ none)
        → ((state : UnifiedOrderState)
            → (h.spot_state ≡ some state) ⊎ (h.perp_state ≡ some state)
            → survives state ≡ false)
        → v ≡ (after_perp price).1
        → LiveEnd h v

  abbrev pub LiveEnds : FundingHedge × FundingDesk V → Type 0
  LiveEnds (h, d') = (d'.ring ≡ append_bounded ring_max h d.ring) × LiveEnd h d'.venue
