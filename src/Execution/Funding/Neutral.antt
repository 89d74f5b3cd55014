-- ===== src/Execution/Funding/Neutral.antt =====
-- What `_execute_paper` of app/execution/funding_executor.py opens.
use arb_system.Base.{
  ℕ, ◌≡◌, refl, sym, ap, ◌∙◌, true, ◌&&◌, text_has, Text, pair_eq, Option, none, some, List,
  Decimal, pos, whole, pos_part, neg_part, ◌+ℤ◌, ◌≤ℤ◌, ◌<ℤ◌, leb_ℤ, leb→lt_ℤ, arith, int_laws,
  Bool-cases, inl, inr, append_bounded,
}
use arb_system.Models.{
  Side, OrderStatus, OrderIntent, OrderBookSnapshot, UnifiedOrderState, is_filled, opposite,
}
use arb_system.MarketData.Books
use arb_system.MarketData.Books.{Books}
use arb_system.Strategy.Funding.{FundingRateOpportunity, spot_of}
use arb_system.Execution.PaperFill.{PaperEngine, Draw, dust, simulate}
use arb_system.MarketData.Books.Laws.{get-update}
use arb_system.Execution.Policy.{levels_of}
use arb_system.Execution.PaperFill.Fills.{IsOffer}
use arb_system.Execution.PaperFill.Orders.{IsTrue, simulate-IsTrue}
use arb_system.Execution.Router.Laws.{HasOffers, simulate_echo}
use arb_system.Execution.Funding.{
  FundingSettings, FundingOutcome, FundingReason, FundingHedge, FundingMoment, FundingDesk,
  ring_max, hedge_of, classify, spot_side, spot_price, amount_at, spot_intent, perp_intent,
}
use arb_system.Execution.Funding.Paper.{
  perp_snapshot, ensure_perp_book, add_hedge, refuse_paper, simulate_both, with_price,
  execute_paper,
}
use arb_system.Execution.Funding.Ends.{IsPair, perp_side-opposite}

-- Two orders on opposite sides for one amount, each filled but for dust.
pub record IsNeutral (o : FundingRateOpportunity) (h : FundingHedge) : Type 0 where
  pub spot : UnifiedOrderState
  pub perp : UnifiedOrderState
  pub states : (h.spot_state ≡ some spot) × (h.perp_state ≡ some perp)
  pub pair : IsPair o spot perp
  pub spot_filled : (spot.filled ≤ℤ spot.amount) × (spot.amount ≤ℤ spot.filled +ℤ dust)
  pub perp_filled : (perp.filled ≤ℤ perp.amount) × (perp.amount ≤ℤ perp.filled +ℤ dust)

whole_fill :
    (intent : OrderIntent) (o : UnifiedOrderState)
    → IsTrue intent o
    → o.amount ≡ intent.amount
    → is_filled o.status ≡ true
    → (o.filled ≤ℤ o.amount) × (o.amount ≤ℤ o.filled +ℤ dust)
whole_fill intent o v e f =
    let done : o.status ≡ OrderStatus.filled = ground arith in
    let left = v.when_filled done in
    let sum = ap pos_part v.sum in
    let sum' = ap neg_part v.sum in
    let same = ap pos_part e in
    let same' = ap neg_part e in omega (int_laws, left, sum, sum', same, same', v.remaining_nonneg)

-- Both sides of what the perpetual adapter returned offer something at each level.
abbrev pub IsOfferedSnap : Option OrderBookSnapshot → Type 0
IsOfferedSnap none = Unit {0}
IsOfferedSnap (some snap) = IsOffer snap.asks × IsOffer snap.bids

levels-IsOffer :
    (side : Side) (book snap : OrderBookSnapshot)
    → some snap ≡ some book
    → IsOffer snap.asks
    → IsOffer snap.bids
    → IsOffer (levels_of side book)
levels-IsOffer Side.buy book snap e asks bids =
    let same : snap.asks ≡ book.asks = cc in rw same at asks
levels-IsOffer Side.sell book snap e asks bids =
    let same : snap.bids ≡ book.bids = cc in rw same at bids

ensure-HasOffers :
    (exchange symbol : Text) (perp : Option OrderBookSnapshot) (now : ℕ) (books : Books)
    → IsOfferedSnap perp
    → HasOffers books
    → HasOffers (ensure_perp_book exchange symbol perp now books)
unfolding ensure_perp_book
ensure-HasOffers exchange symbol none now books snap offers intent book e = offers intent book e
ensure-HasOffers exchange symbol (some snap) now books (asks, bids) offers intent book e =
    let tagged = perp_snapshot exchange symbol snap in
    let found = (get-update tagged now now books intent.exchange intent.symbol).0 in
    elim (Bool-cases (pair_eq (tagged.exchange, tagged.symbol) (intent.exchange, intent.symbol))) [
      | inl hit ↦ levels-IsOffer intent.side book tagged (rw hit at (sym found ∙ e)) asks bids
      | inr miss ↦ offers intent book (rw miss at (sym found ∙ e))
    ]

opened_both :
    (spot perp : UnifiedOrderState)
    → (classify spot perp).0 ≡ FundingOutcome.opened
    → is_filled spot.status && is_filled perp.status ≡ true
unfolding classify
opened_both spot perp e = elim (Bool-cases (is_filled spot.status && is_filled perp.status)) [
  | inl both ↦ both
  | inr some_not ↦ absurd (ground (arith, some_not, e))
]

module _ {V : Type 0} (engine : PaperEngine) (s : FundingSettings) (m : FundingMoment)
    (spot_draw perp_draw : Draw) (o : FundingRateOpportunity)
    (ratio : engine.partial_fill_ratio ≤ℤ whole 1)
    (spot_slash : text_has b'/' (spot_of o.symbol) ≡ true)
    (slash : text_has b'/' o.symbol ≡ true) where
  -- A call that returns a hedge and adds it to the ring, open only if it is neutral.
  abbrev pub Opens : List FundingHedge → Option FundingHedge × FundingDesk V → Type 0
  Opens ring end =
      (h : FundingHedge) × (end.0 ≡ some h)
      × (end.1.ring ≡ append_bounded ring_max h ring)
      × (h.outcome ≡ FundingOutcome.opened → IsNeutral o h)

  refuse-Opens :
      (why : FundingReason) (d : FundingDesk V)
      → Opens d.ring (refuse_paper engine s m spot_draw perp_draw o why d)
  unfolding add_hedge hedge_of
  refuse-Opens why d = (_, refl, refl, λ e. absurd (cc))

  simulate_both-Opens :
      (price amount : Decimal) (d : FundingDesk V)
      → pos 0 <ℤ amount
      → HasOffers d.books
      → Opens d.ring (simulate_both engine s m spot_draw perp_draw o price amount d)
  unfolding simulate_both add_hedge hedge_of
  simulate_both-Opens price amount d h offers =
      let (spot, got, v, _, _) =
        simulate-IsTrue engine d.books spot_draw (spot_intent m o price amount) d.balances h ratio
          (λ book there. offers (spot_intent m o price amount) book there) spot_slash in
      let b = (simulate engine d.books spot_draw (spot_intent m o price amount) d.balances).1 in
      let (perp, got', v', _, _) =
        simulate-IsTrue engine d.books perp_draw (perp_intent m o price amount) b h ratio
          (λ book there. offers (perp_intent m o price amount) book there) slash in
      let (_, side, size) =
        simulate_echo engine d.books spot_draw (spot_intent m o price amount) d.balances spot got in
      let (_, side', size') =
        simulate_echo engine d.books perp_draw (perp_intent m o price amount) b perp got' in
      rw (got, got')
        (
          _,
          refl,
          refl,
          λ open_it.
              let both : is_filled spot.status && is_filled perp.status ≡ true =
                opened_both spot perp open_it in
              record {
                spot = spot;
                perp = perp;
                states = (refl, refl);
                pair = record {
                  spot_on = side;
                  perp_on = side' ∙ perp_side-opposite o ∙ ap opposite (sym side);
                  same = size ∙ sym size';
                  positive = rw size h;
                };
                spot_filled =
                    whole_fill (spot_intent m o price amount) spot v size (ground (arith, both));
                perp_filled =
                    whole_fill (perp_intent m o price amount) perp v' size' (ground (arith, both));
              },
        )

  with_price-Opens :
      (price : Option Decimal) (d : FundingDesk V)
      → HasOffers d.books
      → Opens d.ring (with_price engine s m spot_draw perp_draw o price d)
  with_price-Opens none d offers = refuse-Opens FundingReason.spot_book_missing d
  with_price-Opens (some price) d offers = elim (Bool-cases (leb_ℤ (amount_at s price) (pos 0))) [
    | inl low ↦ rw low (refuse-Opens FundingReason.zero_amount d)
    | inr more ↦ rw more (
        simulate_both-Opens price (amount_at s price) d (leb→lt_ℤ (amount_at s price) (pos 0) more)
          offers)
  ]

  -- A paper call always returns a hedge and adds it to the ring, and the hedge is open only if its two
  -- orders are on opposite sides, the spot one bought just if the perpetual is shorted, for one positive
  -- amount, each filled to that amount but for dust. Both symbols hold a slash, the dice cut to a share
  -- of at most one, and every level of the books and of what the perpetual adapter returned offers
  -- something.
  pub execute_paper-Opens :
      (perp : Option OrderBookSnapshot) (now : ℕ) (d : FundingDesk V)
      → IsOfferedSnap perp
      → HasOffers d.books
      → Opens d.ring (execute_paper engine s m spot_draw perp_draw o perp now d)
  unfolding execute_paper
  execute_paper-Opens perp now d snap offers =
      let books = ensure_perp_book o.exchange o.symbol perp now d.books in
      with_price-Opens (spot_price (spot_side o) (Books.get books o.exchange (spot_of o.symbol)))
        (record d { books = books })
        (ensure-HasOffers o.exchange o.symbol perp now d.books snap offers)
