-- ===== src/Execution/PaperFill/Amounts.antt =====
-- The amount that app/execution/paper_fill_engine.py fills of a limit order.
use arb_system.Base.{
  ◌≡◌, refl, ap, ◌∙◌, Bool, true, not, ◌&&◌, text_has, Option, some, Decimal, pos, ◌-ℤ◌, ◌<ℤ◌,
  min_ℤ, mul_dec, ltb_ℤ, if◌then◌else◌, Bool-cases, inl, inr,
}
use arb_system.Models.{OrderIntent, OrderBookSnapshot, UnifiedOrderState}
use arb_system.MarketData.Books
use arb_system.MarketData.Books.{Books}
use arb_system.Accounts.Balances.{Balances}
use arb_system.Execution.Policy.{levels_of, sum_within}
use arb_system.Execution.PaperFill.{
  PaperEngine, Draw, Fill, is_fok, limit_of, dust, no_fill, fill_levels, kill_partial, cut_fill,
  fill_order, simulate, simulate_on, filled_order, fee_of,
}
use arb_system.Execution.PaperFill.Fills.{IsOffer, IsSorted, fill_levels-within}

-- What a fill-or-kill order keeps of the room in the book.
abbrev pub kept_of : OrderIntent → Decimal → Decimal
kept_of intent room =
    if is_fok intent.order_type && ltb_ℤ dust (intent.amount -ℤ room) then pos 0 else room

-- What the dice leave of it; they leave repairs alone, and would not leave nothing.
abbrev pub cut_of : PaperEngine → Bool → OrderIntent → Decimal → Decimal
cut_of p cut intent kept =
    let part = mul_dec kept p.partial_fill_ratio in
    if not intent.is_repair && ltb_ℤ (pos 0) kept && cut && ltb_ℤ (pos 0) part then part else kept

kill_partial-filled :
    (intent : OrderIntent) (f : Fill) (room : Decimal)
    → f.filled ≡ room
    → f.remaining ≡ intent.amount -ℤ room
    → (kill_partial intent f).filled ≡ kept_of intent room
unfolding kill_partial
kill_partial-filled intent f room e e' =
    elim (Bool-cases (is_fok intent.order_type && ltb_ℤ dust f.remaining)) [
      | inl killed ↦ let killed' = rw e' at killed in rw (killed, killed') refl
      | inr kept ↦ let kept' = rw e' at kept in rw (kept, kept') e
    ]

cut_fill-filled :
    (p : PaperEngine) (cut : Bool) (intent : OrderIntent) (f : Fill)
    → (cut_fill p cut intent f).filled ≡ cut_of p cut intent f.filled
unfolding cut_fill
cut_fill-filled p cut intent f =
    let cuts =
      not intent.is_repair
      && ltb_ℤ (pos 0) f.filled
      && cut
      && ltb_ℤ (pos 0) (mul_dec f.filled p.partial_fill_ratio) in
    elim (Bool-cases cuts) [ inl part ↦ rw part refl | inr whole_fill ↦ rw whole_fill refl ]

module _ (p : PaperEngine) (book : OrderBookSnapshot) (intent : OrderIntent) (limit : Decimal)
    (at_limit : limit_of intent ≡ some limit) (positive : pos 0 <ℤ intent.amount)
    (offers : IsOffer (levels_of intent.side book))
    (sorted : IsSorted intent.side (levels_of intent.side book)) where
  -- What the order asks, or what the levels at its limit or better offer, if that is less.
  abbrev pub room : Decimal
  room = min_ℤ intent.amount (sum_within intent.side limit (levels_of intent.side book))

  fill_order-filled :
      (cut : Bool)
      → (fill_order p cut book intent).filled ≡ cut_of p cut intent (kept_of intent room)
  unfolding fill_order
  fill_order-filled cut =
      let walked =
        fill_levels intent.side (limit_of intent) (levels_of intent.side book)
          (no_fill intent.amount) in
      let (one, two) =
        fill_levels-within intent.side limit intent.amount (levels_of intent.side book) positive
          offers sorted in
      let one' : walked.filled ≡ room = rw at_limit one in
      let two' : walked.remaining ≡ intent.amount -ℤ room = rw at_limit two in
      cut_fill-filled p cut intent (kill_partial intent walked)
      ∙ ap (cut_of p cut intent) (kill_partial-filled intent walked room one' two')

  -- From a sorted book whose levels all offer something, a paper order with a limit is filled with the
  -- least of its amount and what the levels at the limit or better offer; a fill-or-kill order is left
  -- unfilled where that falls short of the amount by more than dust. If the dice call for it, the order
  -- is no repair and something is left, the partial ratio of that is filled instead.
  pub simulate-within :
      (books : Books) (d : Draw) (b : Option Balances)
      → Books.get books intent.exchange intent.symbol ≡ some book
      → text_has b'/' intent.symbol ≡ true
      → (o : UnifiedOrderState) × ((simulate p books d intent b).0 ≡ some o)
        × (o.filled ≡ cut_of p d.cut intent (kept_of intent room))
  unfolding simulate
  simulate-within books d b found slash =
      let f = fill_order p d.cut book intent in
      rw (found, simulate_on)
        (rw slash (filled_order d intent f (fee_of p intent f), refl, fill_order-filled d.cut))
