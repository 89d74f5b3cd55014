-- ===== src/Execution/Router/Laws.antt =====
-- What the router of app/execution/order_router.py promises its callers outside live mode.
use arb_system.Base.{
  ℕ, ◌≡◌, ◌≢◌, refl, ap, Option, some, pos, pos_part, neg_part, ◌≤ℤ◌, ◌<ℤ◌, whole, arith, int_laws,
  Option-cases, inl, inr,
}
use arb_system.Models.{Mode, OrderIntent, UnifiedOrderState, OrderBookSnapshot}
use arb_system.MarketData.Books
use arb_system.MarketData.Books.{Books}
use arb_system.Accounts.Balances.{Balances}
use arb_system.Execution.Submission.{IsFair, IsEcho}
use arb_system.Execution.Policy.{levels_of}
use arb_system.Execution.PaperFill.{PaperEngine, Draw, simulate, fill_order}
use arb_system.Execution.PaperFill.Fills.{IsOffer}
use arb_system.Execution.PaperFill.Orders.{fill_order-IsSplit}
use arb_system.Execution.Router.{submit}

-- Every level of every book on either side offers something.
abbrev pub HasOffers : Books → Type 0
HasOffers books =
    (intent : OrderIntent) (book : OrderBookSnapshot)
    → Books.get books intent.exchange intent.symbol ≡ some book
    → IsOffer (levels_of intent.side book)

simulate_fair :
    (p : PaperEngine) (books : Books) (d : Draw) (intent : OrderIntent) (b : Option Balances)
    {o : UnifiedOrderState}
    → p.partial_fill_ratio ≤ℤ whole 1
    → HasOffers books
    → pos 0 <ℤ intent.amount
    → (simulate p books d intent b).0 ≡ some o
    → (pos 0 ≤ℤ o.filled) × (o.filled ≤ℤ intent.amount)
unfolding simulate
simulate_fair p books d intent b ratio offers h e =
    elim (Option-cases (Books.get books intent.exchange intent.symbol)) [
      | inl missing ↦ ground arith
      | inr (book, found) ↦
          let v = fill_order-IsSplit p d.cut book intent h (offers intent book found) ratio in
          let total = ap pos_part v.sum in
          let total' = ap neg_part v.sum in
          let less : (fill_order p d.cut book intent).filled ≤ℤ intent.amount =
            omega (int_laws, total, total', v.remaining_nonneg) in
          ground (arith, less, v.filled_nonneg)
    ]

-- Outside live mode an order for a positive amount comes back, if it does, filled between nothing and
-- that amount, as long as the dice cut to a share of at most one and every level of the books offers
-- something.
pub submit-IsFair :
    {L : Type 0} (engine : PaperEngine) (draw : ℕ → Draw) (books : ℕ → Books)
    (create_order : OrderIntent → L → Option UnifiedOrderState × L) (mode : Mode)
    → mode ≢ Mode.live
    → engine.partial_fill_ratio ≤ℤ whole 1
    → ((n : ℕ) → HasOffers (books n))
    → IsFair (submit engine draw books create_order mode)
unfolding submit
submit-IsFair engine draw books create_order Mode.dry_run safe ratio offers intent w o h e =
    ground arith
submit-IsFair engine draw books create_order Mode.paper_trade safe ratio offers intent w o h e =
    simulate_fair engine (books w.calls) (draw w.calls) intent w.balances ratio (offers w.calls) h e
submit-IsFair engine draw books create_order Mode.live safe ratio offers intent w o h e =
    absurd (safe refl)

pub simulate_echo :
    (p : PaperEngine) (books : Books) (d : Draw) (intent : OrderIntent) (b : Option Balances)
    (o : UnifiedOrderState)
    → (simulate p books d intent b).0 ≡ some o
    → (o.symbol ≡ intent.symbol) × (o.side ≡ intent.side) × (o.amount ≡ intent.amount)
unfolding simulate
simulate_echo p books d intent b o e =
    elim (Option-cases (Books.get books intent.exchange intent.symbol)) [
      | inl missing ↦
          (ground (arith, missing, e), ground (arith, missing, e), ground (arith, missing, e))
      | inr (book, there) ↦
          (ground (arith, there, e), ground (arith, there, e), ground (arith, there, e))
    ]

-- Outside live mode a reply names the pair, the side and the amount of its order.
pub submit-IsEcho :
    {L : Type 0} (engine : PaperEngine) (draw : ℕ → Draw) (books : ℕ → Books)
    (create_order : OrderIntent → L → Option UnifiedOrderState × L) (mode : Mode)
    → mode ≢ Mode.live
    → IsEcho (submit engine draw books create_order mode)
unfolding submit
submit-IsEcho engine draw books create_order Mode.dry_run safe intent w o e =
    (ground (arith, e), ground (arith, e), ground (arith, e))
submit-IsEcho engine draw books create_order Mode.paper_trade safe intent w o e =
    simulate_echo engine (books w.calls) (draw w.calls) intent w.balances o e
submit-IsEcho engine draw books create_order Mode.live safe intent w o e = absurd (safe refl)
