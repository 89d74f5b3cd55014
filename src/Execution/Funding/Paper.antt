-- ===== src/Execution/Funding/Paper.antt =====
-- `_execute_paper` and `_ensure_perp_book` of app/execution/funding_executor.py. The book that the
-- perpetual adapter returns is an argument; none stands for an adapter that is missing or raises. An
-- exception of the paper engine leaves the call.
use arb_system.Base.{
  ℕ, Text, text, Option, none, some, ◌++◌, Decimal, pos, leb_ℤ, if◌then◌else◌, append_bounded,
}
use arb_system.Models.{OrderBookSnapshot, UnifiedOrderState}
use arb_system.MarketData.Books
use arb_system.MarketData.Books.{Books}
use arb_system.Accounts.Balances.{Balances}
use arb_system.Strategy.Funding.{FundingRateOpportunity, spot_of}
use arb_system.Execution.PaperFill.{PaperEngine, Draw, simulate}
use arb_system.Execution.Funding.{
  FundingSettings, FundingMode, FundingOutcome, FundingReason, FundingHedge, FundingMoment,
  FundingDesk, ring_max, hedge_of, classify, spot_side, spot_price, amount_at, spot_intent,
  perp_intent,
}

-- The snapshot under the name of the perpetual market.
abbrev pub perp_snapshot : Text → Text → OrderBookSnapshot → OrderBookSnapshot
perp_snapshot exchange symbol snap = record {
  exchange = exchange ++ text "-perp";
  symbol = symbol;
  bids = snap.bids;
  asks = snap.asks;
  ts_local = snap.ts_local;
}

unfoldable pub ensure_perp_book : Text → Text → Option OrderBookSnapshot → ℕ → Books → Books
ensure_perp_book exchange symbol none now books = books
ensure_perp_book exchange symbol (some snap) now books =
    Books.update (perp_snapshot exchange symbol snap) now books

module _ {V : Type 0} (engine : PaperEngine) (s : FundingSettings) (m : FundingMoment)
    (spot_draw perp_draw : Draw) (o : FundingRateOpportunity) where
  unfoldable pub add_hedge : FundingHedge → FundingDesk V → Option FundingHedge × FundingDesk V
  add_hedge h d = (some h, record d { ring = append_bounded ring_max h d.ring })

  abbrev pub refuse_paper : FundingReason → FundingDesk V → Option FundingHedge × FundingDesk V
  refuse_paper why d =
      add_hedge (hedge_of m o FundingMode.paper none none FundingOutcome.failed (some why)) d

  abbrev pub both_simulated :
      UnifiedOrderState
      → Option UnifiedOrderState × Option Balances
      → FundingDesk V
      → Option FundingHedge × FundingDesk V
  both_simulated spot (none, b) d = (none, record d { balances = b })
  both_simulated spot (some perp, b) d =
      let (outcome, reason) = classify spot perp in
      add_hedge (hedge_of m o FundingMode.paper (some spot) (some perp) outcome reason)
        (record d { balances = b })

  abbrev pub spot_simulated :
      Decimal
      → Decimal
      → Option UnifiedOrderState × Option Balances
      → FundingDesk V
      → Option FundingHedge × FundingDesk V
  spot_simulated price amount (none, b) d = (none, record d { balances = b })
  spot_simulated price amount (some spot, b) d =
      both_simulated spot (simulate engine d.books perp_draw (perp_intent m o price amount) b) d

  unfoldable pub simulate_both :
      Decimal → Decimal → FundingDesk V → Option FundingHedge × FundingDesk V
  simulate_both price amount d =
      spot_simulated price amount
        (simulate engine d.books spot_draw (spot_intent m o price amount) d.balances) d

  abbrev pub with_price : Option Decimal → FundingDesk V → Option FundingHedge × FundingDesk V
  with_price none d = refuse_paper FundingReason.spot_book_missing d
  with_price (some price) d =
      if leb_ℤ (amount_at s price) (pos 0)
      then refuse_paper FundingReason.zero_amount d
      else simulate_both price (amount_at s price) d

  -- `perp` is what the adapter returned at the time `now`.
  unfoldable pub execute_paper :
      Option OrderBookSnapshot → ℕ → FundingDesk V → Option FundingHedge × FundingDesk V
  execute_paper perp now d =
      let books = ensure_perp_book o.exchange o.symbol perp now d.books in
      with_price (spot_price (spot_side o) (Books.get books o.exchange (spot_of o.symbol)))
        (record d { books = books })
