-- ===== src/Execution/MakerTaker/Execute.antt =====
-- `execute` of app/execution/maker_taker_executor.py, up to the reply to the hedge order.
use arb_system.Base.{
  or_else_nonzero, or_nonzero, false, Option, none, some, List, [], ◌∷◌, Decimal, pos, ltb_ℤ, leb_ℤ,
  if◌then◌else◌,
}
use arb_system.Models.{
  OrderBookSnapshot, OrderIntent, ArbitrageOpportunity, best_bid, mid_price, is_dry_run,
}
use arb_system.MarketData.Books
use arb_system.MarketData.Books.{Books}
use arb_system.Execution.MakerTaker.{
  MakerSettings, MakerState, FillState, MakerReason, LegKind, LegEnd, MakerLeg, SubmitWithin,
  MakerDesk, Outcome, skipped,
}
use arb_system.Execution.MakerTaker.Wait.{Waited, wait}
use arb_system.Execution.MakerTaker.Hedge.{
  MakerMoment, sell_intent, maker_price_of, fill_ratio, lowered, newest, report_of, finalize,
  on_hedge,
}

module _ {W : Type 0} (submit : SubmitWithin W) (s : MakerSettings) (m : MakerMoment)
    (opp : ArbitrageOpportunity) (amount : Decimal) where
  abbrev hedge_price : OrderBookSnapshot → Option Decimal
  hedge_price sell_book = lowered s (
      or_else_nonzero
        (best_bid (newest (Books.get m.hedge_books opp.sell_exchange opp.symbol) sell_book))
        (best_bid sell_book))

  abbrev pub hedge_intent : OrderBookSnapshot → Decimal → OrderIntent
  hedge_intent sell_book filled =
      sell_intent m.hid opp.sell_exchange opp.symbol (hedge_price sell_book) filled m.hedge_client
        false

  abbrev pub hedge :
      Decimal → OrderBookSnapshot → Decimal → List MakerLeg → MakerDesk W → Outcome × MakerDesk W
  hedge price sell_book filled legs d =
      let intent = hedge_intent sell_book filled in
      on_hedge submit s m opp amount price filled intent legs d.ring (submit intent d.world)

  abbrev pub maker_leg : Decimal → Waited → MakerLeg
  maker_leg price x = record {
    leg = LegKind.maker_buy;
    exchange = opp.buy_exchange;
    price = some price;
    requested_amount = some amount;
    filled_amount = some x.filled;
    result = LegEnd.waited x.state;
  }

  abbrev pub cancel : Decimal → MakerReason → List MakerLeg → MakerDesk W → Outcome × MakerDesk W
  cancel filled reason legs d =
      finalize submit s m opp amount
        (report_of submit s m opp amount filled (pos 0) MakerState.canceled reason legs none) d

  abbrev pub hedge_if_enough :
      Decimal → OrderBookSnapshot → Waited → List MakerLeg → MakerDesk W → Outcome × MakerDesk W
  hedge_if_enough price sell_book x legs d =
      let ratio = fill_ratio x.filled amount in
      if ltb_ℤ ratio s.min_fill_ratio
      then cancel x.filled (MakerReason.fill_ratio_below_min ratio s.min_fill_ratio) legs d
      else hedge price sell_book x.filled legs d

  unfoldable pub after_wait :
      Decimal → OrderBookSnapshot → Waited → FillState → MakerDesk W → Outcome × MakerDesk W
  unfolding finalize
  after_wait price sell_book x FillState.timeout d =
      cancel x.filled MakerReason.max_wait_ms (maker_leg price x ∷ []) d
  after_wait price sell_book x FillState.price_drift d =
      cancel x.filled MakerReason.price_drift_exceeded (maker_leg price x ∷ []) d
  after_wait price sell_book x FillState.full d =
      hedge_if_enough price sell_book x (maker_leg price x ∷ []) d
  after_wait price sell_book x FillState.partial d =
      hedge_if_enough price sell_book x (maker_leg price x ∷ []) d

  -- `none` is a wait that has not ended.
  abbrev pub resumed :
      Decimal → OrderBookSnapshot → Option Waited → MakerDesk W → Option (Outcome × MakerDesk W)
  resumed price sell_book none d = none
  resumed price sell_book (some x) d = some (after_wait price sell_book x x.state d)

  unfoldable pub post_maker :
      OrderBookSnapshot → OrderBookSnapshot → Decimal → MakerDesk W → Option (Outcome × MakerDesk W)
  post_maker buy_book sell_book bid d =
      let price = maker_price_of s bid in
      resumed price sell_book
        (wait s price amount (or_nonzero (mid_price buy_book) bid) m.polls m.rounds 0) d

  abbrev pub with_bid :
      OrderBookSnapshot
      → OrderBookSnapshot
      → Option Decimal
      → MakerDesk W
      → Option (Outcome × MakerDesk W)
  with_bid buy_book sell_book none d = some (cancel (pos 0) MakerReason.no_best_bid [] d)
  with_bid buy_book sell_book (some bid) d =
      if leb_ℤ bid (pos 0)
      then some (cancel (pos 0) MakerReason.no_best_bid [] d)
      else post_maker buy_book sell_book bid d

  abbrev pub with_books :
      Option OrderBookSnapshot
      → Option OrderBookSnapshot
      → MakerDesk W
      → Option (Outcome × MakerDesk W)
  with_books (some buy_book) (some sell_book) d = with_bid buy_book sell_book (best_bid buy_book) d
  with_books _ _ d = some (cancel (pos 0) MakerReason.missing_orderbook_snapshot [] d)

  unfoldable pub execute : MakerDesk W → Option (Outcome × MakerDesk W)
  unfolding finalize
  execute d =
      if is_dry_run s.mode
      then some (skipped, d)
      else with_books (Books.get m.books opp.buy_exchange opp.symbol)
          (Books.get m.books opp.sell_exchange opp.symbol) d
