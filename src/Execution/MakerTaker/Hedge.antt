-- ===== src/Execution/MakerTaker/Hedge.antt =====
-- The hedge, `_panic_close` and `_finalize` of app/execution/maker_taker_executor.py. New ids, times and
-- the books at each reading are arguments.
use arb_system.Base.{
  or_else_nonzero, or_nonzero, ℕ, Bool, true, Text, text, Option, none, some, List, [], ◌∷◌, ◌++◌,
  Decimal, pos, whole, ◌+ℤ◌, ◌-ℤ◌, mul_dec, div_dec, ltb_ℤ, leb_ℤ, if◌then◌else◌, append_bounded,
}
use arb_system.Models.{
  Side, OrderType, OrderBookSnapshot, OrderIntent, UnifiedOrderState, ArbitrageOpportunity,
  best_bid,
}
use arb_system.MarketData.Books
use arb_system.MarketData.Books.{Books}
use arb_system.Execution.MakerTaker.{
  MakerSettings, MakerState, MakerReason, LegKind, LegEnd, MakerLeg, MakerTakerReport, ring_max,
  quantize, Reply, late, raised, replied, SubmitWithin, MakerDesk, Outcome, threw, reported,
}
use arb_system.Execution.MakerTaker.Wait.{Poll}

-- What the environment supplies to a call. `rounds` bounds the rounds of the wait.
pub record MakerMoment : Type 0 where
  pub hid : Text
  pub hedge_client : Text
  pub panic_client : Text
  pub books : Books
  pub polls : ℕ → Poll
  pub rounds : ℕ
  pub hedge_books : Books
  pub panic_books : Books
  pub posted_at : ℕ
  pub completed_at : ℕ

abbrev bid_of : Option OrderBookSnapshot → Option Decimal
bid_of none = none
bid_of (some book) = best_bid book

abbrev pub sell_intent : Text → Text → Text → Option Decimal → Decimal → Text → Bool → OrderIntent
sell_intent hid exchange symbol price amount client is_repair = record {
  hedge_group_id = hid;
  exchange = exchange;
  symbol = symbol;
  side = Side.sell;
  order_type = OrderType.ioc_limit;
  amount = amount;
  price = price;
  client_order_id = some client;
  is_repair = is_repair;
}

-- `str(price) if price else None`
abbrev shown : Option Decimal → Option Decimal
shown price = or_else_nonzero price none

unfoldable pub maker_price_of : MakerSettings → Decimal → Decimal
maker_price_of s bid = quantize (mul_dec bid (whole 1 +ℤ div_dec s.maker_offset_bps (whole 10000)))

abbrev pub fill_ratio : Decimal → Decimal → Decimal
fill_ratio filled amount = if ltb_ℤ (pos 0) amount then div_dec filled amount else pos 0

abbrev pub lowered : MakerSettings → Option Decimal → Option Decimal
lowered s none = none
lowered s (some bid) = some (mul_dec bid (whole 1 -ℤ div_dec s.ioc_price_buffer_bps (whole 10000)))

abbrev pub newest : Option OrderBookSnapshot → OrderBookSnapshot → OrderBookSnapshot
newest none book = book
newest (some fresh) book = fresh

-- The proceeds of the hedge less the cost at the maker's price.
unfoldable pub profit_of : Decimal → Decimal → UnifiedOrderState → Decimal
profit_of price filled o =
    mul_dec (or_nonzero o.avg_fill_price (or_nonzero o.price (pos 0))) filled
    -ℤ mul_dec price filled

module _ {W : Type 0} (submit : SubmitWithin W) (s : MakerSettings) (m : MakerMoment)
    (opp : ArbitrageOpportunity) (amount : Decimal) where
  abbrev pub report_of :
      Decimal
      → Decimal
      → MakerState
      → MakerReason
      → List MakerLeg
      → Option Decimal
      → MakerTakerReport
  report_of filled hedge_filled state reason legs realized = record {
    exec_id = text "mt-" ++ m.hid;
    hedge_group_id = m.hid;
    symbol = opp.symbol;
    buy_exchange = opp.buy_exchange;
    sell_exchange = opp.sell_exchange;
    maker_price = opp.buy_price;
    maker_amount = amount;
    filled_amount = filled;
    hedge_filled_amount = hedge_filled;
    state = state;
    reason = reason;
    posted_at = m.posted_at;
    completed_at = m.completed_at;
    legs = legs;
    realized_profit_quote = realized;
  }

  unfoldable pub finalize : MakerTakerReport → MakerDesk W → Outcome × MakerDesk W
  finalize report d = (reported report, record d { ring = append_bounded ring_max report d.ring })

  abbrev pub panic_intent : Decimal → OrderIntent
  panic_intent residual =
      sell_intent m.hid opp.buy_exchange opp.symbol
        (bid_of (Books.get m.panic_books opp.buy_exchange opp.symbol)) residual m.panic_client true

  abbrev pub panic_leg : Decimal → Reply → MakerLeg
  panic_leg residual (replied o) = record {
    leg = LegKind.panic_close;
    exchange = opp.buy_exchange;
    price = shown (panic_intent residual).price;
    requested_amount = some residual;
    filled_amount = some o.filled;
    result = LegEnd.answered o.status;
  }
  panic_leg residual _ = record {
    leg = LegKind.panic_close;
    exchange = opp.buy_exchange;
    price = none;
    requested_amount = some residual;
    filled_amount = none;
    result = LegEnd.error;
  }

  -- Whatever the submission raises is caught.
  unfoldable pub panic_close : Decimal → List MakerLeg → MakerDesk W → List MakerLeg × MakerDesk W
  panic_close residual legs d =
      let (reply, w) = submit (panic_intent residual) d.world in
      if leb_ℤ residual (pos 0)
      then (legs, d)
      else (legs ++ (panic_leg residual reply ∷ []), record d { world = w })

  abbrev pub timeout_leg : MakerLeg
  timeout_leg = record {
    leg = LegKind.hedge_sell;
    exchange = opp.sell_exchange;
    price = none;
    requested_amount = none;
    filled_amount = some (pos 0);
    result = LegEnd.timed_out;
  }

  abbrev pub hedge_leg : OrderIntent → UnifiedOrderState → MakerLeg
  hedge_leg intent o = record {
    leg = LegKind.hedge_sell;
    exchange = opp.sell_exchange;
    price = shown intent.price;
    requested_amount = some intent.amount;
    filled_amount = some o.filled;
    result = LegEnd.answered o.status;
  }

  -- What is not hedged is sold where it was bought.
  abbrev pub flattened :
      Decimal → Decimal → MakerReason → List MakerLeg × MakerDesk W → Outcome × MakerDesk W
  flattened filled hedge_filled reason (legs, d) =
      finalize (report_of filled hedge_filled MakerState.flat reason legs none) d

  -- What follows the reply to the hedge order.
  unfoldable pub on_hedge :
      Decimal
      → Decimal
      → OrderIntent
      → List MakerLeg
      → List MakerTakerReport
      → Reply × W
      → Outcome × MakerDesk W
  unfolding finalize panic_close
  on_hedge price filled intent legs ring (late, w) =
      flattened filled (pos 0) MakerReason.hedge_timeout_panic_closed
        (panic_close filled (legs ++ (timeout_leg ∷ [])) record { ring = ring; world = w })
  on_hedge price filled intent legs ring (raised, w) = (threw, record { ring = ring; world = w })
  on_hedge price filled intent legs ring (replied o, w) =
      let legs' = legs ++ (hedge_leg intent o ∷ []) in
      let d : MakerDesk W = record { ring = ring; world = w } in
      if ltb_ℤ o.filled filled
      then flattened filled o.filled MakerReason.hedge_partial_panic_closed
          (panic_close (filled -ℤ o.filled) legs' d)
      else finalize
          (report_of filled o.filled MakerState.done MakerReason.all_well legs'
            (some (profit_of price filled o)))
          d
