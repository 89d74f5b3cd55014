-- ===== src/Execution/PaperFill.antt =====
-- app/execution/paper_fill_engine.py. Whether the dice call for a partial fill, the new ids and the
-- time are arguments. An exception is `none`; it leaves the balances as they were.
pub mod Fills
pub mod Orders
pub mod Amounts
use arb_system.Base.{
  ℕ, Bool, true, false, not, ◌&&◌, Text, text, upper, before, after, text_has, Option, none, some,
  List, [], ◌∷◌, ◌++◌, Decimal, pos, whole, ◌+ℤ◌, ◌-ℤ◌, neg_ℤ, min_ℤ, max_ℤ, mul_dec, div_dec,
  ltb_ℤ, leb_ℤ, if◌then◌else◌, or_default,
}
use arb_system.Models.{
  Side, OrderType, OrderStatus, OrderBookLevel, OrderBookSnapshot, OrderIntent, UnifiedOrderState,
  side_value,
}
use arb_system.MarketData.Books
use arb_system.MarketData.Books.{Books}
use arb_system.Accounts.Balances.{Balances, adjust_virtual}
use arb_system.Strategy.Fees.{FeeModel, taker_bps}
use arb_system.Execution.Policy.{levels_of}

pub record PaperEngine : Type 0 where
  pub partial_fill_ratio : Decimal
  pub fee_bps : Decimal
  pub fee_model : Option FeeModel

-- What the environment supplies to a call.
pub record Draw : Type 0 where
  -- `probability > 0.0 and random() < probability`
  pub cut : Bool
  pub order_id : Text
  pub exchange_id : Text
  pub time : ℕ

abbrev pub is_limit : OrderType → Bool
is_limit OrderType.market = false
is_limit _ = true

abbrev pub is_fok : OrderType → Bool
is_fok OrderType.fok_limit = true
is_fok _ = false

abbrev pub limit_of : OrderIntent → Option Decimal
limit_of intent = if is_limit intent.order_type then intent.price else none

-- Whether a level is worse than the limit.
abbrev pub beyond : Side → Option Decimal → OrderBookLevel → Bool
beyond side none l = false
beyond Side.buy (some limit) l = ltb_ℤ limit l.price
beyond Side.sell (some limit) l = ltb_ℤ l.price limit

pub record Fill : Type 0 where
  pub remaining : Decimal
  pub filled : Decimal
  pub cost : Decimal

abbrev pub no_fill : Decimal → Fill
no_fill amount = record { remaining = amount; filled = pos 0; cost = pos 0 }

abbrev pub take_level : OrderBookLevel → Fill → Fill
take_level l f =
    let took = min_ℤ f.remaining l.size in
    record {
      remaining = f.remaining -ℤ took;
      filled = f.filled +ℤ took;
      cost = f.cost +ℤ mul_dec took l.price;
    }

-- The loop over the levels, with its three breaks.
unfoldable pub fill_levels : Side → Option Decimal → List OrderBookLevel → Fill → Fill
fill_levels side limit [] f = f
fill_levels side limit (l ∷ ls) f =
    let f' = take_level l f in
    let rest = fill_levels side limit ls f' in
    if beyond side limit l
    then f
    else if leb_ℤ (min_ℤ f.remaining l.size) (pos 0)
    then f
    else if leb_ℤ f'.remaining (pos 0)
    then f'
    else rest

-- `Decimal("0.0000000001")`
abbrev pub dust : Decimal
dust = pos 1_000_000_000_000_000_000

-- Fill or kill: all or nothing.
unfoldable pub kill_partial : OrderIntent → Fill → Fill
kill_partial intent f =
    if is_fok intent.order_type && ltb_ℤ dust f.remaining then no_fill intent.amount else f

-- The cut of a fill by the dice.
unfoldable pub cut_fill : PaperEngine → Bool → OrderIntent → Fill → Fill
cut_fill p cut intent f =
    let filled = mul_dec f.filled p.partial_fill_ratio in
    if not intent.is_repair && ltb_ℤ (pos 0) f.filled && cut && ltb_ℤ (pos 0) filled
    then record {
      remaining = intent.amount -ℤ filled;
      filled = filled;
      cost = mul_dec filled (div_dec f.cost f.filled);
    }
    else f

unfoldable pub fill_order : PaperEngine → Bool → OrderBookSnapshot → OrderIntent → Fill
fill_order p cut book intent = cut_fill p cut intent (
    kill_partial intent (
      fill_levels intent.side (limit_of intent) (levels_of intent.side book)
        (no_fill intent.amount)))

abbrev pub fee_rate : PaperEngine → OrderIntent → Option FeeModel → Decimal
fee_rate p intent none = p.fee_bps
fee_rate p intent (some m) = taker_bps m intent.exchange intent.symbol (side_value intent.side)

unfoldable pub fee_of : PaperEngine → OrderIntent → Fill → Option Decimal
fee_of p intent f =
    if ltb_ℤ (pos 0) f.filled
    then some (div_dec (mul_dec f.cost (fee_rate p intent p.fee_model)) (whole 10000))
    else none

unfoldable pub status_of : Fill → OrderStatus
status_of f =
    if leb_ℤ f.remaining dust
    then OrderStatus.filled
    else if ltb_ℤ (pos 0) f.filled
    then OrderStatus.partially_filled
    else OrderStatus.cancelled

-- The two balance changes of a fill: the base asset, then the quote asset.
unfoldable pub settle : Side → Text → Text → Text → Fill → Decimal → ℕ → Balances → Balances
settle Side.buy ex base quote f fee now b =
    adjust_virtual ex quote (neg_ℤ (f.cost +ℤ fee)) now (adjust_virtual ex base f.filled now b)
settle Side.sell ex base quote f fee now b =
    adjust_virtual ex quote (f.cost -ℤ fee) now (adjust_virtual ex base (neg_ℤ f.filled) now b)

unfoldable pub book_fill :
    OrderIntent → Fill → Option Decimal → ℕ → Option Balances → Option Balances
unfolding settle
book_fill intent f fee now none = none
book_fill intent f fee now (some b) =
    let symbol = upper intent.symbol in
    some (
      if ltb_ℤ (pos 0) f.filled && text_has b'/' intent.symbol
      then settle intent.side intent.exchange (before b'/' symbol) (after b'/' symbol) f
          (or_default fee (pos 0)) now b
      else b)

abbrev pub rejected_order : Draw → OrderIntent → UnifiedOrderState
rejected_order d intent = record {
  internal_order_id = d.order_id;
  hedge_group_id = intent.hedge_group_id;
  exchange = intent.exchange;
  symbol = intent.symbol;
  side = intent.side;
  price = intent.price;
  amount = intent.amount;
  filled = pos 0;
  remaining = intent.amount;
  avg_fill_price = none;
  status = OrderStatus.rejected;
  created_at = d.time;
  updated_at = d.time;
  exchange_order_id = none;
  client_order_id = none;
  fee_amount = none;
  fee_asset = none;
  is_repair = intent.is_repair;
}

abbrev pub filled_order : Draw → OrderIntent → Fill → Option Decimal → UnifiedOrderState
filled_order d intent f fee = record {
  internal_order_id = d.order_id;
  hedge_group_id = intent.hedge_group_id;
  exchange = intent.exchange;
  symbol = intent.symbol;
  side = intent.side;
  price = intent.price;
  amount = intent.amount;
  filled = f.filled;
  remaining = max_ℤ (pos 0) f.remaining;
  avg_fill_price = if ltb_ℤ (pos 0) f.filled then some (div_dec f.cost f.filled) else none;
  status = status_of f;
  created_at = d.time;
  updated_at = d.time;
  exchange_order_id = some (text "paper-" ++ d.exchange_id);
  client_order_id = intent.client_order_id;
  fee_amount = fee;
  fee_asset = some (before b'/' (after b'/' intent.symbol));
  is_repair = intent.is_repair;
}

-- `intent.symbol.split("/")[1]` raises on a symbol with no slash.
abbrev pub simulate_on :
    PaperEngine
    → Draw
    → OrderIntent
    → Option Balances
    → Option OrderBookSnapshot
    → Option UnifiedOrderState × Option Balances
simulate_on p d intent b none = (some (rejected_order d intent), b)
simulate_on p d intent b (some book) =
    let f = fill_order p d.cut book intent in
    let fee = fee_of p intent f in
    if text_has b'/' intent.symbol
    then (some (filled_order d intent f fee), book_fill intent f fee d.time b)
    else (none, b)

unfoldable pub simulate :
    PaperEngine
    → Books
    → Draw
    → OrderIntent
    → Option Balances
    → Option UnifiedOrderState × Option Balances
simulate p books d intent b =
    simulate_on p d intent b (Books.get books intent.exchange intent.symbol)
