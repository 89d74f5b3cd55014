-- ===== src/Tests/Data.antt =====
-- A small market: two exchanges, one symbol, and the components set up for paper trading.
use arb_system.Base.{ℕ, suc, ◌+◌, ◌-◌, true, false, Text, text, none, some, [], ◌∷◌, pos, whole}
use arb_system.Models.{
  Mode, Side, OrderType, HedgeState, OrderBookLevel, OrderBookSnapshot, ArbitrageOpportunity,
  OrderIntent, HedgeGroupState,
}
use arb_system.Settings.{Settings}
use arb_system.MarketData.Books.{Books}
use arb_system.Accounts.Balances.{Balances}
use arb_system.Strategy.Fees.{FeeModel}
use arb_system.Strategy.Spread.{SpreadCalculator}
use arb_system.Risk.Breaker.{BreakerConfig, fresh_breaker}
use arb_system.Risk.Exposure.{no_exposure}
use arb_system.Risk.Engine.{RiskEngine, Now}
use arb_system.Execution.PaperFill.{Draw}
use arb_system.Execution.Tracker.{no_orders}
use arb_system.Execution.Submission.{Submit}
use arb_system.Execution.Router.{dry_order}
use arb_system.Execution.Coordinator.Desk.{Coordinator, Moment, Desk}
use arb_system.Execution.Coordinator.Gates.{new_group}

abbrev pub btc : Text
btc = text "BTC/USDT"

abbrev pub north : Text
north = text "north"

abbrev pub south : Text
south = text "south"

abbrev pub settings : Settings
settings = record {
  mode = Mode.paper_trade;
  enabled_symbols = [];
  symbol_tier1 = text "BTC/USDT, ETH/USDT";
  symbol_tier2 = text "XRP/USDT";
  symbol_tier3 = [];
  symbol_tier1_enabled = true;
  symbol_tier2_enabled = false;
  symbol_tier3_enabled = true;
  min_net_edge_bps = whole 5;
  min_profit_quote = whole 0;
  min_liquidity_usdt = whole 0;
  min_order_size_quote = whole 10;
  max_notional_per_trade = whole 200;
  cooldown_seconds = 30;
  max_exposure_per_exchange = whole 500;
  max_total_open_hedges = 3;
  max_repair_attempts = 2;
  max_balance_staleness_sec = 10;
  max_book_age_ms_for_trade = 500;
  max_signal_to_order_ms = 300;
  max_repair_loss_quote = whole 50;
  min_in_band_depth_ratio = whole 1;
  max_daily_loss_quote = whole 100;
  max_consecutive_losing_trades = 4;
  order_type_policy = OrderType.ioc_limit;
  ioc_price_buffer_bps = whole 10;
}

abbrev pub level : ℕ → ℕ → OrderBookLevel
level price size = record { price = whole price; size = whole size }

abbrev pub book_at : Text → ℕ → ℕ → OrderBookSnapshot
book_at exchange bid ask = record {
  exchange = exchange;
  symbol = btc;
  bids = level bid 3 ∷ level (bid - 1) 5 ∷ [];
  asks = level ask 2 ∷ level (ask + 1) 4 ∷ [];
  ts_local = 1_000;
}

abbrev pub north_book : OrderBookSnapshot
north_book = book_at north 99 100

abbrev pub south_book : OrderBookSnapshot
south_book = book_at south 103 104

abbrev pub books : Books
books = record {
  max_stale_ms = 1_000;
  entries =
      ((north, btc), record { snapshot = north_book; received_at_ms = 1_000 })
      ∷ ((south, btc), record { snapshot = south_book; received_at_ms = 1_100 })
      ∷ [];
  subscribers = [];
}

abbrev pub balances : Balances
balances = record {
  snapshots =
      (
        (north, text "USDT"),
        record {
          exchange = north;
          asset = text "USDT";
          free = whole 1_000;
          locked = pos 0;
          total = whole 1_000;
          ts_local = 900;
        },
      )
      ∷ (
        (south, text "BTC"),
        record {
          exchange = south;
          asset = text "BTC";
          free = whole 5;
          locked = pos 0;
          total = whole 5;
          ts_local = 900;
        },
      )
      ∷ [];
  last_ms = (north, 900) ∷ (south, 900) ∷ [];
  reserved = [];
}

abbrev pub opportunity : ArbitrageOpportunity
opportunity = record {
  opportunity_id = text "op1";
  symbol = btc;
  buy_exchange = north;
  sell_exchange = south;
  buy_price = whole 100;
  sell_price = whole 103;
  gross_spread_bps = whole 300;
  buy_fee_bps = whole 0;
  sell_fee_bps = whole 0;
  slippage_bps = whole 0;
  buffer_bps = whole 0;
  net_edge_bps = whole 300;
  max_tradable_size = whole 2;
  expected_profit_quote = whole 6;
  detected_at = 1_150;
  buy_book_age_ms = some 150;
  sell_book_age_ms = some 50;
}

abbrev pub fees : FeeModel
fees = record {
  override_bps = none;
  rate = λ _ _ _. none;
  table = record { default_bps = whole 10; per_exchange_bps = []; per_symbol_bps = [] };
}

abbrev pub calculator : SpreadCalculator
calculator = record { fees = fees; buffer_default = whole 2; buffer_override = none }

abbrev pub breaker_config : BreakerConfig
breaker_config = record {
  max_consec = 3;
  window_sec = 60;
  window_min = 4;
  ratio_num = 1;
  ratio_den = 2;
  max_losses_static = some 2;
}

abbrev pub engine : RiskEngine
engine = record {
  settings = settings;
  kill = record { on = false; reason = none; since = 0 };
  breaker = fresh_breaker;
  books = books;
  balances = balances;
  exposure = no_exposure;
  cooldown = [];
  daily_loss = pos 0;
  daily_day = none;
}

abbrev pub today : Now
today = record { ms = 1_200; us = 1_200_000; day = 7 }

abbrev pub draw : ℕ → Draw
draw n = record { cut = false; order_id = n ∷ []; exchange_id = n ∷ []; time = 1_250 }

-- A router that fills every order, as in dry-run, and counts them.
abbrev pub dry_submit : Submit ℕ
dry_submit intent n = (some (dry_order (draw n) intent), suc n)

abbrev pub coordinator : Coordinator ℕ
coordinator = record {
  settings = settings;
  submit = dry_submit;
  cancel = λ _ n. n;
  calculator = some calculator;
  breaker_config = breaker_config;
}

abbrev pub moment : Moment
moment = record {
  hedge_id = text "h1";
  now = 1_200;
  filled_at = 1_300;
  ended_at = 1_400;
  buy_client = text "b";
  sell_client = text "s";
  repair_client = text "r";
  buy_recorded = 1_300_000;
  sell_recorded = 1_300_001;
  max_losses = none;
  books = books;
  repair_books = books;
}

abbrev pub desk : Desk ℕ
desk = record {
  hedges = [];
  exposure = no_exposure;
  breaker = some fresh_breaker;
  tracker = no_orders;
  world = 0;
}

-- A hedge of two that bought two and sold one.
abbrev pub uneven : HedgeGroupState
uneven = record (new_group moment opportunity (whole 2)) {
  state = HedgeState.failed_needs_repair;
  executed_buy_amount = whole 2;
  executed_sell_amount = whole 1;
  net_position_base = whole 1;
  realized_pnl_quote = some (whole 3);
}

abbrev pub an_intent : OrderIntent
an_intent = record {
  hedge_group_id = text "h1";
  exchange = north;
  symbol = btc;
  side = Side.buy;
  order_type = OrderType.fok_limit;
  amount = whole 2;
  price = some (whole 101);
  client_order_id = none;
  is_repair = false;
}
