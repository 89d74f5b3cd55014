-- ===== src/Models/Enums.antt =====
-- app/common/enums.py. Members are compared by their positions.
use arb_system.Base.{ℕ, Bool, true, false, ◌==◌, Text, text}

pub data Mode : Type 0 where
  dry_run paper_trade live : Mode

pub data Side : Type 0 where
  buy sell : Side

pub data OrderType : Type 0 where
  limit market ioc_limit fok_limit : OrderType

pub data OrderStatus : Type 0 where
  created submitted partially_filled filled cancel_requested cancelled rejected expired unknown :
      OrderStatus

pub data HedgeState : Type 0 where
  new planning submitting hedging completed failed_needs_repair repairing aborted : HedgeState

pub data RejectReason : Type 0 where
  kill_switch circuit_breaker market_data_stale below_min_edge below_min_profit below_min_size
        insufficient_balance max_exposure too_many_open_hedges cooldown_active mode_disallowed
        symbol_not_whitelisted exchange_unhealthy book_too_old signal_too_old daily_loss_limit
        consecutive_loss_limit other :
      RejectReason

abbrev pub is_dry_run : Mode → Bool
is_dry_run Mode.dry_run = true
is_dry_run _ = false

abbrev pub is_live : Mode → Bool
is_live Mode.live = true
is_live _ = false

abbrev pub is_buy : Side → Bool
is_buy Side.buy = true
is_buy Side.sell = false

-- `side.value`
abbrev pub side_value : Side → Text
side_value Side.buy = text "buy"
side_value Side.sell = text "sell"

-- The other side.
abbrev pub opposite : Side → Side
opposite Side.buy = Side.sell
opposite Side.sell = Side.buy

abbrev pub is_filled : OrderStatus → Bool
is_filled OrderStatus.filled = true
is_filled _ = false

-- Positions in the declarations above, by which members are compared.
abbrev pub hedge_index : HedgeState → ℕ
hedge_index HedgeState.new = 0
hedge_index HedgeState.planning = 1
hedge_index HedgeState.submitting = 2
hedge_index HedgeState.hedging = 3
hedge_index HedgeState.completed = 4
hedge_index HedgeState.failed_needs_repair = 5
hedge_index HedgeState.repairing = 6
hedge_index HedgeState.aborted = 7

abbrev pub status_index : OrderStatus → ℕ
status_index OrderStatus.created = 0
status_index OrderStatus.submitted = 1
status_index OrderStatus.partially_filled = 2
status_index OrderStatus.filled = 3
status_index OrderStatus.cancel_requested = 4
status_index OrderStatus.cancelled = 5
status_index OrderStatus.rejected = 6
status_index OrderStatus.expired = 7
status_index OrderStatus.unknown = 8

abbrev pub hedge_eq : HedgeState → HedgeState → Bool
hedge_eq a b = hedge_index a == hedge_index b

abbrev pub status_eq : OrderStatus → OrderStatus → Bool
status_eq a b = status_index a == status_index b
