-- ===== src/Execution/MakerTaker.antt =====
-- app/execution/maker_taker_executor.py: its records, the report and the ring. Texts that the reports
-- show are data: the reasons, the results of legs and the amounts.
pub mod Wait
pub mod Hedge
pub mod Execute
pub mod Crossing
pub mod Waiting
pub mod Sales
pub mod Calm
pub mod Endings
use arb_system.Base.{
  ℕ, Bool, Text, text, Option, none, some, List, [], ◌∷◌, ◌++◌, take, Decimal, pos, eqb_ℤ, ℤ,
  negsuc, neg_ℤ, suc, ◌*◌, round_div, if◌then◌else◌, append_bounded,
}
use mathlib.Core.List.{reverse}
use arb_system.Models.{Mode, OrderStatus, OrderIntent, UnifiedOrderState, ArbitrageOpportunity}

-- The settings that the executor reads (app/config/settings.py). The timeout of the hedge order stands
-- in the reply to it, and the interval of the polls in their times.
pub record MakerSettings : Type 0 where
  pub mode : Mode
  pub maker_offset_bps : Decimal
  pub min_fill_ratio : Decimal
  pub max_wait_ms : ℕ
  pub max_price_deviation_bps : Decimal
  pub ioc_price_buffer_bps : Decimal

pub data MakerState : Type 0 where
  posted partial_filled full_filled hedging done canceled panic_closing flat : MakerState

-- How the wait for the maker ended; it never returns NO_FILL.
pub data FillState : Type 0 where
  full partial timeout price_drift : FillState

pub data MakerReason : Type 0 where
  missing_orderbook_snapshot no_best_bid max_wait_ms price_drift_exceeded : MakerReason
  fill_ratio_below_min : Decimal → Decimal → MakerReason
  hedge_timeout_panic_closed hedge_partial_panic_closed all_well : MakerReason

pub data LegKind : Type 0 where
  maker_buy hedge_sell panic_close : LegKind

pub data LegEnd : Type 0 where
  waited : FillState → LegEnd
  answered : OrderStatus → LegEnd
  timed_out error : LegEnd

pub record MakerLeg : Type 0 where
  pub leg : LegKind
  pub exchange : Text
  pub price : Option Decimal
  pub requested_amount : Option Decimal
  pub filled_amount : Option Decimal
  pub result : LegEnd

pub record MakerTakerReport : Type 0 where
  pub exec_id : Text
  pub hedge_group_id : Text
  pub symbol : Text
  pub buy_exchange : Text
  pub sell_exchange : Text
  pub maker_price : Decimal
  pub maker_amount : Decimal
  pub filled_amount : Decimal
  pub hedge_filled_amount : Decimal
  pub state : MakerState
  pub reason : MakerReason
  pub posted_at : ℕ
  pub completed_at : ℕ
  pub legs : List MakerLeg
  pub realized_profit_quote : Option Decimal

-- `_RING_MAX`
abbrev pub ring_max : ℕ
ring_max = 100

-- `list(_RING)[-limit:][::-1]`, for a limit that is not zero.
unfoldable pub recent_reports : ℕ → List MakerTakerReport → List MakerTakerReport
recent_reports limit ring = take limit (reverse ring)

-- `Decimal("0.00000001")`, in ticks.
abbrev pub quantum : ℕ
quantum = 100_000_000_000_000_000_000

-- `quantize(Decimal("0.00000001"))`: to the nearest multiple, and a tie to the even one.
unfoldable pub quantize : Decimal → Decimal
quantize (pos n) = pos (round_div n quantum * quantum)
quantize (negsuc n) = neg_ℤ (pos (round_div (suc n) quantum * quantum))

-- What the router answers under a timeout: a timeout, another exception, or an order.
pub data Reply : Type 0 where
  late raised : Reply
  replied : UnifiedOrderState → Reply

abbrev pub SubmitWithin : Type 0 → Type 0
SubmitWithin W = OrderIntent → W → Reply × W

pub record MakerDesk (W : Type 0) : Type 0 where
  pub ring : List MakerTakerReport
  pub world : W

-- The result of a call: `None`, a report, or an exception.
pub data Outcome : Type 0 where
  skipped threw : Outcome
  reported : MakerTakerReport → Outcome
