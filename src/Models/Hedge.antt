-- ===== src/Models/Hedge.antt =====
-- app/models/hedge.py. A note is one of the texts that the code appends, with the values that it
-- prints; a failure reason is one of the strings that it writes.
use arb_system.Base.{ℕ, Text, Decimal, Option, List}
use arb_system.Models.Enums.{HedgeState}

pub data FailureReason : Type 0 where
  signal_too_old book_too_old edge_vanished insufficient_depth partial_fill single_leg_failed
        repair_attempts_exhausted repair_skipped_max_loss :
      FailureReason

pub data Note : Type 0 where
  signal_age : ℕ → ℕ → Note
  book_age : Option ℕ → Option ℕ → ℕ → Note
  edge_vanished_at_execution_time : Note
  thin_depth : Decimal → Decimal → Decimal → Decimal → Note
  both_legs_failed sell_leg_failed buy_leg_failed rollback_repair_failed : Note
  attempts_exhausted : ℕ → Note
  pivot_to_filled_leg : Text → Decimal → Text → Decimal → Decimal → Note
  skipped_max_loss : Decimal → Decimal → Note

pub record HedgeGroupState : Type 0 where
  pub hedge_group_id : Text
  pub opportunity_id : Text
  pub symbol : Text
  pub buy_exchange : Text
  pub sell_exchange : Text
  pub target_amount : Decimal
  pub state : HedgeState
  pub created_at : ℕ
  pub updated_at : ℕ
  pub buy_order_id : Option Text
  pub sell_order_id : Option Text
  pub executed_buy_amount : Decimal
  pub executed_sell_amount : Decimal
  pub net_position_base : Decimal
  pub realized_pnl_quote : Option Decimal
  pub expected_profit_quote : Option Decimal
  pub repair_attempts : ℕ
  pub notes : List Note
  pub planning_notional_quote : Decimal
  pub repair_cost_quote : Decimal
  pub expected_profit_quote_at_approved_size : Option Decimal
  pub expected_edge_bps_at_approved_size : Option Decimal
  pub buy_expected_vwap : Option Decimal
  pub sell_expected_vwap : Option Decimal
  pub buy_actual_vwap : Option Decimal
  pub sell_actual_vwap : Option Decimal
  pub actual_fee_quote : Decimal
  pub latency_ms_signal_to_order : Option ℕ
  pub latency_ms_order_to_fill : Option ℕ
  pub failure_reason : Option FailureReason
