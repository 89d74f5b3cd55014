-- ===== src/Models/Order.antt =====
-- app/models/order.py, without the raw exchange reply that no component reads.
use arb_system.Base.{ℕ, Bool, Text, Decimal, Option}
use arb_system.Models.Enums.{Side, OrderType, OrderStatus}

pub record OrderIntent : Type 0 where
  pub hedge_group_id : Text
  pub exchange : Text
  pub symbol : Text
  pub side : Side
  pub order_type : OrderType
  pub amount : Decimal
  pub price : Option Decimal
  pub client_order_id : Option Text
  pub is_repair : Bool

pub record UnifiedOrderState : Type 0 where
  pub internal_order_id : Text
  pub hedge_group_id : Text
  pub exchange : Text
  pub symbol : Text
  pub side : Side
  pub price : Option Decimal
  pub amount : Decimal
  pub filled : Decimal
  pub remaining : Decimal
  pub avg_fill_price : Option Decimal
  pub status : OrderStatus
  pub created_at : ℕ
  pub updated_at : ℕ
  pub exchange_order_id : Option Text
  pub client_order_id : Option Text
  pub fee_amount : Option Decimal
  pub fee_asset : Option Text
  pub is_repair : Bool
