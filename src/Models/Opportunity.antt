-- ===== src/Models/Opportunity.antt =====
-- app/models/opportunity.py, without the fields that only the database and the user interface read.
use arb_system.Base.{ℕ, Text, Decimal, Option}

pub record ArbitrageOpportunity : Type 0 where
  pub opportunity_id : Text
  pub symbol : Text
  pub buy_exchange : Text
  pub sell_exchange : Text
  pub buy_price : Decimal
  pub sell_price : Decimal
  pub gross_spread_bps : Decimal
  pub buy_fee_bps : Decimal
  pub sell_fee_bps : Decimal
  pub slippage_bps : Decimal
  pub buffer_bps : Decimal
  pub net_edge_bps : Decimal
  pub max_tradable_size : Decimal
  pub expected_profit_quote : Decimal
  pub detected_at : ℕ
  pub buy_book_age_ms : Option ℕ
  pub sell_book_age_ms : Option ℕ
