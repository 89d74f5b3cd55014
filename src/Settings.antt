-- ===== src/Settings.antt =====
-- The settings of app/config/settings.py that the modelled components read. Every field of the
-- program's class has a default, so `getattr` with a fallback always finds it.
pub mod Symbols
use arb_system.Base.{
  ℕ, Bool, true, false, Text, Decimal, List, [], ◌∷◌, ◌++◌, split, strip, contains, text_key,
  if◌then◌else◌,
}
use arb_system.Models.{Mode, OrderType}

pub record Settings : Type 0 where
  pub mode : Mode
  pub enabled_symbols : Text
  pub symbol_tier1 : Text
  pub symbol_tier2 : Text
  pub symbol_tier3 : Text
  pub symbol_tier1_enabled : Bool
  pub symbol_tier2_enabled : Bool
  pub symbol_tier3_enabled : Bool
  pub min_net_edge_bps : Decimal
  pub min_profit_quote : Decimal
  pub min_liquidity_usdt : Decimal
  pub min_order_size_quote : Decimal
  pub max_notional_per_trade : Decimal
  pub cooldown_seconds : ℕ
  pub max_exposure_per_exchange : Decimal
  pub max_total_open_hedges : ℕ
  pub max_repair_attempts : ℕ
  pub max_balance_staleness_sec : ℕ
  pub max_book_age_ms_for_trade : ℕ
  pub max_signal_to_order_ms : ℕ
  pub max_repair_loss_quote : Decimal
  pub min_in_band_depth_ratio : Decimal
  pub max_daily_loss_quote : Decimal
  pub max_consecutive_losing_trades : ℕ
  pub order_type_policy : OrderType
  pub ioc_price_buffer_bps : Decimal

-- `[s for s in parts if s]`
unfoldable pub non_empty : List Text → List Text
non_empty [] = []
non_empty ([] ∷ ps) = non_empty ps
non_empty ((c ∷ s) ∷ ps) = (c ∷ s) ∷ non_empty ps

-- `[x.strip() for x in parts]`
unfoldable pub strip_all : List Text → List Text
strip_all [] = []
strip_all (p ∷ ps) = strip p ∷ strip_all ps

abbrev first_or : Text → List Text → Text
first_or d [] = d
first_or d (x ∷ _) = x

-- The first exchange that a strategy names, or the one of the older setting.
unfoldable pub selected_exchange : Text → Text → Text
selected_exchange raw fallback = first_or fallback (non_empty (strip_all (split b',' (strip raw))))

-- The body of the loop over a tier, for a stripped part; `seen` holds just what `out` holds.
unfoldable pub add_symbol : Text → List Text → List Text
add_symbol [] out = out
add_symbol (c ∷ s) out = if contains (c ∷ s) out then out else out ++ ((c ∷ s) ∷ [])

unfoldable pub add_parts : List Text → List Text → List Text
add_parts [] out = out
add_parts (p ∷ ps) out = add_parts ps (add_symbol (strip p) out)

unfoldable pub add_tier : Bool → Text → List Text → List Text
add_tier false raw out = out
add_tier true raw out = add_parts (split b',' raw) out

abbrev from_tiers : Settings → List Text
from_tiers s = add_tier s.symbol_tier3_enabled s.symbol_tier3 (
    add_tier s.symbol_tier2_enabled s.symbol_tier2
      (add_tier s.symbol_tier1_enabled s.symbol_tier1 []))

abbrev pub or_tiers : Text → List Text → List Text
or_tiers [] tiers = tiers
or_tiers (c ∷ s) tiers = non_empty (split b',' (c ∷ s))

unfoldable pub enabled_symbol_list : Settings → List Text
enabled_symbol_list s = or_tiers s.enabled_symbols (from_tiers s)
