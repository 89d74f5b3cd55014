-- ===== src/Strategy/Fees.antt =====
-- app/strategy/fee_model.py. What the override getter answers and the rate that an adapter reports
-- are arguments; no rate stands for an adapter that is missing or raises.
use arb_system.Base.{
  Text, upper, Option, none, some, Decimal, pos, whole, mul_dec, div_dec, ltb_ℤ, Dict, lookup,
  text_key, pair_key, or_default, if◌then◌else◌,
}

pub record FeeTable : Type 0 where
  pub default_bps : Decimal
  pub per_exchange_bps : Dict Text Decimal
  pub per_symbol_bps : Dict (Text × Text) Decimal

unfoldable pub get_bps : FeeTable → Text → Text → Decimal
get_bps t exchange symbol =
    or_default (lookup (exchange, upper symbol) t.per_symbol_bps)
      (or_default (lookup exchange t.per_exchange_bps) t.default_bps)

pub record FeeModel : Type 0 where
  pub override_bps : Option Decimal
  pub rate : Text → Text → Text → Option Decimal
  pub table : FeeTable

-- Steps 2 and 3 of `taker_bps`.
abbrev rate_or : Option Decimal → Decimal → Decimal
rate_or none d = d
rate_or (some r) d = if ltb_ℤ (pos 0) r then mul_dec r (whole 10000) else d

unfoldable pub taker_bps : FeeModel → Text → Text → Text → Decimal
taker_bps m exchange symbol side =
    or_default m.override_bps
      (rate_or (m.rate exchange symbol side) (get_bps m.table exchange symbol))

unfoldable pub fee_cost_quote : FeeModel → Text → Text → Text → Decimal → Decimal
fee_cost_quote m exchange symbol side notional =
    div_dec (mul_dec notional (taker_bps m exchange symbol side)) (whole 10000)
