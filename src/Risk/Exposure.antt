-- ===== src/Risk/Exposure.antt =====
-- app/risk/exposure_manager.py.
pub mod Claims
use arb_system.Base.{
  ℕ, Text, Decimal, pos, ◌+ℤ◌, ◌-ℤ◌, max_ℤ, Dict, lookup, insert, add_key, discard, length, List,
  [], or_default, text_key,
}

pub record Exposure : Type 0 where
  -- exchange -> notional quote in flight
  pub in_flight_of : Dict Text Decimal
  pub open_hedges : List Text

abbrev pub no_exposure : Exposure
no_exposure = record { in_flight_of = []; open_hedges = [] }

unfoldable pub in_flight : Exposure → Text → Decimal
in_flight x exchange = or_default (lookup exchange x.in_flight_of) (pos 0)

unfoldable pub add : Text → Decimal → Text → Exposure → Exposure
unfolding in_flight
add exchange notional hedge x = record {
  in_flight_of = insert exchange (in_flight x exchange +ℤ notional) x.in_flight_of;
  open_hedges = add_key hedge x.open_hedges;
}

unfoldable pub release : Text → Decimal → Text → Exposure → Exposure
unfolding in_flight
release exchange notional hedge x = record {
  in_flight_of = insert exchange (max_ℤ (pos 0) (in_flight x exchange -ℤ notional)) x.in_flight_of;
  open_hedges = discard hedge x.open_hedges;
}

unfoldable pub open_count : Exposure → ℕ
open_count x = length x.open_hedges
