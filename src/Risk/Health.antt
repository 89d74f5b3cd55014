-- ===== src/Risk/Health.antt =====
-- app/risk/health_guard.py. `now` is the time of the call, in milliseconds.
pub mod Laws
use arb_system.Base.{
  ℕ, Bool, true, false, not, ◌&&◌, Text, Option, none, some, List, [], ◌∷◌, if◌then◌else◌,
}
use arb_system.Models.{Mode, is_dry_run, is_live}
use arb_system.Settings.{Settings, enabled_symbol_list}
use arb_system.MarketData.Books
use arb_system.MarketData.Books.{Books}
use arb_system.Accounts.Balances
use arb_system.Accounts.Balances.{Balances}

-- The texts of the reasons, with what they name.
pub data HealthReason : Type 0 where
  marketdata_stale_for : List Text → HealthReason
  stale_on : Text → Text → HealthReason
  balance_snapshot_stale : HealthReason

pub record ExchangeHealth : Type 0 where
  pub exchange : Text
  pub marketdata_ok : Bool
  pub balance_ok : Bool
  pub reason : Option HealthReason

pub record HealthGuard : Type 0 where
  pub books : Books
  pub balances : Balances
  pub settings : Settings

abbrev pub balance_ok_at : HealthGuard → ℕ → Text → Bool
balance_ok_at g now ex =
    not (Balances.is_stale g.balances ex g.settings.max_balance_staleness_sec now)

-- The reason, from the two checks and the text for stale market data.
abbrev pub reason_of : Mode → Bool → Bool → HealthReason → Option HealthReason
reason_of mode md_ok bal_ok stale =
    if not md_ok
    then some stale
    else if not bal_ok && not (is_dry_run mode)
    then some HealthReason.balance_snapshot_stale
    else none

unfoldable pub stale_symbols : Books → Text → ℕ → List Text → List Text
stale_symbols b ex now [] = []
stale_symbols b ex now (s ∷ ss) =
    let rest = stale_symbols b ex now ss in if Books.is_stale b ex s now then s ∷ rest else rest

abbrev pub is_empty : List Text → Bool
is_empty [] = true
is_empty (_ ∷ _) = false

unfoldable pub check_exchange : HealthGuard → ℕ → Text → ExchangeHealth
check_exchange g now ex =
    let stale = stale_symbols g.books ex now (enabled_symbol_list g.settings) in
    record {
      exchange = ex;
      marketdata_ok = is_empty stale;
      balance_ok = balance_ok_at g now ex;
      reason =
          reason_of g.settings.mode (is_empty stale) (balance_ok_at g now ex)
            (HealthReason.marketdata_stale_for stale);
    }

unfoldable pub check_for_trade : HealthGuard → ℕ → Text → Text → ExchangeHealth
check_for_trade g now ex symbol =
    let md_ok = not (Books.is_stale g.books ex symbol now) in
    record {
      exchange = ex;
      marketdata_ok = md_ok;
      balance_ok = balance_ok_at g now ex;
      reason =
          reason_of g.settings.mode md_ok (balance_ok_at g now ex)
            (HealthReason.stale_on symbol ex);
    }

-- The body of both loops: whether a health report stops the trade.
abbrev pub acceptable : Mode → ExchangeHealth → Bool
acceptable mode h =
    if not h.marketdata_ok then false else if is_live mode && not h.balance_ok then false else true

unfoldable pub all_ok : HealthGuard → ℕ → List Text → Bool
unfolding check_exchange
all_ok g now [] = true
all_ok g now (ex ∷ exs) =
    let rest = all_ok g now exs in
    if acceptable g.settings.mode (check_exchange g now ex) then rest else false

unfoldable pub all_ok_for_trade : HealthGuard → ℕ → List Text → Text → Bool
unfolding check_for_trade
all_ok_for_trade g now [] symbol = true
all_ok_for_trade g now (ex ∷ exs) symbol =
    let rest = all_ok_for_trade g now exs symbol in
    if acceptable g.settings.mode (check_for_trade g now ex symbol) then rest else false
