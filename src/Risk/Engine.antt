-- ===== src/Risk/Engine.antt =====
-- app/risk/rules.py: the risk engine. A decision is without its `detail` text. One reading of the
-- clocks serves a whole call.
pub mod Checks
pub mod Approved
pub mod Limits
pub mod Daily
use arb_system.Base.{
  ℕ, ◌+◌, ◌*◌, Bool, true, false, not, ◌||◌, ◌&&◌, Text, text_eq, upper, before, after, text_has,
  Option, none, some, List, [], ◌∷◌, map, Decimal, pos, whole, ◌+ℤ◌, ◌-ℤ◌, neg_ℤ, max_ℤ, min_ℤ,
  mul_dec, div_dec, ltb_ℤ, leb_ℤ, eqb_ℤ, ltb, leb, ◌==◌, Dict, lookup, insert, contains, text_key,
  or_default, if◌then◌else◌,
}
use arb_system.Models.{Mode, is_dry_run, is_live, RejectReason, ArbitrageOpportunity}
use arb_system.Settings.{Settings, enabled_symbol_list}
use arb_system.MarketData.Books.{Books}
use arb_system.Accounts.Balances
use arb_system.Accounts.Balances.{Balances}
use arb_system.Risk.KillSwitch.{KillSwitch}
use arb_system.Risk.Breaker.{Breaker}
use arb_system.Risk.Exposure.{Exposure, in_flight, open_count}
use arb_system.Risk.Health.{HealthGuard, all_ok_for_trade}
use Checks.{Check, passed, rejected, raised, ◌>>=◌, ◌>>◌, reject_if}

pub record Now : Type 0 where
  -- `utcnow_ms()`
  pub ms : ℕ
  -- `time.time()`, in microseconds
  pub us : ℕ
  -- the UTC day, counted
  pub day : ℕ

pub record RiskEngine : Type 0 where
  pub settings : Settings
  pub kill : KillSwitch
  pub breaker : Breaker
  pub books : Books
  pub balances : Balances
  pub exposure : Exposure
  -- symbol -> end of the cooldown, in microseconds
  pub cooldown : Dict Text ℕ
  pub daily_loss : Decimal
  pub daily_day : Option ℕ

pub record Approval : Type 0 where
  pub amount : Decimal
  pub notional : Decimal

abbrev same_day : Option ℕ → ℕ → Bool
same_day none d = false
same_day (some e) d = e == d

unfoldable pub record_realized_pnl : Now → Option Decimal → RiskEngine → RiskEngine
record_realized_pnl now none e = e
record_realized_pnl now (some pnl) e =
    let start = if same_day e.daily_day now.day then e.daily_loss else pos 0 in
    record e {
      daily_loss = if ltb_ℤ pnl (pos 0) then start +ℤ neg_ℤ pnl else start;
      daily_day = some now.day;
    }

unfoldable pub daily_loss_quote : Now → RiskEngine → Decimal
daily_loss_quote now e = if same_day e.daily_day now.day then e.daily_loss else pos 0

unfoldable pub set_cooldown : Now → Text → Option ℕ → RiskEngine → RiskEngine
set_cooldown now symbol seconds e = record e {
  cooldown =
      insert (upper symbol) (now.us + or_default seconds e.settings.cooldown_seconds * 1_000_000)
        e.cooldown;
}

unfoldable pub in_cooldown : Now → Text → RiskEngine → Bool
in_cooldown now symbol e = ltb now.us (or_default (lookup (upper symbol) e.cooldown) 0)

abbrev pub guard : RiskEngine → HealthGuard
guard e = record { books = e.books; balances = e.balances; settings = e.settings }

abbrev pub older : Option ℕ → ℕ → Bool
older none limit = false
older (some age) limit = ltb limit age

-- The gates before sizing, in their order.
unfoldable pub market_gates : RiskEngine → Now → ArbitrageOpportunity → Check (Unit {0})
market_gates e now opp = do
  reject_if e.kill.on RejectReason.kill_switch
  reject_if e.breaker.tripped RejectReason.circuit_breaker
  reject_if (not (contains (upper opp.symbol) (map upper (enabled_symbol_list e.settings))))
      RejectReason.symbol_not_whitelisted
  reject_if (in_cooldown now opp.symbol e) RejectReason.cooldown_active
  reject_if
      (not
        (all_ok_for_trade (guard e) now.ms (opp.buy_exchange ∷ opp.sell_exchange ∷ []) opp.symbol))
      RejectReason.exchange_unhealthy
  reject_if (older opp.buy_book_age_ms e.settings.max_book_age_ms_for_trade)
      RejectReason.book_too_old
  reject_if (older opp.sell_book_age_ms e.settings.max_book_age_ms_for_trade)
      RejectReason.book_too_old
  reject_if (ltb_ℤ opp.net_edge_bps e.settings.min_net_edge_bps) RejectReason.below_min_edge
  reject_if (ltb_ℤ opp.expected_profit_quote e.settings.min_profit_quote)
      RejectReason.below_min_profit

-- `opp.buy_price or Decimal(1)`
unfoldable pub mid_of : ArbitrageOpportunity → Decimal
mid_of opp = if eqb_ℤ opp.buy_price (pos 0) then whole 1 else opp.buy_price

unfoldable pub headroom : RiskEngine → Text → Decimal
headroom e ex = max_ℤ (pos 0) (e.settings.max_exposure_per_exchange -ℤ in_flight e.exposure ex)

-- `base, quote = symbol.split("/")`, which raises unless there is exactly one slash.
unfoldable pub split_pair : Text → Option (Text × Text)
split_pair s =
    if text_has b'/' s && not (text_has b'/' (after b'/' s))
    then some (before b'/' s, after b'/' s)
    else none

unfoldable pub min_list : Decimal → List Decimal → Decimal
min_list a [] = a
min_list a (b ∷ bs) = min_list (min_ℤ a b) bs

-- The sizes that need no balance.
abbrev pub free_candidates : RiskEngine → ArbitrageOpportunity → List Decimal
free_candidates e opp =
    let mid = mid_of opp in
    div_dec e.settings.max_notional_per_trade mid
    ∷ div_dec (headroom e opp.buy_exchange) mid
    ∷ div_dec (headroom e opp.sell_exchange) mid
    ∷ []

-- The sizes that the balances allow, for the base and the quote asset.
abbrev pub balance_candidates : RiskEngine → ArbitrageOpportunity → Text × Text → List Decimal
balance_candidates e opp (base, quote) =
    let mid = mid_of opp in
    let quote_avail = Balances.free e.balances opp.buy_exchange quote in
    (if ltb_ℤ (pos 0) mid then div_dec quote_avail mid else pos 0)
    ∷ Balances.free e.balances opp.sell_exchange base
    ∷ []

unfoldable pub approved_amount : RiskEngine → ArbitrageOpportunity → Check Decimal
approved_amount e opp =
    let capped = min_list opp.max_tradable_size (free_candidates e opp) in
    if is_dry_run e.settings.mode then passed capped else elim (split_pair (upper opp.symbol)) [
      | none ↦ raised
      | some pair ↦ passed (min_list capped (balance_candidates e opp pair))
    ]

-- The gates on the approved size and on the account, in their order.
unfoldable pub account_gates : RiskEngine → Now → Decimal → Check (Unit {0})
account_gates e now notional = do
  reject_if (ltb_ℤ notional e.settings.min_order_size_quote) RejectReason.below_min_size
  reject_if (leb e.settings.max_total_open_hedges (open_count e.exposure))
      RejectReason.too_many_open_hedges
  reject_if
      (is_live e.settings.mode && leb_ℤ e.settings.max_daily_loss_quote (daily_loss_quote now e))
      RejectReason.daily_loss_limit
  reject_if
      (is_live e.settings.mode && leb e.settings.max_consecutive_losing_trades e.breaker.losses)
      RejectReason.consecutive_loss_limit

unfoldable pub evaluate : RiskEngine → Now → ArbitrageOpportunity → Check Approval
evaluate e now opp = do
  market_gates e now opp
  amount ← approved_amount e opp
  let notional = mul_dec amount (mid_of opp)
  account_gates e now notional
  passed (record { amount = amount; notional = notional })
