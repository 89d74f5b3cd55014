-- ===== src/Risk/Health/Laws.antt =====
-- What the two health gates of app/risk/health_guard.py let pass.
use arb_system.Base.{
  ℕ, ◌≡◌, refl, ◌↔◌, true, false, Text, text_eq_iff, text_key, contains, List, [], ◌∷◌, arith, All,
}
use arb_system.Models.{is_live}
use arb_system.Settings.{enabled_symbol_list}
use arb_system.MarketData.Books
use arb_system.Risk.Health.{
  HealthGuard, balance_ok_at, stale_symbols, is_empty, all_ok, all_ok_for_trade,
}

-- A leg that may be traded: its own book is fresh and, in live mode, its balances are.
abbrev pub IsTradable : HealthGuard → ℕ → Text → Text → Type 0
IsTradable g now symbol ex =
    (Books.is_stale g.books ex symbol now ≡ false)
    × (is_live g.settings.mode ≡ true → balance_ok_at g now ex ≡ true)

-- The trade-level gate passes exactly when every exchange named has a fresh book of the traded
-- symbol and, in live mode, fresh balances; no other symbol matters.
pub all_ok_for_trade_iff :
    (g : HealthGuard) (now : ℕ) (exs : List Text) (symbol : Text)
    → (all_ok_for_trade g now exs symbol ≡ true) ↔ All (IsTradable g now symbol) exs
unfolding all_ok_for_trade
all_ok_for_trade_iff g now [] symbol = (λ _. tt, λ _. refl)
all_ok_for_trade_iff g now (ex ∷ exs) symbol =
    let (to, from) = all_ok_for_trade_iff g now exs symbol in
    (λ h. (ground arith, to (ground arith)), λ h. ground (arith, from h.1, h.0))

no_stale_symbols :
    (g : HealthGuard) (now : ℕ) (ex s : Text) (ss : List Text)
    → is_empty (stale_symbols g.books ex now ss) ≡ true
    → contains s ss ≡ true
    → Books.is_stale g.books ex s now ≡ false
unfolding stale_symbols contains
no_stale_symbols g now ex s [] h m = cc
no_stale_symbols g now ex s (t ∷ ss) h m =
    ground (arith, text_eq_iff t s, no_stale_symbols g now ex s ss)

-- The dashboard gate is the stricter one: when it passes, the trade-level gate passes for every
-- enabled symbol on the same exchanges.
pub all_ok-trade :
    (g : HealthGuard) (now : ℕ) (exs : List Text) (symbol : Text)
    → contains symbol (enabled_symbol_list g.settings) ≡ true
    → all_ok g now exs ≡ true
    → all_ok_for_trade g now exs symbol ≡ true
unfolding all_ok all_ok_for_trade
all_ok-trade g now [] symbol m h = refl
all_ok-trade g now (ex ∷ exs) symbol m h = ground (
  arith,
  no_stale_symbols g now ex symbol (enabled_symbol_list g.settings),
  all_ok-trade g now exs symbol m,
)
