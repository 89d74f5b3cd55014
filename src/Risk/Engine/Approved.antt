-- ===== src/Risk/Engine/Approved.antt =====
-- What an approval by app/risk/rules.py guarantees, and when it is given.
use arb_system.Base.{
  ℕ, ◌≤◌, ◌<◌, ◌≡◌, refl, true, false, Text, upper, Option, none, some, List, [], ◌∷◌, map, Decimal,
  ◌≤ℤ◌, ◌<ℤ◌, mul_dec, ltb_ℤ, min_ℤ, min_le, div_dec, All, Bool-cases, Option-cases, inl, inr,
  contains, text_key, arith, or_default, lookup,
}
use arb_system.Models.{is_dry_run, is_live, ArbitrageOpportunity}
use arb_system.Settings.{enabled_symbol_list}
use arb_system.Risk.Health.Laws.{IsTradable, all_ok_for_trade_iff}
use arb_system.Risk.Health.{all_ok_for_trade}
use arb_system.Risk.Exposure.{open_count}
use arb_system.Risk.Engine.{
  RiskEngine, Now, Approval, guard, in_cooldown, market_gates, mid_of, headroom, split_pair,
  min_list, free_candidates, balance_candidates, approved_amount, account_gates, evaluate,
  daily_loss_quote, older,
}
use arb_system.Risk.Engine.Checks.{passed, >>=-eq-passed, passed-injective}

abbrev pub NotOlder : Option ℕ → ℕ → Type 0
NotOlder none limit = Unit
NotOlder (some age) limit = age ≤ limit

NotOlder-of : (a : Option ℕ) (limit : ℕ) → older a limit ≡ false → NotOlder a limit
NotOlder-of none limit h = tt
NotOlder-of (some age) limit h = ground arith

-- The state of the market and of the controls in which a trade may be sized.
pub record IsOpen (e : RiskEngine) (now : Now) (opp : ArbitrageOpportunity) : Type 0 where
  pub not_killed : e.kill.on ≡ false
  pub not_tripped : e.breaker.tripped ≡ false
  pub listed : contains (upper opp.symbol) (map upper (enabled_symbol_list e.settings)) ≡ true
  pub rested : or_default (lookup (upper opp.symbol) e.cooldown) 0 ≤ now.us
  pub buy_tradable : IsTradable (guard e) now.ms opp.symbol opp.buy_exchange
  pub sell_tradable : IsTradable (guard e) now.ms opp.symbol opp.sell_exchange
  pub buy_age : NotOlder opp.buy_book_age_ms e.settings.max_book_age_ms_for_trade
  pub sell_age : NotOlder opp.sell_book_age_ms e.settings.max_book_age_ms_for_trade
  pub edge : e.settings.min_net_edge_bps ≤ℤ opp.net_edge_bps
  pub profit : e.settings.min_profit_quote ≤ℤ opp.expected_profit_quote

-- The tests of the market gates, all of which an opportunity must clear.
abbrev Cleared : RiskEngine → Now → ArbitrageOpportunity → Type 0
Cleared e now opp =
    (e.kill.on ≡ false)
    × (e.breaker.tripped ≡ false)
    × (contains (upper opp.symbol) (map upper (enabled_symbol_list e.settings)) ≡ true)
    × (in_cooldown now opp.symbol e ≡ false)
    × (all_ok_for_trade (guard e) now.ms (opp.buy_exchange ∷ opp.sell_exchange ∷ []) opp.symbol
        ≡ true)
    × (older opp.buy_book_age_ms e.settings.max_book_age_ms_for_trade ≡ false)
    × (older opp.sell_book_age_ms e.settings.max_book_age_ms_for_trade ≡ false)
    × (ltb_ℤ opp.net_edge_bps e.settings.min_net_edge_bps ≡ false)
    × (ltb_ℤ opp.expected_profit_quote e.settings.min_profit_quote ≡ false)

market_gates-Cleared :
    (e : RiskEngine) (now : Now) (opp : ArbitrageOpportunity)
    → market_gates e now opp ≡ passed tt
    → Cleared e now opp
unfolding market_gates
market_gates-Cleared e now opp h = ground arith

Cleared-IsOpen :
    (e : RiskEngine) (now : Now) (opp : ArbitrageOpportunity) → Cleared e now opp → IsOpen e now opp
unfolding in_cooldown
Cleared-IsOpen e now opp (kill, trip, listed, rested, health, buy, sell, edge, profit) =
    let legs =
      (all_ok_for_trade_iff (guard e) now.ms (opp.buy_exchange ∷ opp.sell_exchange ∷ [])
          opp.symbol).0
        health in
    record {
      not_killed = kill;
      not_tripped = trip;
      listed = listed;
      rested = ground arith;
      buy_tradable = legs.0;
      sell_tradable = legs.1.0;
      buy_age = NotOlder-of opp.buy_book_age_ms e.settings.max_book_age_ms_for_trade buy;
      sell_age = NotOlder-of opp.sell_book_age_ms e.settings.max_book_age_ms_for_trade sell;
      edge = ground arith;
      profit = ground arith;
    }

min_list-le :
    (a : Decimal) (bs : List Decimal) → (min_list a bs ≤ℤ a) × All (λ b. min_list a bs ≤ℤ b) bs
unfolding min_list
min_list-le a [] = (omega arith, tt)
min_list-le a (b ∷ bs) =
    let (first, rest) = min_list-le (min_ℤ a b) bs in
    let (left, right) = min_le a b in (omega arith, (omega arith, rest))

-- The sizes that the limits and, outside dry-run, the free balances allow.
pub record IsSized (e : RiskEngine) (opp : ArbitrageOpportunity) (amount : Decimal) : Type 0 where
  pub depth : amount ≤ℤ opp.max_tradable_size
  pub cap : amount ≤ℤ div_dec e.settings.max_notional_per_trade (mid_of opp)
  pub buy_room : amount ≤ℤ div_dec (headroom e opp.buy_exchange) (mid_of opp)
  pub sell_room : amount ≤ℤ div_dec (headroom e opp.sell_exchange) (mid_of opp)
  pub funded :
      is_dry_run e.settings.mode ≡ false
      → (pair : Text × Text) × (split_pair (upper opp.symbol) ≡ some pair)
        × All (λ b. amount ≤ℤ b) (balance_candidates e opp pair)

IsSized-capped :
    (e : RiskEngine) (opp : ArbitrageOpportunity) (amount : Decimal)
    → amount ≤ℤ min_list opp.max_tradable_size (free_candidates e opp)
    → (is_dry_run e.settings.mode ≡ false
        → (pair : Text × Text) × (split_pair (upper opp.symbol) ≡ some pair)
          × All (λ b. amount ≤ℤ b) (balance_candidates e opp pair))
    → IsSized e opp amount
IsSized-capped e opp amount h f =
    let (depth, rest) = min_list-le opp.max_tradable_size (free_candidates e opp) in
    record {
      depth = omega arith;
      cap = omega (arith, rest.0);
      buy_room = omega (arith, rest.1.0);
      sell_room = omega (arith, rest.1.1.0);
      funded = f;
    }

approved_amount-IsSized :
    (e : RiskEngine) (opp : ArbitrageOpportunity) (amount : Decimal)
    → approved_amount e opp ≡ passed amount
    → IsSized e opp amount
unfolding approved_amount
approved_amount-IsSized e opp amount h =
    let capped = min_list opp.max_tradable_size (free_candidates e opp) in
    elim (Bool-cases (is_dry_run e.settings.mode)) [
      | inl dry ↦
          let same : capped ≡ amount = ground arith in
          IsSized-capped e opp amount (rw same (omega arith)) (λ wet. ground arith)
      | inr wet ↦ elim (Option-cases (split_pair (upper opp.symbol))) [
        | inl bad ↦ ground arith
        | inr (pair, good) ↦
            let same : min_list capped (balance_candidates e opp pair) ≡ amount = ground arith in
            let (le, rest) = min_list-le capped (balance_candidates e opp pair) in
            IsSized-capped e opp amount (rw (← same) le) (λ _. (pair, good, rw (← same) rest))
      ]
    ]

-- The account and the size at which a trade is let through.
pub record IsAffordable (e : RiskEngine) (now : Now) (notional : Decimal) : Type 0 where
  pub large_enough : e.settings.min_order_size_quote ≤ℤ notional
  pub few_open : open_count e.exposure < e.settings.max_total_open_hedges
  pub small_loss :
      is_live e.settings.mode ≡ true → daily_loss_quote now e <ℤ e.settings.max_daily_loss_quote
  pub few_losses :
      is_live e.settings.mode ≡ true → e.breaker.losses < e.settings.max_consecutive_losing_trades

account_gates-IsAffordable :
    (e : RiskEngine) (now : Now) (notional : Decimal)
    → account_gates e now notional ≡ passed tt
    → IsAffordable e now notional
unfolding account_gates
account_gates-IsAffordable e now notional h = ground arith

-- An opportunity is approved only while the kill switch is off, the breaker has not tripped, its
-- symbol is enabled and not cooling down, both legs have fresh books (and in live mode fresh
-- balances) within the age limit, and edge and profit reach their minima; the amount is then within
-- the depth, the cap of a trade, the exposure left at both exchanges and, outside dry-run, the free
-- balances; the notional reaches the minimum, fewer hedges are open than allowed, and in live mode
-- the loss of the day and the run of losing trades are below their limits.
pub evaluate-approved :
    (e : RiskEngine) (now : Now) (opp : ArbitrageOpportunity) {d : Approval}
    → evaluate e now opp ≡ passed d
    → IsOpen e now opp
      × IsSized e opp d.amount
      × IsAffordable e now d.notional
      × (d.notional ≡ mul_dec d.amount (mid_of opp))
unfolding evaluate
evaluate-approved e now opp {d} h =
    let (u, open_gates, h1) = >>=-eq-passed (market_gates e now opp) _ h in
    let (amount, sized, h2) = >>=-eq-passed (approved_amount e opp) _ h1 in
    let (v, affordable, h3) =
      >>=-eq-passed (account_gates e now (mul_dec amount (mid_of opp))) _ h2 in
    rw (← passed-injective _ _ h3) (
      Cleared-IsOpen e now opp (market_gates-Cleared e now opp open_gates),
      approved_amount-IsSized e opp amount sized,
      account_gates-IsAffordable e now (mul_dec amount (mid_of opp)) affordable,
      refl,
    )
