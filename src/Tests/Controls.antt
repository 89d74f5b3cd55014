-- ===== src/Tests/Controls.antt =====
-- The risk controls, the settings and the state machine on concrete inputs.
use arb_system.Base.{
  ◌+◌, ◌*◌, ◌≤◌, ◌≡◌, ◌↔◌, refl, true, false, ◌||◌, Text, text, text_eq, text_key, upper, contains,
  some, none, List, [], ◌∷◌, pos, negsuc, whole, scale, ◌≤ℤ◌, ◌<ℤ◌, ◌+ℤ◌, slack, mul_dec, split,
  strip, lookup, div_dec, round_div, max_ℤ, min_ℤ, ◌-ℤ◌, All, arith,
}
use arb_system.Models.{HedgeState}
use arb_system.Settings.{enabled_symbol_list, add_tier, add_parts, add_symbol}
use arb_system.MarketData.Books
use arb_system.MarketData.Books.{entry}
use arb_system.Accounts.Balances
use arb_system.Accounts.Balances.{reserved_at}
use arb_system.Settings.Symbols.{IsSymbolList, in_tier, enabled_symbols-tiers}
use arb_system.StateMachine.{can_transition}
use arb_system.StateMachine.Reach.{HedgePath, start, step, path_bounded}
use arb_system.Risk.Breaker.Replay.{History, outcome, pnl, cleared, replay, trips}
use arb_system.Risk.Breaker.Trips.{tripped-replay}
use arb_system.Risk.Exposure.{no_exposure, in_flight, open_count, add, release}
use arb_system.Risk.Exposure.Claims.{
  Claim, claim, total, Reach, Drops, first, later, added, released, in_flight-eq-total,
}
use arb_system.Risk.Exposure.Claims
use arb_system.Risk.Health.{HealthGuard, stale_symbols, all_ok, all_ok_for_trade}
use arb_system.Risk.Health.Laws.{IsTradable, all_ok_for_trade_iff}
use arb_system.Risk.Engine.{
  Now, Approval, guard, market_gates, headroom, split_pair, min_list, approved_amount,
  account_gates, evaluate, mid_of, daily_loss_quote, in_cooldown,
}
use arb_system.Risk.Engine.Checks.{passed}
use arb_system.Risk.Engine.Approved.{IsOpen, IsSized, IsAffordable, evaluate-approved}
use arb_system.Risk.Engine.Limits.{approved-within_limits}
use arb_system.Risk.Engine.Daily.{Trades, record_all, losses_on, daily_loss-record_all}
use arb_system.Tests.Data.{
  btc, north, south, settings, books, balances, opportunity, engine, today, breaker_config,
}

abbrev pub approval : Approval
approval = record { amount = whole 2; notional = whole 200 }

pub approved : evaluate engine today opportunity ≡ passed approval
unfolding evaluate market_gates enabled_symbol_list contains add_tier add_parts split add_symbol
    strip upper in_cooldown lookup all_ok_for_trade Books.is_stale entry whole scale approved_amount
    account_gates mid_of headroom split_pair min_list in_flight open_count daily_loss_quote
    Balances.free Balances.get Balances.is_stale reserved_at div_dec mul_dec round_div max_ℤ min_ℤ
    ◌-ℤ◌ ◌+ℤ◌
approved = refl

evaluate-approved_example :
    IsOpen engine today opportunity
    × IsSized engine opportunity (whole 2)
    × IsAffordable engine today (whole 200)
    × (whole 200 ≡ mul_dec (whole 2) (mid_of opportunity))
evaluate-approved_example = evaluate-approved engine today opportunity approved

price_positive : pos 0 <ℤ whole 100
unfolding whole scale
price_positive = omega arith

cap_nonneg : pos 0 ≤ℤ whole 200
unfolding whole scale
cap_nonneg = omega arith

approved-within_limits_example :
    (whole 200 ≤ℤ whole 200 +ℤ slack (whole 100))
    × (in_flight no_exposure north ≤ℤ whole 500
        → in_flight no_exposure north +ℤ whole 200 ≤ℤ whole 500 +ℤ slack (whole 100))
    × (in_flight no_exposure south ≤ℤ whole 500
        → in_flight no_exposure south +ℤ whole 200 ≤ℤ whole 500 +ℤ slack (whole 100))
approved-within_limits_example =
    approved-within_limits engine today opportunity approved price_positive cap_nonneg

-- A reset, a success, three failures and a loss; the newest first.
abbrev history : History
history =
    pnl none (some (negsuc 4))
    ∷ outcome false 9_000_000
    ∷ outcome false 5_000_000
    ∷ outcome false 4_000_000
    ∷ outcome true 3_000_000
    ∷ cleared
    ∷ []

tripped-replay_example : (replay breaker_config history).tripped ≡ trips breaker_config history
tripped-replay_example =
    tripped-replay breaker_config 9_000_000 history
      (omega arith, (omega arith, (omega arith, (omega arith, tt))))

-- Two hedges overlap at one exchange, and the first to come is the first to go.
overlapping :
    Reach
      (release north
        (pos 5)
        (text "a")
        (add north (pos 7) (text "b") (add north (pos 5) (text "a") no_exposure)))
      (claim north (pos 7) ∷ [])
overlapping =
    released north (text "a") (pos 5)
      (added north (text "b") (pos 7) (added north (text "a") (pos 5) Claims.start (omega arith))
        (omega arith))
      (later first)

in_flight-eq-total_example :
    in_flight
      (release north
        (pos 5)
        (text "a")
        (add north (pos 7) (text "b") (add north (pos 5) (text "a") no_exposure)))
      north
    ≡ total north (claim north (pos 7) ∷ [])
in_flight-eq-total_example = in_flight-eq-total overlapping north

enabled_symbols-tiers_example :
    IsSymbolList (enabled_symbol_list settings)
    × ((t : Text)
        → text_eq [] t ≡ false
        → contains t (enabled_symbol_list settings) ≡ (
            in_tier t true (text "BTC/USDT, ETH/USDT")
            || in_tier t false (text "XRP/USDT")
            || in_tier t true []))
enabled_symbols-tiers_example = enabled_symbols-tiers settings refl

to_planning : HedgePath HedgeState.planning 1 0
unfolding can_transition
to_planning = step HedgeState.planning start refl

path_bounded_example : 1 ≤ 5 + 2 * 0
path_bounded_example = path_bounded to_planning

abbrev exchanges : List Text
exchanges = north ∷ south ∷ []

all_ok_for_trade_iff_example :
    (all_ok_for_trade (guard engine) 1_200 exchanges btc ≡ true)
    ↔ All (IsTradable (guard engine) 1_200 btc) exchanges
all_ok_for_trade_iff_example = all_ok_for_trade_iff (guard engine) 1_200 exchanges btc

-- A guard whose settings enable the one symbol that both books are for.
abbrev one_symbol : HealthGuard
one_symbol = record {
  books = books;
  balances = balances;
  settings = record settings { symbol_tier1 = btc };
}

btc_enabled : contains btc (enabled_symbol_list one_symbol.settings) ≡ true
unfolding enabled_symbol_list contains add_tier add_parts split add_symbol strip
btc_enabled = refl

all_fresh : all_ok one_symbol 1_200 exchanges ≡ true
unfolding all_ok stale_symbols enabled_symbol_list contains add_tier add_parts split add_symbol
    strip Books.is_stale entry lookup
all_fresh = refl

-- A loss, a gain and a loss of the day before.
abbrev trades : Trades
trades =
    (today, some (negsuc 9))
    ∷ (today, some (pos 4))
    ∷ (record today { day = 6 }, some (negsuc 2))
    ∷ []

daily_loss-record_all_example :
    daily_loss_quote today (record_all engine trades) ≡ losses_on 7 trades
daily_loss-record_all_example =
    daily_loss-record_all today engine trades refl (omega arith, (omega arith, (omega arith, tt)))

abbrev soon : Now
soon = record today { us = 2_000_000 }
