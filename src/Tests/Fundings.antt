-- ===== src/Tests/Fundings.antt =====
-- The funding scanner and executor on the small market.
use arb_system.Base.{
  ℕ, refl, inr, true, Text, text, none, some, [], ◌∷◌, Decimal, whole, pos, arith,
}
use arb_system.Models.{Mode, Side}
use arb_system.Strategy.Funding.{FundingRateOpportunity, FundingRateScanner, short_perp}
use arb_system.Strategy.Funding.Scan.{FundingScanSettings, rated, scan_once}
use arb_system.Strategy.Funding.Laws.{IsKept, scan_once_keeps}
use arb_system.Execution.Funding.{FundingSettings, FundingMoment, FundingDesk}
use arb_system.Execution.Funding.Paper.{execute_paper}
use arb_system.Execution.Funding.Live.{Adapters}
use arb_system.Execution.Funding.Neutral.{Opens, execute_paper-Opens}
use arb_system.Tests.Data.{north, south_book, books, balances, dry_submit, draw}
use arb_system.Tests.Trading.{engine, one_at_most, books-HasOffers, both-IsOffer}

abbrev perp_btc : Text
perp_btc = text "BTC/USDT:USDT"

abbrev scan_settings : FundingScanSettings
scan_settings = record {
  exchanges = [];
  funding_rate_exchange = north;
  funding_rate_symbols = perp_btc;
  funding_rate_min_apr_bps = whole 200;
}

abbrev funding_scanner : FundingRateScanner
funding_scanner = record { ring = []; session_count = 0; last_poll_at = none; scan_count = 0 }

-- A rate of one in a hundred.
abbrev a_rate : Decimal
a_rate = pos 100_000_000_000_000_000_000_000_000

abbrev zero_world : ℕ
zero_world = 0

scan_once_keeps_example :
    IsKept scan_settings
      (scan_once scan_settings
        (λ (w : ℕ). books)
        (λ w. 1_200)
        (λ n. n ∷ [])
        (λ ex sym w. (rated a_rate (some (whole 100)) none, w))
        none
        funding_scanner
        zero_world).scanner
scan_once_keeps_example =
    scan_once_keeps scan_settings (λ (w : ℕ). books) (λ w. 1_200) (λ n. n ∷ [])
      (λ ex sym w. (rated a_rate (some (whole 100)) none, w)) none funding_scanner zero_world
      (omega arith, tt)

abbrev funding_opp : FundingRateOpportunity
funding_opp = record {
  opportunity_id = text "f1";
  exchange = north;
  symbol = perp_btc;
  funding_rate = a_rate;
  apr_bps = whole 109_500;
  direction = short_perp;
  spot_ref_price = some (whole 99);
  perp_mark_price = some (whole 100);
  next_funding_time = none;
  detected_at = 1_200;
}

abbrev funding_settings : FundingSettings
funding_settings = record {
  mode = Mode.live;
  strategy_funding_rate_spot_perp_enabled = true;
  funding_max_notional_per_trade = whole 50;
  funding_max_basis_bps = whole 20;
}

abbrev funding_moment : FundingMoment
funding_moment = record { hedge_id = text "h-1234567890"; opened_at = 1_300 }

abbrev funding_desk : FundingDesk ℕ
funding_desk = record { ring = []; books = books; balances = some balances; venue = 0 }

abbrev adapters : Adapters ℕ
adapters = record {
  configured = true;
  spot_there = true;
  perp_ready = true;
  create_spot = dry_submit;
  create_perp = dry_submit;
}

execute_paper-Opens_example :
    Opens engine funding_settings funding_moment
      (draw 1)
      (draw 2)
      funding_opp
      one_at_most
      refl
      refl
      []
      (execute_paper engine funding_settings funding_moment
        (draw 1)
        (draw 2)
        funding_opp
        (some south_book)
        1_250
        funding_desk)
execute_paper-Opens_example =
    execute_paper-Opens engine funding_settings funding_moment (draw 1) (draw 2) funding_opp
      one_at_most refl refl (some south_book) 1_250 funding_desk
      (both-IsOffer Side.buy south_book (inr refl), both-IsOffer Side.sell south_book (inr refl))
      (books-HasOffers 0)
