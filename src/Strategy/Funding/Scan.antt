-- ===== src/Strategy/Funding/Scan.antt =====
-- `_scan_once` of app/strategy/funding_rate_scanner.py. `W` is the world beyond the scanner: it shows the
-- books and the time, and a fetch and the callback change it. The callback's exceptions are caught.
use arb_system.Base.{
  ℕ, ◌+◌, Bool, true, false, Text, Option, none, some, List, [], ◌∷◌, Decimal, pos, whole, abs_ℤ,
  mul_dec, ltb_ℤ, if◌then◌else◌, append_bounded,
}
use arb_system.Settings.{selected_exchange}
use arb_system.MarketData.Books.{Books}
use arb_system.Strategy.Funding.{
  FundingRateOpportunity, FundingRateScanner, short_perp, long_perp, parse_symbols, spot_ref,
}

-- The settings that the scanner reads (app/config/settings.py).
pub record FundingScanSettings : Type 0 where
  pub exchanges : Text
  pub funding_rate_exchange : Text
  pub funding_rate_symbols : Text
  pub funding_rate_min_apr_bps : Decimal

-- What the exchange library answers: an exception that leaves the scan, no rate that can be read, or a
-- rate with the mark price and the time of the next funding.
pub data Fetched : Type 0 where
  aborted unread : Fetched
  rated : Decimal → Option Decimal → Option ℕ → Fetched

abbrev pub scanned_exchange : FundingScanSettings → Text
scanned_exchange s = selected_exchange s.exchanges s.funding_rate_exchange

-- `_PERIODS_PER_YEAR`, which holds the fall-back at each of its keys.
abbrev pub periods : Decimal
periods = whole 1_095

unfoldable pub apr_bps_of : Decimal → Decimal
apr_bps_of rate = mul_dec (mul_dec (abs_ℤ rate) periods) (whole 10000)

unfoldable pub direction_of : Decimal → Text
direction_of rate = if ltb_ℤ (pos 0) rate then short_perp else long_perp

-- `_RING_MAX`
abbrev pub ring_max : ℕ
ring_max = 200

-- A scan under way. After an exception it does nothing more.
pub record Scan (W : Type 0) : Type 0 where
  pub scanner : FundingRateScanner
  pub world : W
  pub stopped : Bool

abbrev call :
    {W : Type 0} → Option (FundingRateOpportunity → W → W) → FundingRateOpportunity → W → W
call none o w = w
call (some callback) o w = callback o w

unfoldable pub detected : FundingRateOpportunity → FundingRateScanner → FundingRateScanner
detected o s = record s {
  ring = append_bounded ring_max o s.ring;
  session_count = s.session_count + 1;
}

module _ {W : Type 0} (s : FundingScanSettings) (books : W → Books) (now : W → ℕ)
    (new_id : ℕ → Text) (fetch : Text → Text → W → Fetched × W)
    (on_opportunity : Option (FundingRateOpportunity → W → W)) where
  abbrev pub opportunity_of :
      Text → Text → Decimal → Option Decimal → Option ℕ → ℕ → W → FundingRateOpportunity
  opportunity_of exchange symbol rate mark next n w = record {
    opportunity_id = new_id n;
    exchange = exchange;
    symbol = symbol;
    funding_rate = rate;
    apr_bps = apr_bps_of rate;
    direction = direction_of rate;
    spot_ref_price = spot_ref (books w) exchange symbol;
    perp_mark_price = mark;
    next_funding_time = next;
    detected_at = now w;
  }

  unfoldable pub emit : FundingRateOpportunity → FundingRateScanner → W → Scan W
  emit o scanner w = record {
    scanner = detected o scanner;
    world = call on_opportunity o w;
    stopped = false;
  }

  unfoldable pub on_fetch : Text → Text → FundingRateScanner → Fetched × W → Scan W
  on_fetch exchange symbol scanner (aborted, w) = record {
    scanner = scanner;
    world = w;
    stopped = true;
  }
  on_fetch exchange symbol scanner (unread, w) = record {
    scanner = scanner;
    world = w;
    stopped = false;
  }
  on_fetch exchange symbol scanner (rated rate mark next, w) =
      if ltb_ℤ (apr_bps_of rate) s.funding_rate_min_apr_bps
      then record { scanner = scanner; world = w; stopped = false }
      else emit (opportunity_of exchange symbol rate mark next scanner.session_count w) scanner w

  unfoldable pub scan_symbols : Text → List Text → Scan W → Scan W
  scan_symbols exchange [] x = x
  scan_symbols exchange (symbol ∷ symbols) x =
      scan_symbols exchange symbols (
        if x.stopped then x else on_fetch exchange symbol x.scanner (fetch exchange symbol x.world))

  unfoldable pub scan_once : FundingRateScanner → W → Scan W
  scan_once scanner w =
      scan_symbols (scanned_exchange s) (parse_symbols s.funding_rate_symbols) (record {
        scanner = record scanner {
          scan_count = scanner.scan_count + 1;
          last_poll_at = some (now w);
        };
        world = w;
        stopped = false;
      })
