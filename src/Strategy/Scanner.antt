-- ===== src/Strategy/Scanner.antt =====
-- app/strategy/opportunity_scanner.py, with no callback, as the program builds it. One reading of the
-- clock serves a scan; the id of the n-th opportunity of a scan is an argument.
pub mod Laws
pub mod Verdicts
pub mod Counts
use arb_system.Base.{
  ℕ, suc, ◌+◌, ◌==◌, Bool, true, false, not, ◌||◌, ◌&&◌, Text, text, Option, none, some, List, [],
  ◌∷◌, ◌++◌, Decimal, pos, whole, mul_dec, div_dec, ltb_ℤ, eqb_ℤ, ltb, Dict, lookup, insert,
  text_key, or_default, if◌then◌else◌, length,
}
use arb_system.Models.{OrderBookSnapshot, ArbitrageOpportunity, mid_price}
use arb_system.Settings.{Settings, enabled_symbol_list}
use arb_system.MarketData.Books
use arb_system.MarketData.Books.{Books}
use arb_system.Strategy.Spread.{SpreadCalculator, SpreadEstimate, evaluate_direction}

pub record Scanner : Type 0 where
  pub scan_count : ℕ
  pub last_scan_at : Option ℕ
  pub session_count : ℕ
  pub accepted_count : ℕ
  pub reject_counts : Dict Text ℕ

unfoldable pub record_detected : Scanner → Scanner
record_detected s = record s { session_count = s.session_count + 1 }

-- `self._reject_counts[key] = self._reject_counts.get(key, 0) + 1`
unfoldable pub count_reject : Text → Scanner → Scanner
count_reject key s = record s {
  reject_counts = insert key (or_default (lookup key s.reject_counts) 0 + 1) s.reject_counts;
}

abbrev pub key_of : Option Text → Text
key_of none = text "unknown"
key_of (some []) = text "unknown"
key_of (some (c ∷ s)) = c ∷ s

unfoldable pub record_decision : Bool → Option Text → Scanner → Scanner
unfolding count_reject
record_decision true reason s = record s { accepted_count = s.accepted_count + 1 }
record_decision false reason s = count_reject (key_of reason) s

abbrev or_one : Option Decimal → Decimal
or_one none = whole 1
or_one (some m) = if eqb_ℤ m (pos 0) then whole 1 else m

unfoldable pub probe_size : Settings → OrderBookSnapshot → Decimal
probe_size c buy_book = div_dec c.max_notional_per_trade (or_one (mid_price buy_book))

-- What a scan has found, and the scanner.
pub record Scan : Type 0 where
  pub out : List ArbitrageOpportunity
  pub scanner : Scanner

abbrev pub rejected : Text → Scan → Scan
rejected key x = record x { scanner = count_reject key (record_detected x.scanner) }

module _ (c : Settings) (books : Books) (k : SpreadCalculator) (now : ℕ) (new_id : ℕ → Text) where
  abbrev pub opportunity_of : Text → Text → Text → SpreadEstimate → ℕ → ArbitrageOpportunity
  opportunity_of symbol buy_ex sell_ex est n = record {
    opportunity_id = new_id n;
    symbol = symbol;
    buy_exchange = buy_ex;
    sell_exchange = sell_ex;
    buy_price = est.buy_leg.effective_price;
    sell_price = est.sell_leg.effective_price;
    gross_spread_bps = est.gross_spread_bps;
    buy_fee_bps = est.buy_leg.fee_bps;
    sell_fee_bps = est.sell_leg.fee_bps;
    slippage_bps = est.slippage_bps_total;
    buffer_bps = est.buffer_bps;
    net_edge_bps = est.net_edge_bps;
    max_tradable_size = est.max_tradable_base;
    expected_profit_quote = est.expected_profit_quote;
    detected_at = now;
    buy_book_age_ms = Books.age_ms books buy_ex symbol now;
    sell_book_age_ms = Books.age_ms books sell_ex symbol now;
  }

  -- The filters on an estimate, and the opportunity that passes them.
  unfoldable pub filter_estimate : Text → Text → Text → SpreadEstimate → Scan → Scan
  filter_estimate symbol buy_ex sell_ex est x =
      if ltb_ℤ est.net_edge_bps c.min_net_edge_bps
      then rejected (text "below_min_edge") x
      else if ltb_ℤ est.expected_profit_quote c.min_profit_quote
      then rejected (text "below_min_profit") x
      else if ltb_ℤ (pos 0) c.min_liquidity_usdt
          && ltb_ℤ (mul_dec est.max_tradable_base est.buy_leg.effective_price) c.min_liquidity_usdt
      then rejected (text "below_min_size") x
      else record x {
        out = x.out ++ (opportunity_of symbol buy_ex sell_ex est (length x.out) ∷ []);
      }

  abbrev pub with_estimate : Text → Text → Text → Option SpreadEstimate → Scan → Scan
  with_estimate symbol buy_ex sell_ex none x = x
  with_estimate symbol buy_ex sell_ex (some est) x = filter_estimate symbol buy_ex sell_ex est x

  abbrev pub with_books :
      Text → Text → Text → Option OrderBookSnapshot → Option OrderBookSnapshot → Scan → Scan
  with_books symbol buy_ex sell_ex (some b) (some b') x =
      if Books.is_stale books buy_ex symbol now || Books.is_stale books sell_ex symbol now
      then x
      else with_estimate symbol buy_ex sell_ex (evaluate_direction k symbol b b' (probe_size c b)) x
  with_books symbol buy_ex sell_ex _ _ x = x

  -- The body of the two loops.
  unfoldable pub scan_pair : Text → Text → Text → Scan → Scan
  unfolding filter_estimate
  scan_pair symbol buy_ex sell_ex x =
      with_books symbol buy_ex sell_ex (Books.get books buy_ex symbol)
        (Books.get books sell_ex symbol) x

  -- The inner loop, at place `j`, for the buyer at place `i`.
  unfoldable pub scan_sellers : Text → ℕ → Text → ℕ → List Text → Scan → Scan
  scan_sellers symbol i buy_ex j [] x = x
  scan_sellers symbol i buy_ex j (e ∷ es) x =
      scan_sellers symbol i buy_ex (suc j) es (if i == j then x else scan_pair symbol buy_ex e x)

  -- The outer loop, at place `i`.
  unfoldable pub scan_buyers : Text → List Text → ℕ → List Text → Scan → Scan
  scan_buyers symbol all i [] x = x
  scan_buyers symbol all i (e ∷ es) x =
      scan_buyers symbol all (suc i) es (scan_sellers symbol i e 0 all x)

  unfoldable pub scan_symbol : Text → List Text → Scan → Scan
  scan_symbol symbol exchanges x =
      let all = scan_buyers symbol exchanges 0 exchanges x in
      if ltb (length exchanges) 2 then x else all

  unfoldable pub scan_symbols : List Text → List Text → Scan → Scan
  scan_symbols [] exchanges x = x
  scan_symbols (s ∷ ss) exchanges x = scan_symbols ss exchanges (scan_symbol s exchanges x)

  unfoldable pub scan_once : List Text → Scanner → Scan
  scan_once exchanges s = scan_symbols (enabled_symbol_list c) exchanges (record {
    out = [];
    scanner = record s { scan_count = s.scan_count + 1; last_scan_at = some now };
  })
