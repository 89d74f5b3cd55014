-- ===== src/Strategy/Scanner/Counts.antt =====
-- The counters of app/strategy/opportunity_scanner.py against the verdicts on all ordered pairs of exchanges.
use arb_system.Base.{
  ℕ, suc, ◌+◌, ◌==◌, ◌≡◌, refl, true, ◌&&◌, ◌||◌, Text, text, Option, none, some, List, [], ◌∷◌,
  ◌++◌, pos, mul_dec, ltb_ℤ, ltb, text_key, length, length-append, if◌then◌else◌, Bool-cases, inl,
  inr, arith,
}
use arb_system.Models.{OrderBookSnapshot}
use arb_system.Settings.{Settings, enabled_symbol_list}
use arb_system.MarketData.Books
use arb_system.MarketData.Books.{Books}
use arb_system.Strategy.Spread.{SpreadCalculator, SpreadEstimate, evaluate_direction}
use arb_system.Strategy.Scanner.{
  Scanner, Scan, probe_size, filter_estimate, with_estimate, with_books, scan_pair, scan_sellers,
  scan_buyers, scan_symbol, scan_symbols, scan_once,
}
use arb_system.Strategy.Scanner.Verdicts.{
  count, rejections, offers, times, Adds, Adds-nothing, Adds-then, rejected-Adds,
}

module _ (c : Settings) (books : Books) (k : SpreadCalculator) (now : ℕ) (new_id : ℕ → Text) where
  -- Which minimum an estimate misses first.
  abbrev pub verdict : SpreadEstimate → Option Text
  verdict est =
      if ltb_ℤ est.net_edge_bps c.min_net_edge_bps
      then some (text "below_min_edge")
      else if ltb_ℤ est.expected_profit_quote c.min_profit_quote
      then some (text "below_min_profit")
      else if ltb_ℤ (pos 0) c.min_liquidity_usdt
          && ltb_ℤ (mul_dec est.max_tradable_base est.buy_leg.effective_price) c.min_liquidity_usdt
      then some (text "below_min_size")
      else none

  abbrev on_estimate : Option SpreadEstimate → List (Option Text)
  on_estimate none = []
  on_estimate (some est) = verdict est ∷ []

  -- No verdict without two fresh books and an estimate.
  abbrev on_books :
      Text → Text → Text → Option OrderBookSnapshot → Option OrderBookSnapshot → List (Option Text)
  on_books symbol b s (some one) (some two) =
      if Books.is_stale books b symbol now || Books.is_stale books s symbol now
      then []
      else on_estimate (evaluate_direction k symbol one two (probe_size c one))
  on_books symbol b s _ _ = []

  abbrev pair_verdicts : Text → Text → Text → List (Option Text)
  pair_verdicts symbol b s =
      on_books symbol b s (Books.get books b symbol) (Books.get books s symbol)

  -- The buyer at place `i` against every seller at another place.
  abbrev buyer_verdicts : Text → ℕ → Text → ℕ → List Text → List (Option Text)
  buyer_verdicts symbol i b j [] = []
  buyer_verdicts symbol i b j (e ∷ es) =
      (if i == j then [] else pair_verdicts symbol b e) ++ buyer_verdicts symbol i b (suc j) es

  abbrev symbol_verdicts : Text → List Text → ℕ → List Text → List (Option Text)
  symbol_verdicts symbol all i [] = []
  symbol_verdicts symbol all i (e ∷ es) =
      buyer_verdicts symbol i e 0 all ++ symbol_verdicts symbol all (suc i) es

  abbrev pub all_verdicts : List Text → List Text → List (Option Text)
  all_verdicts [] es = []
  all_verdicts (s ∷ ss) es = symbol_verdicts s es 0 es ++ all_verdicts ss es

  filter_estimate-Adds :
      (symbol b s : Text) (est : SpreadEstimate) (x : Scan)
      → Adds (verdict est ∷ []) x (filter_estimate c books k now new_id symbol b s est x)
  unfolding filter_estimate
  filter_estimate-Adds symbol b s est x =
      let thin =
        ltb_ℤ (pos 0) c.min_liquidity_usdt
        && ltb_ℤ (mul_dec est.max_tradable_base est.buy_leg.effective_price) c.min_liquidity_usdt in
      elim (Bool-cases (ltb_ℤ est.net_edge_bps c.min_net_edge_bps)) [
        | inl low ↦ rw low (rejected-Adds (text "below_min_edge") x)
        | inr edge ↦ elim (Bool-cases (ltb_ℤ est.expected_profit_quote c.min_profit_quote)) [
          | inl low ↦ rw (edge, low) (rejected-Adds (text "below_min_profit") x)
          | inr profit ↦ elim (Bool-cases thin) [
            | inl low ↦ rw (edge, profit, low) (rejected-Adds (text "below_min_size") x)
            | inr deep ↦
                rw (edge, profit, deep)
                  record {
                    session = omega arith;
                    counts = λ key. omega arith;
                    out = length-append x.out _;
                  }
          ]
        ]
      ]

  with_estimate-Adds :
      (symbol b s : Text) (est : Option SpreadEstimate) (x : Scan)
      → Adds (on_estimate est) x (with_estimate c books k now new_id symbol b s est x)
  with_estimate-Adds symbol b s none x = Adds-nothing x
  with_estimate-Adds symbol b s (some est) x = filter_estimate-Adds symbol b s est x

  with_books-Adds :
      (symbol b s : Text) (one two : Option OrderBookSnapshot) (x : Scan)
      → Adds (on_books symbol b s one two) x (with_books c books k now new_id symbol b s one two x)
  with_books-Adds symbol b s (some one) (some two) x =
      elim (Bool-cases (Books.is_stale books b symbol now || Books.is_stale books s symbol now)) [
        | inl stale ↦ rw stale (Adds-nothing x)
        | inr fresh ↦ rw fresh (
            with_estimate-Adds symbol b s (evaluate_direction k symbol one two (probe_size c one))
              x)
      ]
  with_books-Adds symbol b s none two x = Adds-nothing x
  with_books-Adds symbol b s (some one) none x = Adds-nothing x

  scan_sellers-Adds :
      (symbol : Text) (i : ℕ) (b : Text) (j : ℕ) (es : List Text) (x : Scan)
      → Adds
          (buyer_verdicts symbol i b j es)
          x
          (scan_sellers c books k now new_id symbol i b j es x)
  unfolding scan_sellers scan_pair
  scan_sellers-Adds symbol i b j [] x = Adds-nothing x
  scan_sellers-Adds symbol i b j (e ∷ es) x = elim (Bool-cases (i == j)) [
    | inl same ↦ rw same (scan_sellers-Adds symbol i b (suc j) es x)
    | inr other ↦ rw other (
        Adds-then _ _ x _ _
          (with_books-Adds symbol b e (Books.get books b symbol) (Books.get books e symbol) x)
          (scan_sellers-Adds symbol i b (suc j) es _))
  ]

  scan_buyers-Adds :
      (symbol : Text) (all : List Text) (i : ℕ) (es : List Text) (x : Scan)
      → Adds
          (symbol_verdicts symbol all i es)
          x
          (scan_buyers c books k now new_id symbol all i es x)
  unfolding scan_buyers
  scan_buyers-Adds symbol all i [] x = Adds-nothing x
  scan_buyers-Adds symbol all i (e ∷ es) x =
      Adds-then _ _ x _ _ (scan_sellers-Adds symbol i e 0 all x)
        (scan_buyers-Adds symbol all (suc i) es _)

  -- With fewer than two exchanges there is nothing to compare.
  lonely :
      (symbol : Text) (es : List Text)
      → ltb (length es) 2 ≡ true
      → symbol_verdicts symbol es 0 es ≡ []
  lonely symbol [] h = refl
  lonely symbol (e ∷ []) h = refl
  lonely symbol (e ∷ f ∷ es) h = absurd (ground (arith, h))

  scan_symbols-Adds :
      (ss es : List Text) (x : Scan)
      → Adds (all_verdicts ss es) x (scan_symbols c books k now new_id ss es x)
  unfolding scan_symbols scan_symbol
  scan_symbols-Adds [] es x = Adds-nothing x
  scan_symbols-Adds (s ∷ ss) es x = elim (Bool-cases (ltb (length es) 2)) [
    | inl few ↦ rw (few, lonely s es few) (scan_symbols-Adds ss es x)
    | inr enough ↦
        rw enough (Adds-then _ _ x _ _ (scan_buyers-Adds s es 0 es x) (scan_symbols-Adds ss es _))
  ]

  -- Take, for each enabled symbol and each ordered pair of different places in the list of exchanges,
  -- with two fresh books and an estimate, the first minimum that the estimate misses. A scan adds
  -- the number of those misses to the session count, adds to the count of each reason the number of
  -- misses with that reason, and emits one opportunity for each estimate that misses none.
  pub scan_once-counts :
      (exchanges : List Text) (s : Scanner)
      → let vs = all_verdicts (enabled_symbol_list c) exchanges in
        let x = scan_once c books k now new_id exchanges s in
        (x.scanner.session_count ≡ s.session_count + rejections vs)
        × ((key : Text) → count key x.scanner ≡ count key s + times key vs)
        × (length x.out ≡ offers vs)
  unfolding scan_once
  scan_once-counts exchanges s =
      let start : Scan = record {
        out = [];
        scanner = record s { scan_count = s.scan_count + 1; last_scan_at = some now };
      } in
      let a = scan_symbols-Adds (enabled_symbol_list c) exchanges start in
      let emitted = a.out in (a.session, a.counts, omega (arith, emitted))
