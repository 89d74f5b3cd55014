-- ===== src/Strategy/Scanner/Laws.antt =====
-- What the scan of app/strategy/opportunity_scanner.py emits.
use arb_system.Base.{
  ℕ, suc, ◌==◌, ◌≡◌, false, ◌&&◌, Text, text, Option, none, some, List, [], ◌∷◌, ◌++◌, pos, ◌≤ℤ◌,
  ◌<ℤ◌, mul_dec, ltb_ℤ, ltb, text_key, length, All, All-append, Bool-cases, inl, inr, arith,
}
use arb_system.Models.{ArbitrageOpportunity, OrderBookSnapshot}
use arb_system.Settings.{Settings, enabled_symbol_list}
use arb_system.MarketData.Books
use arb_system.MarketData.Books.{Books}
use arb_system.Strategy.Spread.{SpreadCalculator, SpreadEstimate, evaluate_direction}
use arb_system.Strategy.Scanner.{
  Scanner, Scan, rejected, probe_size, filter_estimate, with_estimate, with_books, scan_pair,
  scan_sellers, scan_buyers, scan_symbol, scan_symbols, scan_once,
}

-- An opportunity from fresh books that passes every filter.
pub record IsOffered (c : Settings) (books : Books) (now : ℕ) (o : ArbitrageOpportunity)
    : Type 0 where
  pub buy_fresh : Books.is_stale books o.buy_exchange o.symbol now ≡ false
  pub sell_fresh : Books.is_stale books o.sell_exchange o.symbol now ≡ false
  pub edge : c.min_net_edge_bps ≤ℤ o.net_edge_bps
  pub profit : c.min_profit_quote ≤ℤ o.expected_profit_quote
  pub liquidity :
      pos 0 <ℤ c.min_liquidity_usdt
      → c.min_liquidity_usdt ≤ℤ mul_dec o.max_tradable_size o.buy_price

abbrev emitted : ArbitrageOpportunity → Scan → Scan
emitted o x = record x { out = x.out ++ (o ∷ []) }

module _ (c : Settings) (books : Books) (k : SpreadCalculator) (now : ℕ) (new_id : ℕ → Text) where
  -- A predicate that rejections and offers keep is kept by the whole scan.
  module _ (P : Scan → Type 0) (reject : (key : Text) (x : Scan) → P x → P (rejected key x))
      (emit : (o : ArbitrageOpportunity) (x : Scan)
        → IsOffered c books now o
        → P x
        → P (emitted o x)) where
    filter_estimate-keeps :
        (symbol b s : Text) (est : SpreadEstimate) (x : Scan)
        → Books.is_stale books b symbol now ≡ false
        → Books.is_stale books s symbol now ≡ false
        → P x
        → P (filter_estimate c books k now new_id symbol b s est x)
    unfolding filter_estimate
    filter_estimate-keeps symbol b s est x fb fs p =
        elim (Bool-cases (ltb_ℤ est.net_edge_bps c.min_net_edge_bps)) [
          | inl low ↦ rw low (reject (text "below_min_edge") x p)
          | inr edge ↦ elim (Bool-cases (ltb_ℤ est.expected_profit_quote c.min_profit_quote)) [
            | inl low ↦ rw (edge, low) (reject (text "below_min_profit") x p)
            | inr profit ↦
                elim (Bool-cases (
                  ltb_ℤ (pos 0) c.min_liquidity_usdt
                  && ltb_ℤ (mul_dec est.max_tradable_base est.buy_leg.effective_price)
                      c.min_liquidity_usdt)) [
                        | inl thin ↦ rw (edge, profit, thin) (reject (text "below_min_size") x p)
                        | inr deep ↦
                            rw (edge, profit, deep)
                              (emit _ x
                                (record {
                                  buy_fresh = fb;
                                  sell_fresh = fs;
                                  edge = ground arith;
                                  profit = ground arith;
                                  liquidity = λ on. ground arith;
                                })
                                p)
                      ]
          ]
        ]

    with_estimate-keeps :
        (symbol b s : Text) (est : Option SpreadEstimate) (x : Scan)
        → Books.is_stale books b symbol now ≡ false
        → Books.is_stale books s symbol now ≡ false
        → P x
        → P (with_estimate c books k now new_id symbol b s est x)
    with_estimate-keeps symbol b s none x fb fs p = p
    with_estimate-keeps symbol b s (some est) x fb fs p =
        filter_estimate-keeps symbol b s est x fb fs p

    with_books-keeps :
        (symbol b s : Text) (one two : Option OrderBookSnapshot) (x : Scan)
        → P x
        → P (with_books c books k now new_id symbol b s one two x)
    with_books-keeps symbol b s (some one) (some two) x p =
        elim (Bool-cases (Books.is_stale books b symbol now)) [
          | inl stale ↦ rw stale p
          | inr fb ↦ elim (Bool-cases (Books.is_stale books s symbol now)) [
            | inl stale ↦ rw (fb, stale) p
            | inr fs ↦
                rw (fb, fs)
                  (with_estimate-keeps symbol b s
                    (evaluate_direction k symbol one two (probe_size c one)) x fb fs p)
          ]
        ]
    with_books-keeps symbol b s none two x p = p
    with_books-keeps symbol b s (some one) none x p = p

    scan_sellers-keeps :
        (symbol : Text) (i : ℕ) (b : Text) (j : ℕ) (es : List Text) (x : Scan)
        → P x
        → P (scan_sellers c books k now new_id symbol i b j es x)
    unfolding scan_sellers scan_pair
    scan_sellers-keeps symbol i b j [] x p = p
    scan_sellers-keeps symbol i b j (e ∷ es) x p = elim (Bool-cases (i == j)) [
      | inl same ↦ rw same (scan_sellers-keeps symbol i b (suc j) es x p)
      | inr other ↦ rw other (
          scan_sellers-keeps symbol i b (suc j) es _
            (with_books-keeps symbol b e (Books.get books b symbol) (Books.get books e symbol) x p))
    ]

    scan_buyers-keeps :
        (symbol : Text) (all : List Text) (i : ℕ) (es : List Text) (x : Scan)
        → P x
        → P (scan_buyers c books k now new_id symbol all i es x)
    unfolding scan_buyers
    scan_buyers-keeps symbol all i [] x p = p
    scan_buyers-keeps symbol all i (e ∷ es) x p =
        scan_buyers-keeps symbol all (suc i) es _ (scan_sellers-keeps symbol i e 0 all x p)

    scan_symbols-keeps :
        (ss es : List Text) (x : Scan) → P x → P (scan_symbols c books k now new_id ss es x)
    unfolding scan_symbols scan_symbol
    scan_symbols-keeps [] es x p = p
    scan_symbols-keeps (s ∷ ss) es x p = elim (Bool-cases (ltb (length es) 2)) [
      | inl few ↦ rw few (scan_symbols-keeps ss es x p)
      | inr enough ↦ rw enough (scan_symbols-keeps ss es _ (scan_buyers-keeps s es 0 es x p))
    ]

  -- Every opportunity that a scan emits comes from two books that are fresh at that time, and reaches
  -- the minima of edge and profit and, where there is one, of liquidity.
  pub scan_once-IsOffered :
      (exchanges : List Text) (s : Scanner)
      → All (IsOffered c books now) (scan_once c books k now new_id exchanges s).out
  unfolding scan_once
  scan_once-IsOffered exchanges s =
      scan_symbols-keeps (λ x. All (IsOffered c books now) x.out) (λ key x p. p)
        (λ o x h p. All-append (IsOffered c books now) x.out (o ∷ []) p (h, tt))
        (enabled_symbol_list c) exchanges _ tt
