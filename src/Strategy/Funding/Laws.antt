-- ===== src/Strategy/Funding/Laws.antt =====
-- What the scan of app/strategy/funding_rate_scanner.py keeps.
use arb_system.Base.{
  ℕ, ◌≤◌, ◌≡◌, refl, Text, Option, List, [], ◌∷◌, Decimal, pos, whole, abs_ℤ, mul_dec, ◌≤ℤ◌, ◌<ℤ◌,
  ltb_ℤ, ltb→le_ℤ, ltb→lt_ℤ, Bool-cases, inl, inr, ◌⊎◌, All, All-append_bounded, length,
  length-append_bounded-le,
}
use arb_system.MarketData.Books.{Books}
use arb_system.Strategy.Funding.{
  FundingRateOpportunity, FundingRateScanner, short_perp, long_perp, parse_symbols,
}
use arb_system.Strategy.Funding.Scan.{
  FundingScanSettings, Fetched, aborted, unread, rated, Scan, scanned_exchange, apr_bps_of,
  direction_of, ring_max, detected, emit, on_fetch, scan_symbols, scan_once,
}

-- A rate that is worth reporting, and the direction that collects it.
pub record IsWorth (s : FundingScanSettings) (o : FundingRateOpportunity) : Type 0 where
  pub yearly : o.apr_bps ≡ mul_dec (mul_dec (abs_ℤ o.funding_rate) (whole 1_095)) (whole 10000)
  pub enough : s.funding_rate_min_apr_bps ≤ℤ o.apr_bps
  pub side :
      ((pos 0 <ℤ o.funding_rate) × (o.direction ≡ short_perp))
      ⊎ ((o.funding_rate ≤ℤ pos 0) × (o.direction ≡ long_perp))

-- The ring holds no more than its bound, and nothing but rates that were worth reporting.
abbrev pub IsKept : FundingScanSettings → FundingRateScanner → Type 0
IsKept s x = (length x.ring ≤ ring_max) × All (IsWorth s) x.ring

direction_of-cases :
    (rate : Decimal)
    → ((pos 0 <ℤ rate) × (direction_of rate ≡ short_perp))
      ⊎ ((rate ≤ℤ pos 0) × (direction_of rate ≡ long_perp))
unfolding direction_of
direction_of-cases rate = elim (Bool-cases (ltb_ℤ (pos 0) rate)) [
  | inl up ↦ inl (ltb→lt_ℤ (pos 0) rate up, rw up refl)
  | inr down ↦ inr (ltb→le_ℤ (pos 0) rate down, rw down refl)
]

module _ {W : Type 0} (s : FundingScanSettings) (books : W → Books) (now : W → ℕ)
    (new_id : ℕ → Text) (fetch : Text → Text → W → Fetched × W)
    (on_opportunity : Option (FundingRateOpportunity → W → W)) where
  on_fetch-IsKept :
      (exchange symbol : Text) (x : FundingRateScanner) (got : Fetched) (w : W)
      → IsKept s x
      → IsKept s
          (on_fetch s books now new_id fetch on_opportunity exchange symbol x (got, w)).scanner
  unfolding on_fetch emit detected apr_bps_of
  on_fetch-IsKept exchange symbol x aborted w k = k
  on_fetch-IsKept exchange symbol x unread w k = k
  on_fetch-IsKept exchange symbol x (rated rate mark next) w k =
      elim (Bool-cases (ltb_ℤ (apr_bps_of rate) s.funding_rate_min_apr_bps)) [
        | inl low ↦ rw low k
        | inr high ↦ rw high (
          length-append_bounded-le ring_max _ x.ring,
          All-append_bounded (IsWorth s) ring_max _ x.ring
              (record {
                yearly = refl;
                enough = ltb→le_ℤ (apr_bps_of rate) s.funding_rate_min_apr_bps high;
                side = direction_of-cases rate;
              })
              k.1,
        )
      ]

  scan_symbols-IsKept :
      (exchange : Text) (symbols : List Text) (x : Scan W)
      → IsKept s x.scanner
      → IsKept s (scan_symbols s books now new_id fetch on_opportunity exchange symbols x).scanner
  unfolding scan_symbols
  scan_symbols-IsKept exchange [] x k = k
  scan_symbols-IsKept exchange (symbol ∷ symbols) x k = elim (Bool-cases x.stopped) [
    | inl stopped ↦ simp stopped (scan_symbols-IsKept exchange symbols x k)
    | inr going ↦ simp going (
        scan_symbols-IsKept exchange symbols _ (
          on_fetch-IsKept exchange symbol x.scanner (fetch exchange symbol x.world).0
            (fetch exchange symbol x.world).1 k))
  ]

  -- From a ring of the same kind, a scan keeps at most as many opportunities as the ring has places. Each of them pays at least the
  -- minimum a year, by the size of its rate and the number of periods, and is short the perpetual and
  -- long the spot just if its rate is positive.
  pub scan_once_keeps :
      (x : FundingRateScanner) (w : W)
      → IsKept s x
      → IsKept s (scan_once s books now new_id fetch on_opportunity x w).scanner
  unfolding scan_once
  scan_once_keeps x w k =
      scan_symbols-IsKept (scanned_exchange s) (parse_symbols s.funding_rate_symbols) _ k
