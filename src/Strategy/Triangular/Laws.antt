-- ===== src/Strategy/Triangular/Laws.antt =====
-- What `_evaluate_direction` and `_scan_once` of app/strategy/triangular_scanner.py detect.
use arb_system.Base.{
  ℕ, ◌≤◌, ◌≡◌, refl, sym, Bool, true, false, Text, Option, none, some, List, [], ◌∷◌, Decimal, pos,
  ◌≤ℤ◌, ◌<ℤ◌, leb_ℤ, eqb_ℤ, Bool-cases, inl, inr, arith, All, All-append_bounded, length,
  length-append_bounded-le, min_le, min_ℤ, ◌-ℤ◌,
}
use arb_system.MarketData.Books
use arb_system.MarketData.Books.{Books}
use arb_system.Strategy.Fees.{FeeModel}
use arb_system.Strategy.Triangular.{
  Triangle, TriangularOpportunity, TriangularScanner, pairs_for, parse_triangles,
}
use arb_system.Strategy.Triangular.Evaluate.{
  Tops, tops_of, least, trip_of, forward_trip, reverse_trip, Evaluation, raised, nothing, found,
  any_stale, opportunity_of, evaluate_tops, evaluate_direction,
}
use arb_system.Strategy.Triangular.Scan.{
  TriangularSettings, Scan, ring_max, scanned_exchange, detected, on_evaluation, scan_direction,
  scan_triangles, scan_once,
}

found_of : (a b : TriangularOpportunity) → found a ≡ found b → a ≡ b
found_of a b e = cc

module _ (fees : FeeModel) (books : Books) (now : ℕ) (id exchange : Text) (t : Triangle)
    (probe : Decimal) (reverse : Bool) where
  -- What lies behind an opportunity that the evaluation found.
  pub record IsFound (o : TriangularOpportunity) : Type 0 where
    pub tops : Tops
    pub quoted :
        tops_of
          (Books.get books exchange (pairs_for t).ba)
          (Books.get books exchange (pairs_for t).cb)
          (Books.get books exchange (pairs_for t).ca)
        ≡ some tops
    pub fresh : any_stale fees books now id exchange t probe ≡ false
    pub positive : pos 0 <ℤ least tops
    pub same :
        o ≡ opportunity_of fees books now id exchange t probe reverse (trip_of reverse t tops probe)

  evaluate_tops-IsFound :
      (m : Option Tops) (o : TriangularOpportunity)
      → tops_of
          (Books.get books exchange (pairs_for t).ba)
          (Books.get books exchange (pairs_for t).cb)
          (Books.get books exchange (pairs_for t).ca)
        ≡ m
      → evaluate_tops fees books now id exchange t probe reverse m ≡ found o
      → IsFound o
  evaluate_tops-IsFound none o q e = absurd (cc)
  evaluate_tops-IsFound (some p) o q e =
      elim (Bool-cases (any_stale fees books now id exchange t probe)) [
        | inl stale ↦ absurd (ground (arith, stale, e))
        | inr fresh ↦ elim (Bool-cases (leb_ℤ (least p) (pos 0))) [
          | inl low ↦ absurd (ground (arith, fresh, low, e))
          | inr high ↦ elim (Bool-cases (eqb_ℤ probe (pos 0))) [
            | inl zero ↦ absurd (ground (arith, fresh, high, zero, e))
            | inr some_probe ↦ record {
              tops = p;
              quoted = q;
              fresh = fresh;
              positive = ground (arith, high);
              same = sym (found_of _ o (rw (fresh, high, some_probe) at e));
            }
          ]
        ]
      ]

  pub evaluate_direction-IsFound :
      (o : TriangularOpportunity)
      → evaluate_direction fees books now id exchange t probe reverse ≡ found o
      → IsFound o
  unfolding evaluate_direction
  evaluate_direction-IsFound o e = evaluate_tops-IsFound _ o refl e

pub least_le :
    (p : Tops)
    → pos 0 <ℤ least p
    → (pos 0 <ℤ p.ask_ba)
      × (pos 0 <ℤ p.bid_ba)
      × (pos 0 <ℤ p.ask_cb)
      × (pos 0 <ℤ p.bid_cb)
      × (pos 0 <ℤ p.ask_ca)
      × (pos 0 <ℤ p.bid_ca)
least_le p h =
    let a =
      min_le p.ask_ba
        (min_ℤ p.ask_cb (min_ℤ p.ask_ca (min_ℤ p.bid_ba (min_ℤ p.bid_cb p.bid_ca)))) in
    let b = min_le p.ask_cb (min_ℤ p.ask_ca (min_ℤ p.bid_ba (min_ℤ p.bid_cb p.bid_ca))) in
    let c = min_le p.ask_ca (min_ℤ p.bid_ba (min_ℤ p.bid_cb p.bid_ca)) in
    let d = min_le p.bid_ba (min_ℤ p.bid_cb p.bid_ca) in
    let e = min_le p.bid_cb p.bid_ca in
    (omega arith, omega arith, omega arith, omega arith, omega arith, omega arith)

-- An opportunity that was worth reporting when it was found.
pub record IsDetected {W : Type 0} (s : TriangularSettings) (books : W → Books) (now : W → ℕ)
    (o : TriangularOpportunity) : Type 0 where
  pub world : W
  pub seen : o.detected_at ≡ now world
  pub ba_fresh : Books.is_stale (books world) o.exchange o.pair_ba (now world) ≡ false
  pub cb_fresh : Books.is_stale (books world) o.exchange o.pair_cb (now world) ≡ false
  pub ca_fresh : Books.is_stale (books world) o.exchange o.pair_ca (now world) ≡ false
  pub priced : (pos 0 <ℤ o.price_leg1) × (pos 0 <ℤ o.price_leg2) × (pos 0 <ℤ o.price_leg3)
  pub net : o.net_edge_bps ≡ o.gross_edge_bps -ℤ o.fee_bps_total
  pub edge : s.triangular_min_net_edge_bps ≤ℤ o.net_edge_bps

trip-priced :
    (reverse : Bool) (t : Triangle) (p : Tops) (probe : Decimal)
    → pos 0 <ℤ least p
    → (pos 0 <ℤ (trip_of reverse t p probe).price1)
      × (pos 0 <ℤ (trip_of reverse t p probe).price2)
      × (pos 0 <ℤ (trip_of reverse t p probe).price3)
unfolding forward_trip reverse_trip
trip-priced false t p probe h = let l = least_le p h in (l.0, l.2, l.5)
trip-priced true t p probe h = let l = least_le p h in (l.4, l.3, l.1)

-- The ring holds no more than its bound, and nothing but opportunities that were worth reporting.
abbrev pub IsKept :
    {W : Type 0} → TriangularSettings → (W → Books) → (W → ℕ) → TriangularScanner → Type 0
IsKept s books now x = (length x.ring ≤ ring_max) × All (IsDetected s books now) x.ring

detected-IsKept :
    {W : Type 0} (s : TriangularSettings) (books : W → Books) (now : W → ℕ)
    (o : TriangularOpportunity) (x : TriangularScanner)
    → IsDetected s books now o
    → IsKept s books now x
    → IsKept s books now (detected o x)
unfolding detected
detected-IsKept s books now o x d k = (
  length-append_bounded-le ring_max o x.ring,
  All-append_bounded (IsDetected s books now) ring_max o x.ring d k.1,
)

module _ {W : Type 0} (s : TriangularSettings) (fees : FeeModel) (books : W → Books) (now : W → ℕ)
    (new_id : ℕ → Text) (on_opportunity : Option (TriangularOpportunity → W → W)) where
  found-IsDetected :
      (id exchange : Text) (t : Triangle) (reverse : Bool) (w : W) (o : TriangularOpportunity)
      → IsFound fees (books w) (now w) id exchange t s.max_notional_per_trade reverse o
      → s.triangular_min_net_edge_bps ≤ℤ o.net_edge_bps
      → IsDetected s books now o
  found-IsDetected id exchange t reverse w o f edge =
      let edge' = rw f.same at edge in
      let quiet = f.fresh in
      rw f.same (record {
        world = w;
        seen = refl;
        ba_fresh = ground (arith, quiet);
        cb_fresh = ground (arith, quiet);
        ca_fresh = ground (arith, quiet);
        priced = trip-priced reverse t f.tops s.max_notional_per_trade f.positive;
        net = refl;
        edge = edge';
      })

  on_evaluation-IsKept :
      (ev : Evaluation) (x : Scan W)
      → ((o : TriangularOpportunity)
          → ev ≡ found o
          → s.triangular_min_net_edge_bps ≤ℤ o.net_edge_bps
          → IsDetected s books now o)
      → IsKept s books now x.scanner
      → IsKept s books now (on_evaluation s fees books now new_id on_opportunity ev x).scanner
  on_evaluation-IsKept nothing x d k = k
  on_evaluation-IsKept raised x d k = k
  on_evaluation-IsKept (found o) x d k =
      elim (Bool-cases (leb_ℤ s.triangular_min_net_edge_bps o.net_edge_bps)) [
        | inl high ↦
            rw high (detected-IsKept s books now o x.scanner (d o refl (ground (arith, high))) k)
        | inr low ↦ rw low k
      ]

  scan_direction-IsKept :
      (exchange : Text) (t : Triangle) (reverse : Bool) (x : Scan W)
      → IsKept s books now x.scanner
      → IsKept s books now
          (scan_direction s fees books now new_id on_opportunity exchange t reverse x).scanner
  unfolding scan_direction
  scan_direction-IsKept exchange t reverse x k = elim (Bool-cases x.stopped) [
    | inl stopped ↦ rw stopped k
    | inr going ↦ simp going (
        on_evaluation-IsKept _ x
          (λ o e edge.
            found-IsDetected (new_id x.scanner.session_count) exchange t reverse x.world o
              (evaluate_direction-IsFound fees (books x.world) (now x.world)
                (new_id x.scanner.session_count) exchange t s.max_notional_per_trade reverse o e)
              edge)
          k)
  ]

  scan_triangles-IsKept :
      (exchange : Text) (ts : List Triangle) (x : Scan W)
      → IsKept s books now x.scanner
      → IsKept s books now
          (scan_triangles s fees books now new_id on_opportunity exchange ts x).scanner
  unfolding scan_triangles
  scan_triangles-IsKept exchange [] x k = k
  scan_triangles-IsKept exchange (t ∷ ts) x k =
      scan_triangles-IsKept exchange ts _
        (scan_direction-IsKept exchange t true _ (scan_direction-IsKept exchange t false x k))

  -- From a ring of the same kind, a scan keeps at most as many opportunities as the ring has places, and
  -- every one of them was found while the books of its three pairs were fresh, at positive prices, with a net edge of at least the
  -- minimum after the fees of the three trades.
  pub scan_once-IsKept :
      (known : Text → Bool) (ensure_polling : Text → Text → W → W) (x : TriangularScanner) (w : W)
      → IsKept s books now x
      → IsKept s books now
          (scan_once s fees books now new_id on_opportunity known ensure_polling x w).scanner
  unfolding scan_once
  scan_once-IsKept known ensure_polling x w k = elim (Bool-cases (known (scanned_exchange s))) [
    | inl good ↦
        rw good
          (scan_triangles-IsKept (scanned_exchange s) (parse_triangles s.triangular_triangles) _ k)
    | inr bad ↦ rw bad k
  ]
