-- ===== src/Strategy/Triangular/Scan.antt =====
-- `_scan_once` of app/strategy/triangular_scanner.py. `W` is the world beyond the scanner: it shows the
-- books and the time, and the callback and the start of a poll change it. The callback's exceptions are
-- caught, so the callback is a change of the world.
use arb_system.Base.{
  ℕ, ◌+◌, Bool, true, false, Text, Option, none, some, List, [], ◌∷◌, Decimal, leb_ℤ, if◌then◌else◌,
  append_bounded,
}
use arb_system.Settings.{selected_exchange}
use arb_system.MarketData.Books.{Books}
use arb_system.Strategy.Fees.{FeeModel}
use arb_system.Strategy.Triangular.{
  Triangle, TriangularOpportunity, TriangularScanner, pairs_for, parse_triangles,
}
use arb_system.Strategy.Triangular.Evaluate.{Evaluation, raised, nothing, found, evaluate_direction}

-- The settings that the scanner reads (app/config/settings.py).
pub record TriangularSettings : Type 0 where
  pub exchanges : Text
  pub triangular_exchange : Text
  pub triangular_triangles : Text
  pub triangular_min_net_edge_bps : Decimal
  pub max_notional_per_trade : Decimal

abbrev pub scanned_exchange : TriangularSettings → Text
scanned_exchange s = selected_exchange s.exchanges s.triangular_exchange

-- `_RING_MAX`
abbrev pub ring_max : ℕ
ring_max = 200

-- A scan under way. After an exception it does nothing more.
pub record Scan (W : Type 0) : Type 0 where
  pub scanner : TriangularScanner
  pub world : W
  pub stopped : Bool

abbrev call : {W : Type 0} → Option (TriangularOpportunity → W → W) → TriangularOpportunity → W → W
call none o w = w
call (some callback) o w = callback o w

unfoldable pub detected : TriangularOpportunity → TriangularScanner → TriangularScanner
detected o s = record s {
  ring = append_bounded ring_max o s.ring;
  session_count = s.session_count + 1;
}

module _ {W : Type 0} (s : TriangularSettings) (fees : FeeModel) (books : W → Books) (now : W → ℕ)
    (new_id : ℕ → Text) (on_opportunity : Option (TriangularOpportunity → W → W)) where
  abbrev pub on_evaluation : Evaluation → Scan W → Scan W
  on_evaluation nothing x = x
  on_evaluation raised x = record x { stopped = true }
  on_evaluation (found o) x =
      if leb_ℤ s.triangular_min_net_edge_bps o.net_edge_bps
      then record {
        scanner = detected o x.scanner;
        world = call on_opportunity o x.world;
        stopped = x.stopped;
      }
      else x

  unfoldable pub scan_direction : Text → Triangle → Bool → Scan W → Scan W
  scan_direction exchange t reverse x =
      if x.stopped
      then x
      else on_evaluation
          (evaluate_direction fees (books x.world) (now x.world) (new_id x.scanner.session_count)
            exchange t s.max_notional_per_trade reverse)
          x

  unfoldable pub scan_triangles : Text → List Triangle → Scan W → Scan W
  scan_triangles exchange [] x = x
  scan_triangles exchange (t ∷ ts) x =
      scan_triangles exchange ts
        (scan_direction exchange t true (scan_direction exchange t false x))

  -- The registry knows an exchange or raises `KeyError`; `ensure_polling` starts polling a pair.
  module _ (known : Text → Bool) (ensure_polling : Text → Text → W → W) where
    unfoldable pub poll_pairs : Text → List Triangle → W → W
    poll_pairs exchange [] w = w
    poll_pairs exchange (t ∷ ts) w =
        let pairs = pairs_for t in
        poll_pairs exchange ts (
          ensure_polling exchange pairs.ca
            (ensure_polling exchange pairs.cb (ensure_polling exchange pairs.ba w)))

    unfoldable pub scan_once : TriangularScanner → W → Scan W
    scan_once scanner w =
        let begun = record scanner {
          scan_count = scanner.scan_count + 1;
          last_scan_at = some (now w);
        } in
        let exchange = scanned_exchange s in
        let triangles = parse_triangles s.triangular_triangles in
        if known exchange
        then scan_triangles exchange triangles
            (record { scanner = begun; world = poll_pairs exchange triangles w; stopped = false })
        else record { scanner = begun; world = w; stopped = false }
