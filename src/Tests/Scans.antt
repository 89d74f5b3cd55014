-- ===== src/Tests/Scans.antt =====
-- A scan of the small market.
use arb_system.Base.{ℕ, ◌+◌, ◌≡◌, Text, text, List, [], ◌∷◌, All, none, length}
use arb_system.Strategy.Scanner.{Scanner, scan_once}
use arb_system.Strategy.Scanner.Laws.{IsOffered, scan_once-IsOffered}
use arb_system.Strategy.Scanner.Verdicts.{count, rejections, offers, times}
use arb_system.Strategy.Scanner.Counts.{all_verdicts, scan_once-counts}
use arb_system.Settings.{enabled_symbol_list}
use arb_system.Tests.Data.{settings, books, calculator, north, south}

abbrev pub scanner : Scanner
scanner = record {
  scan_count = 3;
  last_scan_at = none;
  session_count = 5;
  accepted_count = 1;
  reject_counts = (text "below_min_edge", 4) ∷ [];
}

abbrev exchanges : List Text
exchanges = north ∷ south ∷ []

abbrev id_of : ℕ → Text
id_of n = n ∷ []

scan_once-IsOffered_example :
    All
      (IsOffered settings books 1_200)
      (scan_once settings books calculator 1_200 id_of exchanges scanner).out
scan_once-IsOffered_example =
    scan_once-IsOffered settings books calculator 1_200 id_of exchanges scanner

scan_once-counts_example :
    let vs =
      all_verdicts settings books calculator 1_200 id_of (enabled_symbol_list settings) exchanges in
    let x = scan_once settings books calculator 1_200 id_of exchanges scanner in
    (x.scanner.session_count ≡ 5 + rejections vs)
    × ((key : Text) → count key x.scanner ≡ count key scanner + times key vs)
    × (length x.out ≡ offers vs)
scan_once-counts_example = scan_once-counts settings books calculator 1_200 id_of exchanges scanner
