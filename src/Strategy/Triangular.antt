-- ===== src/Strategy/Triangular.antt =====
-- app/strategy/triangular_scanner.py: cycles of three trades at one exchange.
pub mod Evaluate
pub mod Scan
pub mod Laws
use arb_system.Base.{
  ℕ, Text, text, upper, split, strip, List, [], ◌∷◌, ◌++◌, Decimal, append_bounded, take, Option,
  some, none, or_default,
}
use mathlib.Core.List.{reverse}

-- (A, B, C)
pub record Triangle : Type 0 where
  pub a : Text
  pub b : Text
  pub c : Text

pub record Pairs : Type 0 where
  pub ba : Text
  pub cb : Text
  pub ca : Text

pub record TriangularOpportunity : Type 0 where
  pub opportunity_id : Text
  pub exchange : Text
  pub direction : Text
  pub triangle : Triangle
  pub pair_ba : Text
  pub pair_cb : Text
  pub pair_ca : Text
  pub price_leg1 : Decimal
  pub price_leg2 : Decimal
  pub price_leg3 : Decimal
  pub probe_quote : Decimal
  pub end_quote : Decimal
  pub gross_edge_bps : Decimal
  pub fee_bps_total : Decimal
  pub net_edge_bps : Decimal
  pub detected_at : ℕ

pub record TriangularScanner : Type 0 where
  pub ring : List TriangularOpportunity
  pub session_count : ℕ
  pub scan_count : ℕ
  pub last_scan_at : Option ℕ

unfoldable pub recent : ℕ → TriangularScanner → List TriangularOpportunity
recent limit s = take limit (reverse s.ring)

unfoldable pub pairs_for : Triangle → Pairs
pairs_for t = record {
  ba = t.b ++ (b'/' ∷ t.a);
  cb = t.c ++ (b'/' ∷ t.b);
  ca = t.c ++ (b'/' ∷ t.a);
}

-- `[p.strip().upper() for p in row if p.strip()]`
abbrev keep_part : Text → List Text → List Text
keep_part [] ps = ps
keep_part (x ∷ s) ps = upper (x ∷ s) ∷ ps

unfoldable pub row_parts : List Text → List Text
row_parts [] = []
row_parts (p ∷ ps) = keep_part (strip p) (row_parts ps)

-- A row of any other arity than three is skipped.
abbrev add_row : List Text → List Triangle → List Triangle
add_row (a ∷ b ∷ c ∷ []) out = record { a = a; b = b; c = c } ∷ out
add_row _ out = out

unfoldable pub parse_rows : List Text → List Triangle
parse_rows [] = []
parse_rows (row ∷ rows) = add_row (row_parts (split b',' row)) (parse_rows rows)

unfoldable pub parse_triangles : Text → List Triangle
parse_triangles raw = parse_rows (split b';' raw)
