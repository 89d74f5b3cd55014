-- ===== src/Strategy/Triangular/Evaluate.antt =====
-- `_evaluate_direction` of app/strategy/triangular_scanner.py. The books, the time and the new id are
-- arguments.
use arb_system.Base.{
  ℕ, Bool, true, false, ◌||◌, Text, text, arrow, ◌++◌, Option, none, some, Decimal, pos, whole,
  ◌+ℤ◌, ◌-ℤ◌, min_ℤ, mul_dec, div_dec, leb_ℤ, eqb_ℤ, if◌then◌else◌,
}
use arb_system.Models.{OrderBookSnapshot, best_ask, best_bid}
use arb_system.MarketData.Books
use arb_system.MarketData.Books.{Books}
use arb_system.Strategy.Fees.{FeeModel, taker_bps}
use arb_system.Strategy.Triangular.{Triangle, TriangularOpportunity, pairs_for}

-- The best prices of the three books.
pub record Tops : Type 0 where
  pub ask_ba : Decimal
  pub bid_ba : Decimal
  pub ask_cb : Decimal
  pub bid_cb : Decimal
  pub ask_ca : Decimal
  pub bid_ca : Decimal

abbrev tops :
    Option Decimal
    → Option Decimal
    → Option Decimal
    → Option Decimal
    → Option Decimal
    → Option Decimal
    → Option Tops
tops (some ask_ba) (some bid_ba) (some ask_cb) (some bid_cb) (some ask_ca) (some bid_ca) =
    some record {
      ask_ba = ask_ba;
      bid_ba = bid_ba;
      ask_cb = ask_cb;
      bid_cb = bid_cb;
      ask_ca = ask_ca;
      bid_ca = bid_ca;
    }
tops _ _ _ _ _ _ = none

-- Nothing if a book is missing or one of its sides is empty.
abbrev pub tops_of :
    Option OrderBookSnapshot → Option OrderBookSnapshot → Option OrderBookSnapshot → Option Tops
tops_of (some ba) (some cb) (some ca) =
    tops (best_ask ba) (best_bid ba) (best_ask cb) (best_bid cb) (best_ask ca) (best_bid ca)
tops_of _ _ _ = none

abbrev pub least : Tops → Decimal
least p =
    min_ℤ p.ask_ba (min_ℤ p.ask_cb (min_ℤ p.ask_ca (min_ℤ p.bid_ba (min_ℤ p.bid_cb p.bid_ca))))

pub record Trip : Type 0 where
  pub end_quote : Decimal
  pub price1 : Decimal
  pub price2 : Decimal
  pub price3 : Decimal
  pub direction : Text

abbrev path : Text → Text → Text → Text
path a b c = a ++ (arrow ++ (b ++ (arrow ++ (c ++ (arrow ++ a)))))

unfoldable pub forward_trip : Triangle → Tops → Decimal → Trip
forward_trip t p probe =
    let qty_b = div_dec probe p.ask_ba in
    let qty_c = div_dec qty_b p.ask_cb in
    record {
      end_quote = mul_dec qty_c p.bid_ca;
      price1 = p.ask_ba;
      price2 = p.ask_cb;
      price3 = p.bid_ca;
      direction = path t.a t.b t.c;
    }

unfoldable pub reverse_trip : Triangle → Tops → Decimal → Trip
reverse_trip t p probe =
    let qty_c = div_dec probe p.ask_ca in
    let qty_b = mul_dec qty_c p.bid_cb in
    record {
      end_quote = mul_dec qty_b p.bid_ba;
      price1 = p.ask_ca;
      price2 = p.bid_cb;
      price3 = p.bid_ba;
      direction = path t.a t.c t.b;
    }

abbrev pub trip_of : Bool → Triangle → Tops → Decimal → Trip
trip_of false t p probe = forward_trip t p probe
trip_of true t p probe = reverse_trip t p probe

-- `raised` is the exception of a division by zero.
pub data Evaluation : Type 0 where
  raised nothing : Evaluation
  found : TriangularOpportunity → Evaluation

module _ (fees : FeeModel) (books : Books) (now : ℕ) (id exchange : Text) (t : Triangle)
    (probe : Decimal) where
  abbrev pub any_stale : Bool
  any_stale =
      let pairs = pairs_for t in
      Books.is_stale books exchange pairs.ba now
      || Books.is_stale books exchange pairs.cb now
      || Books.is_stale books exchange pairs.ca now

  abbrev pub first_pair : Bool → Text
  first_pair reverse = if reverse then (pairs_for t).ca else (pairs_for t).ba

  abbrev pub last_pair : Bool → Text
  last_pair reverse = if reverse then (pairs_for t).ba else (pairs_for t).ca

  unfoldable pub fees_total : Bool → Decimal
  fees_total reverse =
      taker_bps fees exchange (first_pair reverse) (text "taker")
      +ℤ taker_bps fees exchange (pairs_for t).cb (text "taker")
      +ℤ taker_bps fees exchange (last_pair reverse) (text "taker")

  unfoldable pub gross_bps : Trip → Decimal
  gross_bps trip = mul_dec (div_dec (trip.end_quote -ℤ probe) probe) (whole 10000)

  abbrev pub opportunity_of : Bool → Trip → TriangularOpportunity
  opportunity_of reverse trip = record {
    opportunity_id = id;
    exchange = exchange;
    direction = trip.direction;
    triangle = t;
    pair_ba = (pairs_for t).ba;
    pair_cb = (pairs_for t).cb;
    pair_ca = (pairs_for t).ca;
    price_leg1 = trip.price1;
    price_leg2 = trip.price2;
    price_leg3 = trip.price3;
    probe_quote = probe;
    end_quote = trip.end_quote;
    gross_edge_bps = gross_bps trip;
    fee_bps_total = fees_total reverse;
    net_edge_bps = gross_bps trip -ℤ fees_total reverse;
    detected_at = now;
  }

  abbrev pub evaluate_tops : Bool → Option Tops → Evaluation
  evaluate_tops reverse none = nothing
  evaluate_tops reverse (some p) =
      if any_stale || leb_ℤ (least p) (pos 0)
      then nothing
      else if eqb_ℤ probe (pos 0)
      then raised
      else found (opportunity_of reverse (trip_of reverse t p probe))

  unfoldable pub evaluate_direction : Bool → Evaluation
  evaluate_direction reverse =
      let pairs = pairs_for t in
      evaluate_tops reverse (
        tops_of (Books.get books exchange pairs.ba) (Books.get books exchange pairs.cb)
          (Books.get books exchange pairs.ca))
