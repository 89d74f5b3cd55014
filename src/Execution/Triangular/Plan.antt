-- ===== src/Execution/Triangular/Plan.antt =====
-- What `_plan` of app/execution/triangular_executor.py makes of an opportunity that
-- app/strategy/triangular_scanner.py found.
use arb_system.Base.{
  ℕ, ◌≡◌, ◌≢◌, refl, Bool, true, false, Text, text_has, text_eq, text_eq_refl, text_eq_iff,
  split_arrow, split_arrow-append, split_arrow-last, arrow, Option, none, some, List, [], ◌∷◌, ◌++◌,
  Decimal, pos, ◌<ℤ◌, mul_dec, div_dec, arith, All, length,
}
use arb_system.Models.{Side, OrderBookSnapshot, best_ask, best_bid}
use arb_system.MarketData.Books
use arb_system.MarketData.Books.{Books}
use arb_system.Strategy.Fees.{FeeModel}
use arb_system.Strategy.Triangular.{Triangle, TriangularOpportunity, pairs_for}
use arb_system.Strategy.Triangular.Evaluate.{
  Tops, tops_of, least, forward_trip, reverse_trip, trip_of, found, any_stale, opportunity_of,
  evaluate_direction,
}
use arb_system.Strategy.Triangular.Laws.{evaluate_direction-IsFound, least_le}
use arb_system.Execution.Policy.{best_of}
use arb_system.Execution.Triangular.{Leg, plan}

-- A name of an asset that the text of a direction can hold.
abbrev pub IsPlain : Text → Type 0
IsPlain name = text_has b'-' name ≡ false

-- What a quantity becomes in a trade at the price of a leg.
abbrev pub traded : Side → Decimal → Decimal → Decimal
traded Side.buy price q = div_dec q price
traded Side.sell price q = mul_dec q price

unfoldable pub at_prices : List Leg → Decimal → Decimal
at_prices [] q = q
at_prices (l ∷ ls) q = at_prices ls (traded l.side l.price q)

-- A leg trades one asset for another: a purchase of `base/quote` spends the quote asset.
abbrev pub Trades : Side → Text → Text → Text → Type 0
Trades Side.buy pair give take = pair ≡ take ++ (b'/' ∷ give)
Trades Side.sell pair give take = pair ≡ give ++ (b'/' ∷ take)

-- The legs lead from one asset to another.
abbrev pub Leads : List Leg → Text → Text → Type 0
Leads [] give take = give ≡ take
Leads (l ∷ ls) give take = (via : Text) × Trades l.side l.pair give via × Leads ls via take

-- The leg has the best price of its side in a fresh book.
pub record IsQuoted (books : Books) (now : ℕ) (exchange : Text) (l : Leg) : Type 0 where
  pub book : OrderBookSnapshot
  pub current : Books.get books exchange l.pair ≡ some book
  pub fresh : Books.is_stale books exchange l.pair now ≡ false
  pub best : best_of l.side book ≡ some l.price
  pub positive : pos 0 <ℤ l.price

-- A plan that carries out an opportunity.
pub record Carries (books : Books) (now : ℕ) (o : TriangularOpportunity) (ls : List Leg)
    : Type 0 where
  pub legs : length ls ≡ 3
  pub cycle : Leads ls o.triangle.a o.triangle.a
  pub quoted : All (IsQuoted books now o.exchange) ls
  pub brings : at_prices ls o.probe_quote ≡ o.end_quote

parts-path :
    (a b c : Text)
    → IsPlain a
    → IsPlain b
    → IsPlain c
    → split_arrow (a ++ (arrow ++ (b ++ (arrow ++ (c ++ (arrow ++ a)))))) ≡ a ∷ b ∷ c ∷ a ∷ []
parts-path a b c pa pb pc =
    rw
      (
        split_arrow-append a (b ++ (arrow ++ (c ++ (arrow ++ a)))) pa,
        split_arrow-append b (c ++ (arrow ++ a)) pb,
        split_arrow-append c a pc,
        split_arrow-last a pa,
      )
      refl

-- The tops are the best prices of three books that are there.
pub record IsTop (ba cb ca : Option OrderBookSnapshot) (p : Tops) : Type 0 where
  pub book_ba : OrderBookSnapshot
  pub book_cb : OrderBookSnapshot
  pub book_ca : OrderBookSnapshot
  pub is_ba : ba ≡ some book_ba
  pub is_cb : cb ≡ some book_cb
  pub is_ca : ca ≡ some book_ca
  pub ask_ba : best_ask book_ba ≡ some p.ask_ba
  pub bid_ba : best_bid book_ba ≡ some p.bid_ba
  pub ask_cb : best_ask book_cb ≡ some p.ask_cb
  pub bid_cb : best_bid book_cb ≡ some p.bid_cb
  pub ask_ca : best_ask book_ca ≡ some p.ask_ca
  pub bid_ca : best_bid book_ca ≡ some p.bid_ca

tops_of-IsTop :
    (ba cb ca : Option OrderBookSnapshot) (p : Tops) → tops_of ba cb ca ≡ some p → IsTop ba cb ca p
tops_of-IsTop none cb ca p e = absurd (cc)
tops_of-IsTop (some ba) none ca p e = absurd (cc)
tops_of-IsTop (some ba) (some cb) none p e = absurd (cc)
tops_of-IsTop (some ba) (some cb) (some ca) p e = record {
  book_ba = ba;
  book_cb = cb;
  book_ca = ca;
  is_ba = refl;
  is_cb = refl;
  is_ca = refl;
  ask_ba = ground (arith, e);
  bid_ba = ground (arith, e);
  ask_cb = ground (arith, e);
  bid_cb = ground (arith, e);
  ask_ca = ground (arith, e);
  bid_ca = ground (arith, e);
}

module _ (fees : FeeModel) (books : Books) (now : ℕ) (id exchange : Text) (t : Triangle)
    (probe : Decimal) (p : Tops) (fresh : any_stale fees books now id exchange t probe ≡ false)
    (positive : pos 0 <ℤ least p)
    (top : IsTop
      (Books.get books exchange (pairs_for t).ba)
      (Books.get books exchange (pairs_for t).cb)
      (Books.get books exchange (pairs_for t).ca)
      p)
    (plain_a : IsPlain t.a) (plain_b : IsPlain t.b) (plain_c : IsPlain t.c) where
  abbrev opp : Bool → TriangularOpportunity
  opp reverse =
      opportunity_of fees books now id exchange t probe reverse (trip_of reverse t p probe)

  -- A leg on one of the three pairs.
  quoted :
      (l : Leg) (book : OrderBookSnapshot)
      → Books.get books exchange l.pair ≡ some book
      → Books.is_stale books exchange l.pair now ≡ false
      → best_of l.side book ≡ some l.price
      → pos 0 <ℤ l.price
      → IsQuoted books now exchange l
  quoted l book is_book is_fresh is_best is_positive = record {
    book = book;
    current = is_book;
    fresh = is_fresh;
    best = is_best;
    positive = is_positive;
  }

  ba_fresh : Books.is_stale books exchange (pairs_for t).ba now ≡ false
  ba_fresh = ground (arith, fresh)

  cb_fresh : Books.is_stale books exchange (pairs_for t).cb now ≡ false
  cb_fresh = ground (arith, fresh)

  ca_fresh : Books.is_stale books exchange (pairs_for t).ca now ≡ false
  ca_fresh = ground (arith, fresh)

  forward-Carries : Carries books now (opp false) (plan (opp false))
  unfolding plan forward_trip at_prices pairs_for
  forward-Carries =
      rw (parts-path t.a t.b t.c plain_a plain_b plain_c, text_eq_refl t.a, text_eq_refl t.b)
        (record {
          legs = refl;
          cycle = (t.b, refl, (t.c, refl, (t.a, refl, refl)));
          quoted = (
            quoted _ top.book_ba top.is_ba ba_fresh top.ask_ba (least_le p positive).0,
            (
              quoted _ top.book_cb top.is_cb cb_fresh top.ask_cb (least_le p positive).2,
              (quoted _ top.book_ca top.is_ca ca_fresh top.bid_ca (least_le p positive).5, tt),
            ),
          );
          brings = refl;
        })

  reverse-Carries : t.b ≢ t.c → Carries books now (opp true) (plan (opp true))
  unfolding plan reverse_trip at_prices pairs_for
  reverse-Carries distinct =
      let other : text_eq t.c t.b ≡ false = ground (arith, text_eq_iff t.c t.b, distinct) in
      rw (parts-path t.a t.c t.b plain_a plain_c plain_b, text_eq_refl t.a, other)
        (record {
          legs = refl;
          cycle = (t.c, refl, (t.b, refl, (t.a, refl, refl)));
          quoted = (
            quoted _ top.book_ca top.is_ca ca_fresh top.ask_ca (least_le p positive).4,
            (
              quoted _ top.book_cb top.is_cb cb_fresh top.bid_cb (least_le p positive).3,
              (quoted _ top.book_ba top.is_ba ba_fresh top.bid_ba (least_le p positive).1, tt),
            ),
          );
          brings = refl;
        })

-- An opportunity that the scanner finds is carried out by a plan of three legs that lead from the first
-- asset of the triangle back to it, each at the best price of its side in a fresh book, and that turn
-- the probe into the end amount the scanner computed, as long as no name of an asset holds a dash and
-- the two assets in between differ.
pub plan-Carries :
    (fees : FeeModel) (books : Books) (now : ℕ) (id exchange : Text) (t : Triangle)
    (probe : Decimal) (reverse : Bool) (o : TriangularOpportunity)
    → IsPlain t.a
    → IsPlain t.b
    → IsPlain t.c
    → t.b ≢ t.c
    → evaluate_direction fees books now id exchange t probe reverse ≡ found o
    → Carries books now o (plan o)
plan-Carries fees books now id exchange t probe reverse o pa pb pc distinct e =
    let f = evaluate_direction-IsFound fees books now id exchange t probe reverse o e in
    let top = tops_of-IsTop _ _ _ f.tops f.quoted in
    rw f.same (either reverse f.tops f.fresh f.positive top)
  where
    either :
        (b : Bool) (p : Tops)
        → any_stale fees books now id exchange t probe ≡ false
        → pos 0 <ℤ least p
        → IsTop
            (Books.get books exchange (pairs_for t).ba)
            (Books.get books exchange (pairs_for t).cb)
            (Books.get books exchange (pairs_for t).ca)
            p
        → Carries books now
            (opportunity_of fees books now id exchange t probe b (trip_of b t p probe))
            (plan (opportunity_of fees books now id exchange t probe b (trip_of b t p probe)))
    either false p fresh positive top =
        forward-Carries fees books now id exchange t probe p fresh positive top pa pb pc
    either true p fresh positive top =
        reverse-Carries fees books now id exchange t probe p fresh positive top pa pb pc distinct
