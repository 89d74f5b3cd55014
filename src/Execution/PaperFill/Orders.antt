-- ===== src/Execution/PaperFill/Orders.antt =====
-- The order states and the balance changes of app/execution/paper_fill_engine.py.
use arb_system.Base.{
  ◌≡◌, refl, ◌⊎◌, Bool, true, false, not, ◌&&◌, text_has, Option, none, some, Decimal, pos, whole,
  ◌+ℤ◌, ◌≤ℤ◌, ◌<ℤ◌, min_cases, max_ℤ, max_cases, mul_dec, mul_le_self, ltb_ℤ, arith, int_laws,
  Bool-cases, Option-cases, inl, inr, ap, pos_part, neg_part, eq_of_parts, zero_+ℤ,
}
use arb_system.Models.{OrderStatus, OrderIntent, OrderBookSnapshot, UnifiedOrderState}
use arb_system.MarketData.Books
use arb_system.MarketData.Books.{Books}
use arb_system.Accounts.Balances.{Balances}
use arb_system.Strategy.Slippage.{depth}
use arb_system.Execution.Policy.{levels_of}
use arb_system.Execution.PaperFill.{
  PaperEngine, Draw, Fill, is_fok, limit_of, dust, no_fill, fill_levels, kill_partial, cut_fill,
  fill_order, status_of, simulate, simulate_on, filled_order, rejected_order, fee_of,
}
use arb_system.Execution.PaperFill.Fills.{
  IsOffer, prefix, prefix-IsOffer, IsOffer-depth, fill_levels-prefix, fill_levels-Moved,
}

-- What was asked is split into what was filled and what remains, neither of them negative.
pub record IsSplit (amount : Decimal) (f : Fill) : Type 0 where
  pub filled_nonneg : pos 0 ≤ℤ f.filled
  pub remaining_nonneg : pos 0 ≤ℤ f.remaining
  pub sum : f.filled +ℤ f.remaining ≡ amount

no_fill-IsSplit : (amount : Decimal) → pos 0 ≤ℤ amount → IsSplit amount (no_fill amount)
no_fill-IsSplit amount h = omega int_laws

fill_levels-IsSplit :
    (intent : OrderIntent) (book : OrderBookSnapshot)
    → pos 0 <ℤ intent.amount
    → IsOffer (levels_of intent.side book)
    → IsSplit intent.amount (
        fill_levels intent.side
          (limit_of intent)
          (levels_of intent.side book)
          (no_fill intent.amount))
fill_levels-IsSplit intent book h v =
    let side = intent.side in
    let ls = prefix side (limit_of intent) (levels_of side book) in
    let offer = prefix-IsOffer side (limit_of intent) (levels_of side book) v in
    let (one, two) = fill_levels-Moved side ls (no_fill intent.amount) h offer in
    let deep = IsOffer-depth ls offer in
    rw (fill_levels-prefix side (limit_of intent) (levels_of side book) (no_fill intent.amount))
      record {
        filled_nonneg = rw one (grind (int_laws, min_cases intent.amount (depth ls)));
        remaining_nonneg = rw two (grind (int_laws, min_cases intent.amount (depth ls)));
        sum = rw (one, two) (grind (int_laws, min_cases intent.amount (depth ls)));
      }

kill_partial-IsSplit :
    (intent : OrderIntent) (f : Fill)
    → pos 0 ≤ℤ intent.amount
    → IsSplit intent.amount f
    → IsSplit intent.amount (kill_partial intent f)
unfolding kill_partial
kill_partial-IsSplit intent f h v =
    elim (Bool-cases (is_fok intent.order_type && ltb_ℤ dust f.remaining)) [
      | inl killed ↦ rw killed (no_fill-IsSplit intent.amount h)
      | inr kept ↦ rw kept v
    ]

cut_fill-IsSplit :
    (p : PaperEngine) (cut : Bool) (intent : OrderIntent) (f : Fill)
    → p.partial_fill_ratio ≤ℤ whole 1
    → IsSplit intent.amount f
    → IsSplit intent.amount (cut_fill p cut intent f)
unfolding cut_fill
cut_fill-IsSplit p cut intent f ratio v =
    let less = mul_le_self f.filled p.partial_fill_ratio v.filled_nonneg ratio in
    let cuts =
      not intent.is_repair
      && ltb_ℤ (pos 0) f.filled
      && cut
      && ltb_ℤ (pos 0) (mul_dec f.filled p.partial_fill_ratio) in
    elim (Bool-cases cuts) [
      | inl yes_cut ↦
          let some_left : pos 0 <ℤ mul_dec f.filled p.partial_fill_ratio = ground arith in
          let total = ap pos_part v.sum in
          let total' = ap neg_part v.sum in
          rw yes_cut record {
            filled_nonneg = omega arith;
            remaining_nonneg = omega (int_laws, total, total');
            sum = omega int_laws;
          }
      | inr no_cut ↦ rw no_cut v
    ]

pub fill_order-IsSplit :
    (p : PaperEngine) (cut : Bool) (book : OrderBookSnapshot) (intent : OrderIntent)
    → pos 0 <ℤ intent.amount
    → IsOffer (levels_of intent.side book)
    → p.partial_fill_ratio ≤ℤ whole 1
    → IsSplit intent.amount (fill_order p cut book intent)
unfolding fill_order
fill_order-IsSplit p cut book intent h v ratio =
    cut_fill-IsSplit p cut intent _ ratio
      (kill_partial-IsSplit intent _ (omega arith) (fill_levels-IsSplit intent book h v))

-- An order state that is true to the order: what was asked is what was filled and what remains, and
-- the status says which.
pub record IsTrue (intent : OrderIntent) (o : UnifiedOrderState) : Type 0 where
  pub filled_nonneg : pos 0 ≤ℤ o.filled
  pub remaining_nonneg : pos 0 ≤ℤ o.remaining
  pub sum : o.filled +ℤ o.remaining ≡ intent.amount
  pub when_filled : o.status ≡ OrderStatus.filled → o.remaining ≤ℤ dust
  pub when_partial :
      o.status ≡ OrderStatus.partially_filled → (pos 0 <ℤ o.filled) × (dust <ℤ o.remaining)
  pub when_cancelled : o.status ≡ OrderStatus.cancelled → o.filled ≡ pos 0

split-IsTrue :
    (intent : OrderIntent) (d : Draw) (f : Fill) (fee : Option Decimal)
    → IsSplit intent.amount f
    → IsTrue intent (filled_order d intent f fee)
unfolding status_of
split-IsTrue intent d f fee v =
    let same : max_ℤ (pos 0) f.remaining ≡ f.remaining =
      grind (int_laws, max_cases (pos 0) f.remaining, v.remaining_nonneg) in
    record {
      filled_nonneg = v.filled_nonneg;
      remaining_nonneg = rw same v.remaining_nonneg;
      sum = rw same v.sum;
      when_filled = λ s. rw same (ground arith);
      when_partial = λ s. rw same (ground arith);
      when_cancelled = λ s. ground (arith, v.filled_nonneg, eq_of_parts f.filled (pos 0));
    }

-- The status says how much was filled: all but dust, a part, or nothing.
pub record IsGraded (o : UnifiedOrderState) : Type 0 where
  pub as_filled : o.remaining ≤ℤ dust → o.status ≡ OrderStatus.filled
  pub as_partial : pos 0 <ℤ o.filled → dust <ℤ o.remaining → o.status ≡ OrderStatus.partially_filled
  pub as_cancelled : o.filled ≡ pos 0 → dust <ℤ o.remaining → o.status ≡ OrderStatus.cancelled

split-IsGraded :
    (intent : OrderIntent) (d : Draw) (f : Fill) (fee : Option Decimal)
    → IsSplit intent.amount f
    → IsGraded (filled_order d intent f fee)
unfolding status_of
split-IsGraded intent d f fee v =
    let same : max_ℤ (pos 0) f.remaining ≡ f.remaining =
      grind (int_laws, max_cases (pos 0) f.remaining, v.remaining_nonneg) in
    rw same record {
      as_filled = λ h. ground (arith, h);
      as_partial = λ h k. ground (arith, h, k);
      as_cancelled = λ h k.
          let least = ap pos_part h in
          let least' = ap neg_part h in ground (arith, least, least', k);
    }

rejected-IsTrue :
    (intent : OrderIntent) (d : Draw)
    → pos 0 <ℤ intent.amount
    → IsTrue intent (rejected_order d intent)
rejected-IsTrue intent d h = record {
  filled_nonneg = omega arith;
  remaining_nonneg = omega arith;
  sum = zero_+ℤ intent.amount;
  when_filled = λ s. ground arith;
  when_partial = λ s. ground arith;
  when_cancelled = λ s. ground arith;
}

-- A paper order for a positive amount and a symbol with a slash, on a book whose levels all offer
-- something, with a partial ratio of at most one, reports what was filled and what remains of the
-- amount, neither negative. On a book its status is FILLED if what remains is dust, and else
-- PARTIALLY_FILLED if something was filled and CANCELLED if nothing was; with no book it is REJECTED.
pub simulate-IsTrue :
    (p : PaperEngine) (books : Books) (d : Draw) (intent : OrderIntent) (b : Option Balances)
    → pos 0 <ℤ intent.amount
    → p.partial_fill_ratio ≤ℤ whole 1
    → ((book : OrderBookSnapshot)
        → Books.get books intent.exchange intent.symbol ≡ some book
        → IsOffer (levels_of intent.side book))
    → text_has b'/' intent.symbol ≡ true
    → (o : UnifiedOrderState) × ((simulate p books d intent b).0 ≡ some o)
      × IsTrue intent o
      × (Books.get books intent.exchange intent.symbol ≡ none → o.status ≡ OrderStatus.rejected)
      × ((book : OrderBookSnapshot)
          → Books.get books intent.exchange intent.symbol ≡ some book
          → IsGraded o)
unfolding simulate
simulate-IsTrue p books d intent b h ratio offers slash =
    elim (Option-cases (Books.get books intent.exchange intent.symbol)) [
      | inl missing ↦
          rw (missing, simulate_on)
            (
              rejected_order d intent,
              refl,
              rejected-IsTrue intent d h,
              λ _. refl,
              λ book there. absurd (cc),
            )
      | inr (book, found) ↦
          let f = fill_order p d.cut book intent in
          rw (found, simulate_on)
            (rw slash (
              filled_order d intent f (fee_of p intent f),
              refl,
              split-IsTrue intent d f (fee_of p intent f)
                  (fill_order-IsSplit p d.cut book intent h (offers book found) ratio),
              λ missing. cc,
              λ _ _.
                  split-IsGraded intent d f (fee_of p intent f)
                    (fill_order-IsSplit p d.cut book intent h (offers book found) ratio),
            ))
    ]

-- A fill-or-kill order is filled but for dust, or not at all, unless the dice call for a partial fill of
-- one that is no repair: then an order that would have been filled but for dust is filled with the
-- partial ratio of that.
pub fill_order-fok :
    (p : PaperEngine) (cut : Bool) (book : OrderBookSnapshot) (intent : OrderIntent)
    → is_fok intent.order_type ≡ true
    → let f = fill_order p cut book intent in
      let whole_fill = fill_order p false book intent in
      ((f ≡ no_fill intent.amount) ⊎ (f.remaining ≤ℤ dust))
      ⊎ ((cut ≡ true)
          × (intent.is_repair ≡ false)
          × (whole_fill.remaining ≤ℤ dust)
          × (f.filled ≡ mul_dec whole_fill.filled p.partial_fill_ratio))
unfolding fill_order kill_partial cut_fill
fill_order-fok p cut book intent fok = ground arith
