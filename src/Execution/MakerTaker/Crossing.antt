-- ===== src/Execution/MakerTaker/Crossing.antt =====
-- What the walk along the asks of app/execution/maker_taker_executor.py buys.
use arb_system.Base.{
  ◌≡◌, sym, ◌⊎◌, inl, inr, Option, none, some, List, [], ◌∷◌, Decimal, pos, ◌+ℤ◌, ◌≤ℤ◌, ◌<ℤ◌, min_ℤ,
  min_cases, leb_ℤ, ltb_ℤ, arith, int_laws, leb→le_ℤ, leb→lt_ℤ, Bool-cases, +ℤ_zero, zero_+ℤ,
  +ℤ_assoc,
}
use arb_system.Models.{Side, OrderBookLevel}
use arb_system.Strategy.Slippage.{depth}
use arb_system.Execution.Policy.{sum_within}
use arb_system.Execution.PaperFill.Fills.{
  prefix, IsOffer, IsSorted, prefix-IsOffer, IsOffer-depth, depth-prefix,
}
use arb_system.Execution.MakerTaker.{FillState}
use arb_system.Execution.MakerTaker.Wait.{Waited, Crossed, whole_amount, only, cross_asks, crossed}

module _ (price amount : Decimal) where
  -- The walk against all that the asks at the price or below offer.
  abbrev Fills : Crossed → Decimal → Type 0
  Fills whole_amount total = amount ≤ℤ total
  Fills (only f) total = (f ≡ total) × (total <ℤ amount)

  cross_asks-Fills :
      (ls : List OrderBookLevel) (acc : Decimal)
      → acc <ℤ amount
      → IsOffer ls
      → Fills (cross_asks price amount ls acc) (acc +ℤ depth (prefix Side.buy (some price) ls))
  unfolding cross_asks depth
  cross_asks-Fills [] acc h v = (sym (+ℤ_zero acc), omega int_laws)
  cross_asks-Fills (l ∷ ls) acc h v = elim (Bool-cases (ltb_ℤ price l.price)) [
    | inl worse ↦ rw worse (sym (+ℤ_zero acc), omega int_laws)
    | inr fine ↦ elim (Bool-cases (leb_ℤ amount (acc +ℤ l.size))) [
      | inl enough ↦
          rw (fine, enough)
            (omega (
              int_laws,
              leb→le_ℤ amount (acc +ℤ l.size) enough,
              IsOffer-depth (prefix Side.buy (some price) ls)
                  (prefix-IsOffer Side.buy (some price) ls v.1),
            ))
      | inr short ↦
          rw (fine, short)
            (rw (← +ℤ_assoc acc l.size (depth (prefix Side.buy (some price) ls)))
              (cross_asks-Fills ls (acc +ℤ l.size) (leb→lt_ℤ amount (acc +ℤ l.size) short) v.1))
    ]
  ]

  pub crossed-cases :
      (c : Crossed) (rest : Option Waited) (x : Waited)
      → crossed price amount c rest ≡ some x
      → (crossed price amount c none ≡ some x) ⊎ (rest ≡ some x)
  crossed-cases whole_amount rest x e = inl e
  crossed-cases (only f) rest x e = elim (Bool-cases (ltb_ℤ (pos 0) f)) [
    | inl more ↦ inl (ground (arith, more, e))
    | inr nothing ↦ inr (ground (arith, nothing, e))
  ]

  -- What a walk that fills something buys.
  pub record IsBought (asks : List OrderBookLevel) (x : Waited) : Type 0 where
    pub positive : pos 0 <ℤ x.filled
    pub least :
        IsOffer asks
        → IsSorted Side.buy asks
        → x.filled ≡ min_ℤ amount (sum_within Side.buy price asks)
    pub state : (x.state ≡ FillState.full) ⊎ (x.state ≡ FillState.partial)

  Fills-least :
      (asks : List OrderBookLevel) (c : Crossed) (x : Waited)
      → Fills c (depth (prefix Side.buy (some price) asks))
      → IsSorted Side.buy asks
      → crossed price amount c none ≡ some x
      → x.filled ≡ min_ℤ amount (sum_within Side.buy price asks)
  Fills-least asks c x f sorted e = rw (← depth-prefix Side.buy price asks sorted) (go c f e)
    where
      go :
          (c : Crossed)
          → Fills c (depth (prefix Side.buy (some price) asks))
          → crossed price amount c none ≡ some x
          → x.filled ≡ min_ℤ amount (depth (prefix Side.buy (some price) asks))
      go whole_amount f e =
          ground (arith, e, f, min_cases amount (depth (prefix Side.buy (some price) asks)))
      go (only n) f e = elim (Bool-cases (ltb_ℤ (pos 0) n)) [
        | inl more ↦
            ground (
              arith,
              more,
              e,
              f.0,
              f.1,
              min_cases amount (depth (prefix Side.buy (some price) asks)),
            )
        | inr nothing ↦ absurd (ground (arith, nothing, e))
      ]

  crossed_pos :
      (c : Crossed) (x : Waited)
      → pos 0 <ℤ amount
      → crossed price amount c none ≡ some x
      → (pos 0 <ℤ x.filled) × ((x.state ≡ FillState.full) ⊎ (x.state ≡ FillState.partial))
  crossed_pos whole_amount x h e = (ground (arith, e), inl (ground (arith, e)))
  crossed_pos (only n) x h e = elim (Bool-cases (ltb_ℤ (pos 0) n)) [
    | inl more ↦ (ground (arith, more, e), inr (ground (arith, more, e)))
    | inr nothing ↦ absurd (ground (arith, nothing, e))
  ]

  pub crossed-IsBought :
      (asks : List OrderBookLevel) (x : Waited)
      → pos 0 <ℤ amount
      → crossed price amount (cross_asks price amount asks (pos 0)) none ≡ some x
      → IsBought asks x
  crossed-IsBought asks x h e = record {
    positive = (crossed_pos (cross_asks price amount asks (pos 0)) x h e).0;
    least = λ v sorted.
        Fills-least asks (cross_asks price amount asks (pos 0)) x
          (let t = cross_asks-Fills asks (pos 0) h v in
            rw (zero_+ℤ (depth (prefix Side.buy (some price) asks))) at t)
          sorted e;
    state = (crossed_pos (cross_asks price amount asks (pos 0)) x h e).1;
  }
