-- ===== src/Strategy/Slippage/Depth.antt =====
-- How much the walks of app/strategy/slippage_model.py fill.
use arb_system.Base.{
  ◌≡◌, true, false, List, [], ◌∷◌, Decimal, pos, ◌+ℤ◌, ◌-ℤ◌, ◌≤ℤ◌, ◌<ℤ◌, min_ℤ, min_cases, leb_ℤ,
  arith, int_laws, All, Bool-cases, inl, inr, ◌∙◌, +ℤ_assoc, zero_+ℤ,
}
use arb_system.Models.{OrderBookLevel, OrderBookSnapshot}
use arb_system.Strategy.Slippage.{Walk, walk, new_walk, priced, vwap_of, vwap_buy, vwap_sell, depth}

-- No level offers a negative size.
abbrev pub IsLadder : List OrderBookLevel → Type 0
IsLadder = All (λ l. pos 0 ≤ℤ l.size)

pub depth_nonneg : (ls : List OrderBookLevel) → IsLadder ls → pos 0 ≤ℤ depth ls
unfolding depth
depth_nonneg [] v = omega arith
depth_nonneg (l ∷ ls) v = omega (int_laws, depth_nonneg ls v.1, v.0)

-- One step of a walk: `r` remains, the level offers `s`, and the levels behind it `d`.
module _ (r s d : Decimal) (deep : pos 0 ≤ℤ d) where
  pub last_step : leb_ℤ (r -ℤ min_ℤ r s) (pos 0) ≡ true → min_ℤ r s ≡ min_ℤ r (s +ℤ d)
  last_step done = grind (int_laws, min_cases r s, min_cases r (s +ℤ d))

  pub next_step :
      leb_ℤ (r -ℤ min_ℤ r s) (pos 0) ≡ false
      → (pos 0 <ℤ r -ℤ min_ℤ r s) × (min_ℤ r s +ℤ min_ℤ (r -ℤ min_ℤ r s) d ≡ min_ℤ r (s +ℤ d))
  next_step more =
      let full : min_ℤ r s ≡ s = grind (int_laws, min_cases r s) in
      (ground arith, rw full (grind (int_laws, min_cases (r -ℤ s) d, min_cases r (s +ℤ d))))

filled-walk :
    (r : Decimal) (ls : List OrderBookLevel) (w : Walk)
    → pos 0 <ℤ r
    → IsLadder ls
    → (walk r ls w).filled ≡ w.filled +ℤ min_ℤ r (depth ls)
unfolding walk depth
filled-walk r [] w h v = grind (int_laws, min_cases r (pos 0))
filled-walk r (l ∷ ls) w h v =
    let deep = depth_nonneg ls v.1 in
    elim (Bool-cases (leb_ℤ (r -ℤ min_ℤ r l.size) (pos 0))) [
      | inl done ↦ rw (done, last_step r l.size (depth ls) deep done)
      | inr more ↦
          let (left, sum) = next_step r l.size (depth ls) deep more in
          rw (more, filled-walk (r -ℤ min_ℤ r l.size) ls _ left v.1)
            (rw (← sum) (+ℤ_assoc w.filled (min_ℤ r l.size) _))
    ]

filled-priced :
    (away : Decimal → Decimal → Decimal) (l : OrderBookLevel) (w : Walk)
    → (priced away l w).filled ≡ w.filled
filled-priced away l w = ground arith

filled-vwap_of :
    (away : Decimal → Decimal → Decimal) (ls : List OrderBookLevel) (target : Decimal)
    → pos 0 <ℤ target
    → IsLadder ls
    → (vwap_of away ls target).filled ≡ min_ℤ target (depth ls)
unfolding depth
filled-vwap_of away [] target h v = grind (int_laws, min_cases target (pos 0))
filled-vwap_of away (l ∷ ls) target h v =
    let positive : leb_ℤ target (pos 0) ≡ false = ground arith in
    rw positive (
      filled-priced away l (walk target (l ∷ ls) new_walk)
      ∙ filled-walk target (l ∷ ls) new_walk h v
      ∙ zero_+ℤ (min_ℤ target (l.size +ℤ depth ls)))

-- A walk over levels with no negative size fills just what is asked or, if there is less, all that
-- the levels offer, on either side of the book.
pub vwap-filled :
    (book : OrderBookSnapshot) (target : Decimal)
    → pos 0 <ℤ target
    → IsLadder book.asks
    → IsLadder book.bids
    → ((vwap_buy book target).filled ≡ min_ℤ target (depth book.asks))
      × ((vwap_sell book target).filled ≡ min_ℤ target (depth book.bids))
unfolding vwap_buy vwap_sell
vwap-filled book target h a b = (
  filled-vwap_of (λ vwap top. vwap -ℤ top) book.asks target h a,
  filled-vwap_of (λ vwap top. top -ℤ vwap) book.bids target h b,
)
