-- ===== src/Execution/PaperFill/Fills.antt =====
-- What the level walk of app/execution/paper_fill_engine.py fills.
use arb_system.Base.{
  ◌≡◌, refl, sym, ◌∙◌, true, false, not, Option, none, some, List, [], ◌∷◌, Decimal, pos, ◌+ℤ◌,
  ◌-ℤ◌, ◌≤ℤ◌, ◌<ℤ◌, min_ℤ, min_cases, leb_ℤ, if◌then◌else◌, arith, int_laws, All, Bool-cases, inl,
  inr, zero_+ℤ,
}
use arb_system.Models.{Side, OrderBookLevel}
use arb_system.Strategy.Slippage.{depth}
use arb_system.Strategy.Slippage.Depth.{last_step, next_step}
use arb_system.Execution.Policy.{within, sum_within}
use arb_system.Execution.PaperFill.{Fill, beyond, no_fill, take_level, fill_levels}

-- The levels before the first that is worse than the limit.
abbrev pub prefix : Side → Option Decimal → List OrderBookLevel → List OrderBookLevel
prefix side limit [] = []
prefix side limit (l ∷ ls) = if beyond side limit l then [] else l ∷ prefix side limit ls

-- Every level offers something.
abbrev pub IsOffer : List OrderBookLevel → Type 0
IsOffer = All (λ l. pos 0 <ℤ l.size)

-- The best price stands first.
abbrev NoBetter : Side → OrderBookLevel → OrderBookLevel → Type 0
NoBetter Side.buy l m = l.price ≤ℤ m.price
NoBetter Side.sell l m = m.price ≤ℤ l.price

abbrev pub IsSorted : Side → List OrderBookLevel → Type 0
IsSorted side [] = Unit
IsSorted side (l ∷ ls) = All (NoBetter side l) ls × IsSorted side ls

-- The fill is the fill of a walk with no limit over the levels that the limit allows: a level that is
-- worse than the limit is never touched, nor anything behind it.
pub fill_levels-prefix :
    (side : Side) (limit : Option Decimal) (ls : List OrderBookLevel) (f : Fill)
    → fill_levels side limit ls f ≡ fill_levels side none (prefix side limit ls) f
unfolding fill_levels
fill_levels-prefix side limit [] f = refl
fill_levels-prefix side limit (l ∷ ls) f = elim (Bool-cases (beyond side limit l)) [
  | inl worse ↦ rw worse
  | inr fine ↦ rw (fine, fill_levels-prefix side limit ls (take_level l f))
]

pub IsOffer-depth : (ls : List OrderBookLevel) → IsOffer ls → pos 0 ≤ℤ depth ls
unfolding depth
IsOffer-depth [] v = omega arith
IsOffer-depth (l ∷ ls) v = omega (int_laws, IsOffer-depth ls v.1, v.0)

pub prefix-IsOffer :
    (side : Side) (limit : Option Decimal) (ls : List OrderBookLevel)
    → IsOffer ls
    → IsOffer (prefix side limit ls)
prefix-IsOffer side limit [] v = tt
prefix-IsOffer side limit (l ∷ ls) v = ground (arith, prefix-IsOffer side limit ls v.1, v.0)

-- A walk with no limit over levels that offer something moves just the least of what remains and what
-- they offer from the remaining to the filled amount.
abbrev Moved : Fill → Decimal → Fill → Type 0
Moved f took g = (g.filled ≡ f.filled +ℤ took) × (g.remaining ≡ f.remaining -ℤ took)

Moved-twice :
    (f : Fill) (l : OrderBookLevel) (g : Fill) (more total : Decimal)
    → Moved (take_level l f) more g
    → min_ℤ f.remaining l.size +ℤ more ≡ total
    → Moved f total g
Moved-twice f l g more total (one, two) e = rw (one, two, ← e) (omega int_laws, omega int_laws)

pub fill_levels-Moved :
    (side : Side) (ls : List OrderBookLevel) (f : Fill)
    → pos 0 <ℤ f.remaining
    → IsOffer ls
    → Moved f (min_ℤ f.remaining (depth ls)) (fill_levels side none ls f)
unfolding fill_levels depth
fill_levels-Moved side [] f h v = grind (int_laws, min_cases f.remaining (pos 0))
fill_levels-Moved side (l ∷ ls) f h v =
    let r = f.remaining in
    let deep = IsOffer-depth ls v.1 in
    let takes : leb_ℤ (min_ℤ r l.size) (pos 0) ≡ false = grind (arith, min_cases r l.size, v.0) in
    rw takes (elim (Bool-cases (leb_ℤ (r -ℤ min_ℤ r l.size) (pos 0))) [
      | inl done ↦ rw (done, ← last_step r l.size (depth ls) deep done) (refl, refl)
      | inr more ↦
          let (left, sum) = next_step r l.size (depth ls) deep more in
          rw more (
            Moved-twice f l (fill_levels side none ls (take_level l f)) _ _
              (fill_levels-Moved side ls (take_level l f) left v.1) sum)
    ])

none_within :
    (side : Side) (limit : Decimal) (l : OrderBookLevel) (ls : List OrderBookLevel)
    → beyond side (some limit) l ≡ true
    → All (NoBetter side l) ls
    → sum_within side limit ls ≡ pos 0
unfolding sum_within
none_within side limit l [] h v = refl
none_within Side.buy limit l (m ∷ ls) h v =
    ground (arith, none_within Side.buy limit l ls h v.1, v.0)
none_within Side.sell limit l (m ∷ ls) h v =
    ground (arith, none_within Side.sell limit l ls h v.1, v.0)

within-eq-not-beyond :
    (side : Side) (limit : Decimal) (l : OrderBookLevel)
    → within side limit l ≡ not (beyond side (some limit) l)
within-eq-not-beyond Side.buy limit l = ground arith
within-eq-not-beyond Side.sell limit l = ground arith

pub depth-prefix :
    (side : Side) (limit : Decimal) (ls : List OrderBookLevel)
    → IsSorted side ls
    → depth (prefix side (some limit) ls) ≡ sum_within side limit ls
unfolding depth sum_within
depth-prefix side limit [] v = refl
depth-prefix side limit (l ∷ ls) v = elim (Bool-cases (beyond side (some limit) l)) [
  | inl worse ↦
      rw (within-eq-not-beyond side limit l, worse) (sym (none_within side limit l ls worse v.0))
  | inr fine ↦ rw (within-eq-not-beyond side limit l, fine, depth-prefix side limit ls v.1)
]

-- From a book sorted from its best price, a limit order fills the least of its amount and what all
-- levels at the limit or better offer, and the rest of its amount remains.
pub fill_levels-within :
    (side : Side) (limit amount : Decimal) (ls : List OrderBookLevel)
    → pos 0 <ℤ amount
    → IsOffer ls
    → IsSorted side ls
    → let f = fill_levels side (some limit) ls (no_fill amount) in
      let within_limit = min_ℤ amount (sum_within side limit ls) in
      (f.filled ≡ within_limit) × (f.remaining ≡ amount -ℤ within_limit)
fill_levels-within side limit amount ls h v s =
    let (one, two) =
      fill_levels-Moved side (prefix side (some limit) ls) (no_fill amount) h
        (prefix-IsOffer side (some limit) ls v) in
    rw (fill_levels-prefix side (some limit) ls (no_fill amount), ← depth-prefix side limit ls s)
      (one ∙ zero_+ℤ _, two)
