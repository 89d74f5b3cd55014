-- ===== src/Risk/Exposure/Claims.antt =====
-- The exposure of app/risk/exposure_manager.py is the sum of what has been added and not yet
-- released, whatever the order in which hedges come and go.
use arb_system.Base.{
  ◌≡◌, refl, true, Text, text_eq, text_eq_iff, text_key, Decimal, pos, ◌+ℤ◌, ◌-ℤ◌, ◌≤ℤ◌, max_ℤ,
  max_cases, int_laws, lookup, lookup-insert, List, [], ◌∷◌, if◌then◌else◌, arith, All,
}
use arb_system.Risk.Exposure.{Exposure, no_exposure, in_flight, add, release}

pub in_flight-add :
    (ex e h : Text) (n : Decimal) (x : Exposure)
    → in_flight (add ex n h x) e ≡ (if text_eq ex e then in_flight x ex +ℤ n else in_flight x e)
unfolding in_flight add
in_flight-add ex e h n x = ground (arith, lookup-insert ex e (in_flight x ex +ℤ n) x.in_flight_of)

pub in_flight-release :
    (ex e h : Text) (n : Decimal) (x : Exposure)
    → in_flight (release ex n h x) e
      ≡ (if text_eq ex e then max_ℤ (pos 0) (in_flight x ex -ℤ n) else in_flight x e)
unfolding in_flight release
in_flight-release ex e h n x =
    ground (arith, lookup-insert ex e (max_ℤ (pos 0) (in_flight x ex -ℤ n)) x.in_flight_of)

-- A notional that was added at an exchange and not yet released.
pub record Claim : Type 0 where
  pub exchange : Text
  pub notional : Decimal

abbrev pub claim : Text → Decimal → Claim
claim ex n = record { exchange = ex; notional = n }

-- The sum of the claims at an exchange.
abbrev pub total : Text → List Claim → Decimal
total e [] = pos 0
total e (c ∷ cs) = if text_eq c.exchange e then total e cs +ℤ c.notional else total e cs

-- `Drops c cs ds`: the claims `cs` are `ds` and one claim `c` more, at any place.
pub data Drops (c : Claim) : List Claim → List Claim → Type 0 where
  first : {cs : List Claim} → Drops c (c ∷ cs) cs
  later : {d : Claim} {cs ds : List Claim} → Drops c cs ds → Drops c (d ∷ cs) (d ∷ ds)

-- The states that a manager reaches by adding notionals that are not negative, and by releasing
-- what was added, in any order; the list holds what is not yet released.
pub data Reach : Exposure → List Claim → Type 0 where
  start : Reach no_exposure []
  added :
      {x : Exposure} {cs : List Claim} (ex h : Text) (n : Decimal)
      → Reach x cs
      → pos 0 ≤ℤ n
      → Reach (add ex n h x) (claim ex n ∷ cs)
  released :
      {x : Exposure} {cs ds : List Claim} (ex h : Text) (n : Decimal)
      → Reach x cs
      → Drops (claim ex n) cs ds
      → Reach (release ex n h x) ds

total-Drops :
    {c : Claim} {cs ds : List Claim} (e : Text)
    → Drops c cs ds
    → total e cs ≡ (if text_eq c.exchange e then total e ds +ℤ c.notional else total e ds)
total-Drops e first = refl
total-Drops e (later d) = grind (int_laws, total-Drops e d)

abbrev IsPositive : List Claim → Type 0
IsPositive = All (λ c. pos 0 ≤ℤ c.notional)

IsPositive-Drops : {c : Claim} {cs ds : List Claim} → Drops c cs ds → IsPositive cs → IsPositive ds
IsPositive-Drops first p = p.1
IsPositive-Drops (later d) p = (p.0, IsPositive-Drops d p.1)

Reach-IsPositive : {x : Exposure} {cs : List Claim} → Reach x cs → IsPositive cs
Reach-IsPositive start = tt
Reach-IsPositive (added ex h n r p) = (p, Reach-IsPositive r)
Reach-IsPositive (released ex h n r d) = IsPositive-Drops d (Reach-IsPositive r)

total_nonneg : (e : Text) (cs : List Claim) → IsPositive cs → pos 0 ≤ℤ total e cs
total_nonneg e [] p = omega arith
total_nonneg e (c ∷ cs) p = grind (int_laws, total_nonneg e cs p.1)

-- What is in flight at each exchange is the sum of the notionals added there and not yet released:
-- the clamp at zero in `release` never bites, and no order of releases loses or keeps anything.
pub in_flight-eq-total :
    {x : Exposure} {cs : List Claim} → Reach x cs → (e : Text) → in_flight x e ≡ total e cs
unfolding in_flight lookup
in_flight-eq-total start e = refl
in_flight-eq-total (added {x} {cs} ex h n r p) e =
    rw in_flight-add (ground (arith, text_eq_iff ex e, in_flight-eq-total r e))
in_flight-eq-total (released {x} {cs} {ds} ex h n r d) e =
    let positive = total_nonneg e ds (IsPositive-Drops d (Reach-IsPositive r)) in
    let before = total-Drops e d in
    let level : text_eq ex e ≡ true → in_flight x ex -ℤ n ≡ total e ds =
      λ same. grind (int_laws, text_eq_iff ex e, in_flight-eq-total r e) in
    rw in_flight-release (
      grind (
        arith,
        level,
        positive,
        before,
        in_flight-eq-total r e,
        max_cases (pos 0) (in_flight x ex -ℤ n),
      ))
