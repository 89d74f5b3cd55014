-- ===== src/Execution/Coordinator/Charge.antt =====
-- The notional that `execute` of app/execution/hedge_coordinator.py charges for a hedge, and its release.
use arb_system.Base.{
  ◌≡◌, ◌∙◌, Text, text_eq, text_eq_iff, text_eq_refl, Decimal, pos, ◌+ℤ◌, ◌-ℤ◌, max_cases, ◌≤ℤ◌,
  leb_ℤ, if◌then◌else◌, Bool-cases, inl, inr, int_laws,
}
use arb_system.Models.{HedgeGroupState}
use arb_system.Risk.Exposure
use arb_system.Risk.Exposure.{Exposure, in_flight}
use arb_system.Risk.Exposure.Claims.{in_flight-add, in_flight-release}
use arb_system.Execution.Coordinator.Desk.{Desk}
use arb_system.Execution.Coordinator.Settle.{release_exposure}
use arb_system.Execution.Coordinator.Position.{Kept}

-- The notional `n` charged for a hedge at both exchanges.
abbrev pub charged : Text → Text → Text → Decimal → Exposure → Exposure
charged buy sell id n x = Exposure.add sell n id (Exposure.add buy n id x)

-- A group whose release undoes that charge.
pub record Owes (buy sell id : Text) (n : Decimal) (g : HedgeGroupState) : Type 0 where
  pub id_is : g.hedge_group_id ≡ id
  pub buy_at : g.buy_exchange ≡ buy
  pub sell_at : g.sell_exchange ≡ sell
  pub notional : g.planning_notional_quote ≡ n

pub Kept-trans : {a b c : HedgeGroupState} → Kept a b → Kept b c → Kept a c
Kept-trans p q = record {
  id = q.id ∙ p.id;
  buy_at = q.buy_at ∙ p.buy_at;
  sell_at = q.sell_at ∙ p.sell_at;
  notional = q.notional ∙ p.notional;
}

pub Owes-Kept :
    {buy sell id : Text} {n : Decimal} {h g : HedgeGroupState}
    → Owes buy sell id n h
    → Kept h g
    → Owes buy sell id n g
Owes-Kept o k = record {
  id_is = k.id ∙ o.id_is;
  buy_at = k.buy_at ∙ o.buy_at;
  sell_at = k.sell_at ∙ o.sell_at;
  notional = k.notional ∙ o.notional;
}

-- Nothing in flight is negative.
abbrev pub IsNonnegative : Exposure → Type 0
IsNonnegative x = (e : Text) → pos 0 ≤ℤ in_flight x e

-- A release that the level covers takes off just what it names.
release_covered :
    (ex e h : Text) (n : Decimal) (x : Exposure)
    → n ≤ℤ in_flight x ex
    → in_flight (Exposure.release ex n h x) e
      ≡ (if text_eq ex e then in_flight x ex -ℤ n else in_flight x e)
release_covered ex e h n x enough =
    rw (in_flight-release ex e h n x) (grind (int_laws, max_cases (pos 0) (in_flight x ex -ℤ n)))

pub charged_at :
    (buy sell id : Text) (n : Decimal) (x : Exposure) (e : Text)
    → in_flight (charged buy sell id n x) e ≡ (
        if text_eq sell e
        then (if text_eq buy sell then in_flight x buy +ℤ n else in_flight x sell) +ℤ n
        else if text_eq buy e
        then in_flight x buy +ℤ n
        else in_flight x e)
charged_at buy sell id n x e = rw (
  in_flight-add sell e id n (Exposure.add buy n id x),
  in_flight-add buy sell id n x,
  in_flight-add buy e id n x,
)

pub release_two :
    (buy sell id e : Text) (n : Decimal) (x : Exposure)
    → IsNonnegative x
    → pos 0 ≤ℤ n
    → in_flight (Exposure.release sell n id (Exposure.release buy n id (charged buy sell id n x))) e
      ≡ in_flight x e
release_two buy sell id e n x ok h =
    let y = charged buy sell id n x in
    let at_buy : n ≤ℤ in_flight y buy =
      rw
        (
          in_flight-add sell buy id n (Exposure.add buy n id x),
          in_flight-add buy buy id n x,
          in_flight-add buy sell id n x,
        )
        (grind (int_laws, text_eq_refl buy, ok buy, ok sell)) in
    let at_sell : n ≤ℤ in_flight (Exposure.release buy n id y) sell =
      rw (release_covered buy sell id n y at_buy) (
        rw
          (
            in_flight-add sell buy id n (Exposure.add buy n id x),
            in_flight-add sell sell id n (Exposure.add buy n id x),
            in_flight-add buy buy id n x,
            in_flight-add buy sell id n x,
            text_eq_refl buy,
            text_eq_refl sell,
          )
          (grind (int_laws, text_eq_iff buy sell, text_eq_iff sell buy, ok buy, ok sell))) in
    rw
      (
        release_covered sell e id n (Exposure.release buy n id y) at_sell,
        release_covered buy e id n y at_buy,
        release_covered buy sell id n y at_buy,
        charged_at buy sell id n x buy,
        charged_at buy sell id n x sell,
        charged_at buy sell id n x e,
      )
      (elim (Bool-cases (text_eq sell e)) [
        | inl one ↦ elim (Bool-cases (text_eq buy e)) [
          | inl two ↦ grind (
            int_laws,
            text_eq_iff buy sell,
            text_eq_iff buy e,
            text_eq_iff sell e,
            text_eq_refl buy,
            text_eq_refl sell,
          )
          | inr two ↦ grind (
            int_laws,
            text_eq_iff buy sell,
            text_eq_iff buy e,
            text_eq_iff sell e,
            text_eq_refl buy,
            text_eq_refl sell,
          )
        ]
        | inr one ↦ grind (
          int_laws,
          text_eq_iff buy sell,
          text_eq_iff buy e,
          text_eq_iff sell e,
          text_eq_refl buy,
          text_eq_refl sell,
        )
      ])

pub release_exposure-charged :
    {W : Type 0} (buy sell id e : Text) (n : Decimal) (x : Exposure) (g : HedgeGroupState)
    (d : Desk W)
    → IsNonnegative x
    → pos 0 ≤ℤ n
    → Owes buy sell id n g
    → d.exposure ≡ charged buy sell id n x
    → in_flight (release_exposure g d).exposure e ≡ in_flight x e
unfolding release_exposure
release_exposure-charged buy sell id e n x g d ok h o same = elim (Bool-cases (leb_ℤ n (pos 0))) [
  | inl nothing ↦
      rw (o.notional, nothing, same)
        (rw (charged_at buy sell id n x e)
          (grind (int_laws, text_eq_iff buy sell, text_eq_iff buy e, text_eq_iff sell e)))
  | inr something ↦
      rw (o.notional, something, same, o.buy_at, o.sell_at, o.id_is)
        (release_two buy sell id e n x ok h)
]
