-- ===== src/Runtime/Dispatch/Limits.antt =====
-- The exposure that the dispatch of app/runtime/app_bootstrap.py may charge.
use arb_system.Base.{
  ℕ, suc, ◌≡◌, ◌≢◌, refl, false, Text, text_eq, text_eq_iff, List, [], ◌∷◌, Decimal, pos, ◌+ℤ◌,
  ◌-ℤ◌, ◌≤ℤ◌, ◌<ℤ◌, slack, div_dec, leb_ℤ, leb→le_ℤ, leb→lt_ℤ, max_cases, mul_dec, All, Bool-cases,
  inl, inr, arith, int_laws,
}
use arb_system.Models.{ArbitrageOpportunity}
use arb_system.Settings.{Settings}
use arb_system.Risk.Exposure.{Exposure, in_flight}
use arb_system.Risk.Engine.{RiskEngine, Now, Approval, evaluate, headroom, mid_of, set_cooldown}
use arb_system.Risk.Engine.Checks.{Check, passed, rejected, raised}
use arb_system.Risk.Engine.Approved.{evaluate-approved}
use arb_system.Risk.Engine.Limits.{notional-le-limit, headroom_cases}
use arb_system.Execution.Coordinator.Charge.{charged_at}
use arb_system.Runtime.Dispatch.{
  Cycle, task_of, charge_both, accept, decide, dispatch, dispatch_all, pre_id,
}

-- Prices are positive and so small that rounding adds at most `spare`, and the exchanges differ.
pub record IsPlain (spare : Decimal) (o : ArbitrageOpportunity) : Type 0 where
  pub priced : pos 0 <ℤ o.buy_price
  pub fine : slack o.buy_price ≤ℤ spare
  pub apart : o.buy_exchange ≢ o.sell_exchange

-- No exchange has more in flight than the limit and what rounding may add.
abbrev pub IsCapped : Settings → Decimal → Exposure → Type 0
IsCapped s spare x = (e : Text) → in_flight x e ≤ℤ s.max_exposure_per_exchange +ℤ spare

no_headroom :
    (e : RiskEngine) (ex : Text)
    → e.settings.max_exposure_per_exchange <ℤ in_flight e.exposure ex
    → headroom e ex ≤ℤ pos 0
unfolding headroom
no_headroom e ex h =
    let room = e.settings.max_exposure_per_exchange -ℤ in_flight e.exposure ex in
    grind (int_laws, max_cases (pos 0) room)

module _ (spare : Decimal) where
  room_after :
      (e : RiskEngine) (o : ArbitrageOpportunity) (a : Approval) (ex : Text)
      → IsPlain spare o
      → spare <ℤ e.settings.min_order_size_quote
      → e.settings.min_order_size_quote ≤ℤ a.notional
      → a.notional ≡ mul_dec a.amount (mid_of o)
      → a.amount ≤ℤ div_dec (headroom e ex) (mid_of o)
      → in_flight e.exposure ex +ℤ a.notional ≤ℤ e.settings.max_exposure_per_exchange +ℤ spare
  room_after e o a ex p small least product sized =
      let (positive, fits) = headroom_cases e ex in
      let fine = p.fine in
      let le : a.notional ≤ℤ headroom e ex +ℤ slack o.buy_price =
        rw product (notional-le-limit (headroom e ex) o a.amount positive p.priced sized) in
      elim (Bool-cases (leb_ℤ (in_flight e.exposure ex) e.settings.max_exposure_per_exchange)) [
        | inl below ↦
            let sum =
              fits
                (leb→le_ℤ (in_flight e.exposure ex) e.settings.max_exposure_per_exchange below) in
            omega int_laws
        | inr above ↦
            let full =
              no_headroom e ex
                (leb→lt_ℤ (in_flight e.exposure ex) e.settings.max_exposure_per_exchange above) in
            omega int_laws
      ]

  charged-IsCapped :
      (s : Settings) (o : ArbitrageOpportunity) (a : Approval) (x : Exposure)
      → IsPlain spare o
      → in_flight x o.buy_exchange +ℤ a.notional ≤ℤ s.max_exposure_per_exchange +ℤ spare
      → in_flight x o.sell_exchange +ℤ a.notional ≤ℤ s.max_exposure_per_exchange +ℤ spare
      → IsCapped s spare x
      → IsCapped s spare (charge_both (task_of o a) x)
  charged-IsCapped s o a x p buy sell ok e =
      rw (charged_at o.buy_exchange o.sell_exchange (pre_id o) a.notional x e) (
        let apart : text_eq o.buy_exchange o.sell_exchange ≡ false =
          grind (arith, text_eq_iff o.buy_exchange o.sell_exchange, p.apart) in
        let here = ok e in ground (arith, apart))

  -- What a cycle keeps.
  abbrev pub IsWithin : Settings → Cycle → Type 0
  IsWithin s c = (c.risk.settings ≡ s) × IsCapped s spare c.risk.exposure

  decide-IsWithin :
      (s : Settings) (now : Now) (o : ArbitrageOpportunity) (r : Check Approval) (c : Cycle)
      → evaluate c.risk now o ≡ r
      → IsPlain spare o
      → spare <ℤ s.min_order_size_quote
      → IsWithin s c
      → IsWithin s (decide now o r c)
  unfolding accept set_cooldown
  decide-IsWithin s now o (passed a) c e p small (same, ok) =
      let (_, sized, funds, product) = evaluate-approved c.risk now o e in
      let small' : spare <ℤ c.risk.settings.min_order_size_quote = rw same small in
      let buy =
        room_after c.risk o a o.buy_exchange p small' funds.large_enough product sized.buy_room in
      let sell =
        room_after c.risk o a o.sell_exchange p small' funds.large_enough product sized.sell_room in
      (same, charged-IsCapped s o a c.risk.exposure p (rw same at buy) (rw same at sell) ok)
  decide-IsWithin s now o (rejected why) c e p small ok = ok
  decide-IsWithin s now o raised c e p small ok = ok

  dispatch-IsWithin :
      (s : Settings) (now : Now) (o : ArbitrageOpportunity) (c : Cycle)
      → IsPlain spare o
      → spare <ℤ s.min_order_size_quote
      → IsWithin s c
      → IsWithin s (dispatch now o c)
  unfolding dispatch
  dispatch-IsWithin s now o c p small ok = elim (Bool-cases c.stopped) [
    | inl over ↦ rw over ok
    | inr going ↦ simp going (decide-IsWithin s now o (evaluate c.risk now o) _ refl p small ok)
  ]

  dispatch_all-IsWithin :
      (s : Settings) (clock : ℕ → Now) (n : ℕ) (os : List ArbitrageOpportunity) (c : Cycle)
      → All (IsPlain spare) os
      → spare <ℤ s.min_order_size_quote
      → IsWithin s c
      → IsWithin s (dispatch_all clock n os c)
  unfolding dispatch_all
  dispatch_all-IsWithin s clock n [] c ps small ok = ok
  dispatch_all-IsWithin s clock n (o ∷ os) c (p, ps) small ok =
      dispatch_all-IsWithin s clock (suc n) os (dispatch (clock n) o c) ps small
        (dispatch-IsWithin s (clock n) o c p small ok)

  -- However many opportunities of a scan are approved, the dispatch takes no exchange over its exposure
  -- limit by more than what rounding may add to a single trade, if that is less than the least size of
  -- an order, each price is positive, and each trade is between two exchanges.
  pub dispatch_all-IsCapped :
      (clock : ℕ → Now) (n : ℕ) (os : List ArbitrageOpportunity) (c : Cycle)
      → All (IsPlain spare) os
      → spare <ℤ c.risk.settings.min_order_size_quote
      → IsCapped c.risk.settings spare c.risk.exposure
      → IsCapped c.risk.settings spare (dispatch_all clock n os c).risk.exposure
  dispatch_all-IsCapped clock n os c ps small ok =
      (dispatch_all-IsWithin c.risk.settings clock n os c ps small (refl, ok)).1
