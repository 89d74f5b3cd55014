-- ===== src/Risk/Breaker/Trips.antt =====
-- When the breaker of app/risk/circuit_breaker.py trips, by its history.
use arb_system.Base.{
  ℕ, suc, ◌-◌, ◌≤◌, ◌≡◌, refl, Bool, true, false, not, ◌&&◌, ◌||◌, Option, none, some, List, [],
  ◌∷◌, ◌++◌, Decimal, pos, leb, leb_ℤ, if◌then◌else◌, length, arith, ◌∙◌,
}
use arb_system.Risk.Breaker.{
  Sample, BreakerConfig, Breaker, window, drop_old, count_failures, ratio_reached, record_outcome,
  max_losses, reaches, record_pnl,
}
use arb_system.Risk.Breaker.Replay.{
  History, outcome, pnl, cleared, handle, replay, failure_run, loss_run, outcomes, recent, Before,
  trips, failures-replay, losses-replay,
}

drop_old_twice :
    (w a b : ℕ) (xs ys : List Sample)
    → a ≤ b
    → drop_old w b (drop_old w a xs ++ ys) ≡ drop_old w b (xs ++ ys)
unfolding drop_old
drop_old_twice w a b [] ys h = refl
drop_old_twice w a b (x ∷ xs) ys h = ground (arith, drop_old_twice w a b xs ys h)

samples_of_outcome :
    (c : BreakerConfig) (ok : Bool) (now : ℕ) (b : Breaker)
    → (record_outcome c ok now b).samples
      ≡ drop_old (window c) now (b.samples ++ (record { ts = now; ok = ok } ∷ []))
unfolding record_outcome
samples_of_outcome c ok now b = ground arith

samples_of_pnl :
    (c : BreakerConfig) (g : Option (Option ℕ)) (v : Option Decimal) (b : Breaker)
    → (record_pnl c g v b).samples ≡ b.samples
unfolding record_pnl
samples_of_pnl c g none b = refl
samples_of_pnl c g (some v) b = ground arith

samples-replay :
    (c : BreakerConfig) (now : ℕ) (es : History) (ys : List Sample)
    → Before now es
    → drop_old (window c) now ((replay c es).samples ++ ys)
      ≡ drop_old (window c) now (outcomes es ++ ys)
unfolding replay handle
samples-replay c now [] ys h = refl
samples-replay c now (outcome ok t ∷ es) ys h =
    let new : List Sample = record { ts = t; ok = ok } ∷ [] in
    let ih = samples-replay c t es new h.1 in
    rw samples_of_outcome (rw ih (drop_old_twice (window c) t now (outcomes es ++ new) ys h.0))
samples-replay c now (pnl g none ∷ es) ys h = samples-replay c now es ys h
samples-replay c now (pnl g (some v) ∷ es) ys h = rw samples_of_pnl (samples-replay c now es ys h)
samples-replay c now (cleared ∷ es) ys h = refl

abbrev RisesTo : ℕ → ℕ → List Sample → Type 0
RisesTo lo hi [] = lo ≤ hi
RisesTo lo hi (s ∷ ss) = (lo ≤ s.ts) × RisesTo s.ts hi ss

RisesTo-snoc :
    (lo t now : ℕ) (ok : Bool) (xs : List Sample)
    → RisesTo lo t xs
    → t ≤ now
    → RisesTo lo now (xs ++ (record { ts = t; ok = ok } ∷ []))
RisesTo-snoc lo t now ok [] r h = (r, h)
RisesTo-snoc lo t now ok (x ∷ xs) r h = (r.0, RisesTo-snoc x.ts t now ok xs r.1 h)

outcomes-RisesTo : (now : ℕ) (es : History) → Before now es → RisesTo 0 now (outcomes es)
outcomes-RisesTo now [] h = omega arith
outcomes-RisesTo now (outcome ok t ∷ es) h =
    RisesTo-snoc 0 t now ok (outcomes es) (outcomes-RisesTo t es h.1) h.0
outcomes-RisesTo now (pnl g v ∷ es) h = outcomes-RisesTo now es h
outcomes-RisesTo now (cleared ∷ es) h = omega arith

recent_fresh :
    (w lo now : ℕ) (xs : List Sample) → RisesTo lo now xs → now - lo ≤ w → recent w now xs ≡ xs
recent_fresh w lo now [] r h = refl
recent_fresh w lo now (x ∷ xs) r h = ground (arith, recent_fresh w x.ts now xs r.1)

drop_old-eq-recent :
    (w lo now : ℕ) (xs : List Sample) → RisesTo lo now xs → drop_old w now xs ≡ recent w now xs
unfolding drop_old
drop_old-eq-recent w lo now [] r = refl
drop_old-eq-recent w lo now (x ∷ xs) r =
    ground (arith, drop_old-eq-recent w x.ts now xs r.1, recent_fresh w x.ts now xs r.1)

kept_of_outcome :
    (c : BreakerConfig) (ok : Bool) (now : ℕ) (es : History)
    → Before now es
    → drop_old (window c) now ((replay c es).samples ++ (record { ts = now; ok = ok } ∷ []))
      ≡ recent (window c) now (outcomes (outcome ok now ∷ es))
kept_of_outcome c ok now es h =
    let new : List Sample = record { ts = now; ok = ok } ∷ [] in
    let all = outcomes-RisesTo now (outcome ok now ∷ es) (ground arith, h) in
    samples-replay c now es new h
    ∙ drop_old-eq-recent (window c) 0 now (outcomes (outcome ok now ∷ es)) all

tripped_of_outcome :
    (c : BreakerConfig) (ok : Bool) (now : ℕ) (b : Breaker)
    → let kept = drop_old (window c) now (b.samples ++ (record { ts = now; ok = ok } ∷ [])) in
      (record_outcome c ok now b).tripped ≡ (
        b.tripped
        || (leb c.max_consec (if ok then 0 else suc b.failures)
            || (leb c.window_min (length kept)
                && ratio_reached c (count_failures kept) (length kept))))
unfolding record_outcome
tripped_of_outcome c ok now b = ground arith

tripped_of_pnl :
    (c : BreakerConfig) (g : Option (Option ℕ)) (v : Decimal) (b : Breaker)
    → (record_pnl c g (some v) b).tripped
      ≡ (b.tripped || (not (leb_ℤ (pos 0) v) && reaches (max_losses c g) (suc b.losses)))
unfolding record_pnl
tripped_of_pnl c g v b = ground arith

-- If the clock never runs backwards, the breaker is tripped exactly when, since the last reset,
-- some outcome ended a run of `max_consec` failures or more, or came when the samples of the window
-- were `window_min` or more and failed in the threshold ratio, or some losing trade ended a run of
-- losses that reached the loss threshold of that moment.
pub tripped-replay :
    (c : BreakerConfig) (now : ℕ) (es : History)
    → Before now es
    → (replay c es).tripped ≡ trips c es
unfolding replay handle
tripped-replay c now [] h = refl
tripped-replay c now (outcome true t ∷ es) h =
    rw (tripped_of_outcome c true t (replay c es), kept_of_outcome c true t es h.1)
      (rw (tripped-replay c t es h.1) refl)
tripped-replay c now (outcome false t ∷ es) h =
    rw (tripped_of_outcome c false t (replay c es), kept_of_outcome c false t es h.1)
      (rw (tripped-replay c t es h.1, failures-replay c es) refl)
tripped-replay c now (pnl g none ∷ es) h = ground (arith, tripped-replay c now es h)
tripped-replay c now (pnl g (some v) ∷ es) h =
    rw (tripped_of_pnl c g v (replay c es))
      (rw (tripped-replay c now es h, losses-replay c es) refl)
tripped-replay c now (cleared ∷ es) h = refl

-- The consecutive counters are the lengths of the current runs of failures and of losses.
counters-replay :
    (c : BreakerConfig) (es : History)
    → ((replay c es).failures ≡ failure_run es) × ((replay c es).losses ≡ loss_run es)
counters-replay c es = (failures-replay c es, losses-replay c es)
