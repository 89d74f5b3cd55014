-- ===== src/Risk/Breaker/Replay.antt =====
-- The breaker of app/risk/circuit_breaker.py against the history of what it was told.
use arb_system.Base.{
  ℕ, suc, ◌-◌, ◌≤◌, ◌≡◌, refl, Bool, true, false, not, ◌&&◌, ◌||◌, Option, none, some, List, [],
  ◌∷◌, ◌++◌, Decimal, pos, ltb, leb, leb_ℤ, if◌then◌else◌, length, arith,
}
use arb_system.Risk.Breaker.{
  Sample, BreakerConfig, Breaker, fresh_breaker, reset, window, count_failures, ratio_reached,
  record_outcome, max_losses, reaches, record_pnl,
}

pub data Event : Type 0 where
  outcome : Bool → ℕ → Event
  pnl : Option (Option ℕ) → Option Decimal → Event
  cleared : Event

-- What a breaker has been told, the newest first.
abbrev pub History : Type 0
History = List Event

unfoldable pub handle : BreakerConfig → Event → Breaker → Breaker
unfolding record_outcome record_pnl reset
handle c (outcome ok now) b = record_outcome c ok now b
handle c (pnl getter value) b = record_pnl c getter value b
handle c cleared b = reset b

unfoldable pub replay : BreakerConfig → History → Breaker
unfolding handle
replay c [] = fresh_breaker
replay c (e ∷ es) = handle c e (replay c es)

-- The failures since the last success or reset.
abbrev pub failure_run : History → ℕ
failure_run [] = 0
failure_run (outcome true _ ∷ es) = 0
failure_run (outcome false _ ∷ es) = suc (failure_run es)
failure_run (pnl _ _ ∷ es) = failure_run es
failure_run (cleared ∷ es) = 0

-- The losing trades since the last one that did not lose, or the last reset.
abbrev pub loss_run : History → ℕ
loss_run [] = 0
loss_run (outcome _ _ ∷ es) = loss_run es
loss_run (pnl _ none ∷ es) = loss_run es
loss_run (pnl _ (some v) ∷ es) = if leb_ℤ (pos 0) v then 0 else suc (loss_run es)
loss_run (cleared ∷ es) = 0

-- All outcomes since the last reset, the oldest first.
abbrev pub outcomes : History → List Sample
outcomes [] = []
outcomes (outcome ok now ∷ es) = outcomes es ++ (record { ts = now; ok = ok } ∷ [])
outcomes (pnl _ _ ∷ es) = outcomes es
outcomes (cleared ∷ es) = []

-- The samples no older than the window.
abbrev pub recent : ℕ → ℕ → List Sample → List Sample
recent w now [] = []
recent w now (s ∷ ss) = if ltb w (now - s.ts) then recent w now ss else s ∷ recent w now ss

-- The clock never runs backwards, and shows `now` or less in every outcome.
abbrev pub Before : ℕ → History → Type 0
Before now [] = Unit
Before now (outcome _ t ∷ es) = (t ≤ now) × Before t es
Before now (_ ∷ es) = Before now es

-- Whether the newest event trips the breaker, by the history alone.
abbrev pub trips_now : BreakerConfig → History → Bool
trips_now c [] = false
trips_now c (outcome ok now ∷ es) =
    let kept = recent (window c) now (outcomes (outcome ok now ∷ es)) in
    leb c.max_consec (failure_run (outcome ok now ∷ es))
    || (leb c.window_min (length kept) && ratio_reached c (count_failures kept) (length kept))
trips_now c (pnl getter none ∷ es) = false
trips_now c (pnl getter (some v) ∷ es) =
    not (leb_ℤ (pos 0) v) && reaches (max_losses c getter) (suc (loss_run es))
trips_now c (cleared ∷ es) = false

abbrev pub trips : BreakerConfig → History → Bool
trips c [] = false
trips c (cleared ∷ es) = false
trips c (e ∷ es) = trips c es || trips_now c (e ∷ es)

pub failures-replay : (c : BreakerConfig) (es : History) → (replay c es).failures ≡ failure_run es
unfolding replay handle
failures-replay c [] = refl
failures-replay c (outcome ok now ∷ es) = ground (arith, failures-replay c es)
failures-replay c (pnl g none ∷ es) = failures-replay c es
failures-replay c (pnl g (some v) ∷ es) = ground (arith, failures-replay c es)
failures-replay c (cleared ∷ es) = refl

pub losses-replay : (c : BreakerConfig) (es : History) → (replay c es).losses ≡ loss_run es
unfolding replay handle
losses-replay c [] = refl
losses-replay c (outcome ok now ∷ es) = ground (arith, losses-replay c es)
losses-replay c (pnl g none ∷ es) = losses-replay c es
losses-replay c (pnl g (some v) ∷ es) = ground (arith, losses-replay c es)
losses-replay c (cleared ∷ es) = refl
