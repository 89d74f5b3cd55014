-- ===== src/Risk/Breaker.antt =====
-- app/risk/circuit_breaker.py. Times are whole microseconds, and a threshold ratio is a fraction.
-- What the threshold getter answers is an argument of `record_pnl`: `none` if there is no getter,
-- and `some none` if it raises or answers `None`.
pub mod Replay
pub mod Trips
use arb_system.Base.{
  ℕ, zero, suc, ◌+◌, ◌-◌, ◌*◌, Bool, true, false, not, Option, none, some, List, [], ◌∷◌, ◌++◌,
  Decimal, pos, ltb, leb, leb_ℤ, if◌then◌else◌, length,
}

pub record Sample : Type 0 where
  pub ts : ℕ
  pub ok : Bool

pub record BreakerConfig : Type 0 where
  pub max_consec : ℕ
  pub window_sec : ℕ
  pub window_min : ℕ
  pub ratio_num : ℕ
  pub ratio_den : ℕ
  pub max_losses_static : Option ℕ

pub data TripReason : Type 0 where
  consecutive_failures : ℕ → TripReason
  window_failures : ℕ → ℕ → ℕ → TripReason
  consecutive_losses : ℕ → TripReason

pub record Breaker : Type 0 where
  pub samples : List Sample
  pub failures : ℕ
  pub losses : ℕ
  pub tripped : Bool
  pub reason : Option TripReason

abbrev pub fresh_breaker : Breaker
fresh_breaker = record { samples = []; failures = 0; losses = 0; tripped = false; reason = none }

unfoldable pub reset : Breaker → Breaker
reset b = fresh_breaker

abbrev pub window : BreakerConfig → ℕ
window c = c.window_sec * 1_000_000

-- The loop that pops samples from the left while they are older than the window.
unfoldable pub drop_old : ℕ → ℕ → List Sample → List Sample
drop_old w now [] = []
drop_old w now (s ∷ ss) = if ltb w (now - s.ts) then drop_old w now ss else s ∷ ss

unfoldable pub count_failures : List Sample → ℕ
count_failures [] = 0
count_failures (s ∷ ss) = (if s.ok then 0 else 1) + count_failures ss

-- `failures / len(samples) >= ratio`, where the sample just recorded is always there.
abbrev pub ratio_reached : BreakerConfig → ℕ → ℕ → Bool
ratio_reached c failed total = leb (c.ratio_num * total) (failed * c.ratio_den)

abbrev trip : TripReason → Breaker → Breaker
trip why b = record b { tripped = true; reason = some why }

unfoldable pub record_outcome : BreakerConfig → Bool → ℕ → Breaker → Breaker
record_outcome c ok now b =
    let kept = drop_old (window c) now (b.samples ++ (record { ts = now; ok = ok } ∷ [])) in
    let failed = if ok then 0 else b.failures + 1 in
    let b' : Breaker = record b { samples = kept; failures = failed } in
    let bad = count_failures kept in
    if leb c.max_consec failed
    then trip (TripReason.consecutive_failures failed) b'
    else if leb c.window_min (length kept)
    then if ratio_reached c bad (length kept)
      then trip (TripReason.window_failures bad (length kept) c.window_sec) b'
      else b'
    else b'

unfoldable pub max_losses : BreakerConfig → Option (Option ℕ) → Option ℕ
max_losses c (some (some v)) = some v
max_losses c _ = c.max_losses_static

abbrev pub reaches : Option ℕ → ℕ → Bool
reaches none n = false
reaches (some t) n = leb t n

unfoldable pub record_pnl : BreakerConfig → Option (Option ℕ) → Option Decimal → Breaker → Breaker
unfolding max_losses
record_pnl c getter none b = b
record_pnl c getter (some pnl) b =
    let lost : Breaker = record b { losses = b.losses + 1 } in
    if leb_ℤ (pos 0) pnl
    then record b { losses = 0 }
    else if reaches (max_losses c getter) (b.losses + 1)
    then trip (TripReason.consecutive_losses (b.losses + 1)) lost
    else lost
