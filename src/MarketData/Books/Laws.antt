-- ===== src/MarketData/Books/Laws.antt =====
-- Reads of app/marketdata/orderbook_manager.py after an update.
use arb_system.Base.{
  ℕ, ◌-◌, ◌≤◌, ◌≡◌, refl, ◌↔◌, false, Text, some, List, [], ◌∷◌, pair_key, pair_eq, lookup-insert,
  ltb, if◌then◌else◌, length, length-append, arith, All, Bool-cases, Option-cases, inl, inr,
}
use arb_system.Models.{OrderBookSnapshot}
use arb_system.MarketData.Books.{
  Books, Queue, put_nowait, publish, update, entry, get, is_stale, age_ms,
}

entry-update :
    (snap : OrderBookSnapshot) (at : ℕ) (b : Books) (x s : Text)
    → entry (update snap at b) x s ≡ (
        if pair_eq (snap.exchange, snap.symbol) (x, s)
        then some (record { snapshot = snap; received_at_ms = at })
        else entry b x s)
unfolding entry update
entry-update snap at b x s = rw lookup-insert

-- After an update the manager serves the new book at its exchange and symbol, `now - at` old and
-- stale just when that is more than the limit; every other pair is served as before.
pub get-update :
    (snap : OrderBookSnapshot) (at now : ℕ) (b : Books) (x s : Text)
    → let b' = update snap at b in
      let hit = pair_eq (snap.exchange, snap.symbol) (x, s) in
      (get b' x s ≡ (if hit then some snap else get b x s))
      × (age_ms b' x s now ≡ (if hit then some (now - at) else age_ms b x s now))
      × (is_stale b' x s now ≡ (if hit then ltb b.max_stale_ms (now - at) else is_stale b x s now))
unfolding get age_ms is_stale update
get-update snap at now b x s =
    rw (entry-update snap at b x s)
      (elim (Bool-cases (pair_eq (snap.exchange, snap.symbol) (x, s))) [
        | inl hit ↦ rw hit (refl, refl, refl)
        | inr miss ↦ rw miss (refl, refl, refl)
      ])

-- A pair is fresh exactly when a book was received for it at most `max_stale_ms` ago.
is_stale_iff :
    (b : Books) (x s : Text) (now : ℕ)
    → (is_stale b x s now ≡ false)
      ↔ ((age : ℕ) × (age_ms b x s now ≡ some age) × (age ≤ b.max_stale_ms))
unfolding is_stale age_ms
is_stale_iff b x s now = elim (Option-cases (entry b x s)) [
  | inl e ↦ rw e (λ h. cc, λ h. cc h.1)
  | inr (found, e) ↦
      rw e (λ h. (now - found.received_at_ms, refl, ground arith), λ h. ground (arith, h.1, h.2))
]

abbrev pub IsBounded : Queue → Type 0
IsBounded q = 1 ≤ q.maxsize → length q.items ≤ q.maxsize

put_nowait-IsBounded :
    (snap : OrderBookSnapshot) (q : Queue) → IsBounded q → IsBounded (put_nowait snap q)
unfolding put_nowait
put_nowait-IsBounded snap q v = ground (arith, length-append q.items (snap ∷ []))

-- A slow subscriber never makes its queue longer than its bound.
publish-IsBounded :
    (snap : OrderBookSnapshot) (qs : List Queue)
    → All IsBounded qs
    → All IsBounded (publish snap qs)
publish-IsBounded snap [] v = tt
publish-IsBounded snap (q ∷ qs) v = (put_nowait-IsBounded snap q v.0, publish-IsBounded snap qs v.1)
