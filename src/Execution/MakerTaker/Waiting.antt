-- ===== src/Execution/MakerTaker/Waiting.antt =====
-- What the wait for the maker of app/execution/maker_taker_executor.py buys, and when it ends.
use arb_system.Base.{
  ℕ, zero, suc, ◌+◌, ◌≤◌, ◌<◌, ◌≡◌, refl, ◌⊎◌, inl, inr, true, false, Option, none, some, Decimal,
  pos, ◌<ℤ◌, leb, arith, Bool-cases, Option-cases,
}
use arb_system.Models.{OrderBookSnapshot, best_ask}
use arb_system.Execution.MakerTaker.{MakerSettings, FillState}
use arb_system.Execution.MakerTaker.Wait.{
  Poll, Waited, cross_asks, touches, drifted, gave_up, on_book, wait,
}
use arb_system.Execution.MakerTaker.Crossing.{IsBought, crossed-cases, crossed-IsBought}

module _ (s : MakerSettings) (price amount mid : Decimal) (polls : ℕ → Poll) where
  -- The end of a wait: nothing is bought, in time or out of it, or the asks of a book that was read in
  -- time and has not drifted are bought down to the price.
  pub data IsWaited (x : Waited) : Type 0 where
    quit :
        x.filled ≡ pos 0
        → (x.state ≡ FillState.timeout) ⊎ (x.state ≡ FillState.price_drift)
        → IsWaited x
    bought :
        (j : ℕ) (book : OrderBookSnapshot)
        → (polls j).book ≡ some book
        → (polls j).elapsed_ms < s.max_wait_ms
        → drifted s mid book ≡ false
        → IsBought price amount book.asks x
        → IsWaited x

  quit_of :
      (state : FillState) (x : Waited)
      → (state ≡ FillState.timeout) ⊎ (state ≡ FillState.price_drift)
      → gave_up state ≡ some x
      → IsWaited x
  quit_of state x why e =
      quit (ground (arith, e))
        (elim why [ inl a ↦ inl (ground (arith, a, e)) | inr a ↦ inr (ground (arith, a, e)) ])

  on_book-IsWaited :
      (j : ℕ) (rest : Option Waited) (x : Waited)
      → pos 0 <ℤ amount
      → (polls j).elapsed_ms < s.max_wait_ms
      → (rest ≡ some x → IsWaited x)
      → on_book s price amount mid (polls j).book rest ≡ some x
      → IsWaited x
  on_book-IsWaited j rest x h early later e = elim (Option-cases (polls j).book) [
    | inl missing ↦ later (rw missing at e)
    | inr (book, here) ↦ elim (Bool-cases (drifted s mid book)) [
      | inl far ↦ quit_of FillState.price_drift x (inr refl) (rw (here, far) at e)
      | inr near ↦ elim (Bool-cases (touches price amount (best_ask book))) [
        | inr away ↦ later (rw (here, near, away) at e)
        | inl there ↦
            elim (crossed-cases price amount (cross_asks price amount book.asks (pos 0)) rest x
              (rw (here, near, there) at e)) [
                | inl won ↦
                    bought j book here early near (crossed-IsBought price amount book.asks x h won)
                | inr still ↦ later still
              ]
      ]
    ]
  ]

  pub wait-IsWaited :
      (fuel k : ℕ) (x : Waited)
      → pos 0 <ℤ amount
      → wait s price amount mid polls fuel k ≡ some x
      → IsWaited x
  unfolding wait
  wait-IsWaited zero k x h e = absurd (cc)
  wait-IsWaited (suc fuel) k x h e = elim (Bool-cases (leb s.max_wait_ms (polls k).elapsed_ms)) [
    | inl over ↦ quit_of FillState.timeout x (inl refl) (rw over at e)
    | inr early ↦
        on_book-IsWaited k (wait s price amount mid polls fuel (suc k)) x h (ground (arith, early))
          (wait-IsWaited fuel (suc k) x h) (rw early at e)
  ]

  some-on_book :
      (book : Option OrderBookSnapshot) (rest : Option Waited)
      → (x : Waited) × (rest ≡ some x)
      → (x : Waited) × (on_book s price amount mid book rest ≡ some x)
  some-on_book none rest got = got
  some-on_book (some book) rest (x, e) =
      elim (Option-cases (on_book s price amount mid (some book) rest)) [
        | inl dead ↦ absurd (ground (arith, dead, e))
        | inr got ↦ got
      ]

  -- The wait ends when a round that it may run comes after the time allowed.
  pub wait-some :
      (n fuel k : ℕ)
      → n < fuel
      → s.max_wait_ms ≤ (polls (n + k)).elapsed_ms
      → (x : Waited) × (wait s price amount mid polls fuel k ≡ some x)
  unfolding wait
  wait-some n zero k h late = absurd (omega arith)
  wait-some zero (suc fuel) k h late =
      let over : leb s.max_wait_ms (polls k).elapsed_ms ≡ true = ground (arith, late) in
      rw over (record { filled = pos 0; state = FillState.timeout }, refl)
  wait-some (suc n) (suc fuel) k h late =
      let next : suc n + k ≡ n + suc k = omega arith in
      let ih = wait-some n fuel (suc k) (omega arith) (rw next at late) in
      elim (Bool-cases (leb s.max_wait_ms (polls k).elapsed_ms)) [
        | inl over ↦ rw over (record { filled = pos 0; state = FillState.timeout }, refl)
        | inr early ↦ rw early (some-on_book (polls k).book _ ih)
      ]

  -- More rounds do not change what a wait that ended returns.
  settled_on_book :
      (book : OrderBookSnapshot) (rest : Option Waited) (x : Waited)
      → on_book s price amount mid (some book) none ≡ some x
      → on_book s price amount mid (some book) rest ≡ some x
  settled_on_book book rest x e = ground (arith, e)

  on_book-more :
      (book : Option OrderBookSnapshot) (rest rest' : Option Waited) (x : Waited)
      → ((y : Waited) → rest ≡ some y → rest' ≡ some y)
      → on_book s price amount mid book rest ≡ some x
      → on_book s price amount mid book rest' ≡ some x
  on_book-more none rest rest' x h e = h x e
  on_book-more (some book) none rest' x h e = settled_on_book book rest' x e
  on_book-more (some book) (some y) rest' x h e = rw (h y refl) e

  pub wait-more :
      (fuel more k : ℕ) (x : Waited)
      → wait s price amount mid polls fuel k ≡ some x
      → wait s price amount mid polls (fuel + more) k ≡ some x
  unfolding wait
  wait-more zero more k x e = absurd (cc)
  wait-more (suc fuel) more k x e =
      let next : suc fuel + more ≡ suc (fuel + more) = omega arith in
      rw next (elim (Bool-cases (leb s.max_wait_ms (polls k).elapsed_ms)) [
        | inl over ↦ rw over (rw over at e)
        | inr early ↦
            rw early (
              on_book-more (polls k).book _ _ x (λ y. wait-more fuel more (suc k) y)
                (rw early at e))
      ])

  -- In the rounds that it has, the wait ends if one of them comes after the time allowed; more rounds do
  -- not change what it returns, which is nothing bought, or the least of the amount and what the asks at
  -- the maker's price or below offer in a book that was read in time and has not drifted, and that is
  -- more than nothing.
  pub wait-ends :
      (n rounds more : ℕ)
      → pos 0 <ℤ amount
      → n < rounds
      → s.max_wait_ms ≤ (polls n).elapsed_ms
      → (x : Waited) × (wait s price amount mid polls rounds 0 ≡ some x)
        × (wait s price amount mid polls (rounds + more) 0 ≡ some x)
        × IsWaited x
  wait-ends n rounds more h few late =
      let first : n + 0 ≡ n = omega arith in
      let (x, e) = wait-some n rounds 0 few (rw first late) in
      (x, e, wait-more rounds more 0 x e, wait-IsWaited rounds 0 x h e)
