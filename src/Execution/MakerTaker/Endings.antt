-- ===== src/Execution/MakerTaker/Endings.antt =====
-- How a call of `execute` of app/execution/maker_taker_executor.py can end.
use arb_system.Base.{
  or_nonzero, ℕ, ◌<◌, ◌≤◌, ◌≡◌, ◌≢◌, refl, ◌⊎◌, inl, inr, Option, none, some, List, [], ◌∷◌,
  Decimal, pos, ◌<ℤ◌, leb_ℤ, ltb_ℤ, ltb→le_ℤ, arith, int_laws, Bool-cases, Option-cases,
}
use arb_system.Models.{OrderBookSnapshot, ArbitrageOpportunity, best_bid, mid_price, is_dry_run}
use arb_system.MarketData.Books
use arb_system.Execution.MakerTaker.{
  MakerSettings, FillState, MakerReason, MakerLeg, SubmitWithin, MakerDesk, Outcome, skipped, threw,
}
use arb_system.Execution.MakerTaker.Wait.{Waited}
use arb_system.Execution.MakerTaker.Waiting.{IsWaited, quit, bought, wait-IsWaited, wait-ends}
use arb_system.Execution.MakerTaker.Hedge.{MakerMoment, finalize, fill_ratio, maker_price_of}
use arb_system.Execution.MakerTaker.Execute.{
  hedge_intent, maker_leg, after_wait, resumed, post_maker, with_books, execute, cancel,
  hedge_if_enough,
}
use arb_system.Execution.MakerTaker.Calm.{IsCalm, execute-IsQuiet}
use arb_system.Execution.MakerTaker.Sales.{IsFairWithin, sold, canceled, Ends, on_reply-Ends}

some_inj : {W : Type 0} {a b : Outcome × MakerDesk W} → some a ≡ some b → a ≡ b
some_inj e = cc

module _ {W : Type 0} (submit : SubmitWithin W) (s : MakerSettings) (m : MakerMoment)
    (opp : ArbitrageOpportunity) (amount : Decimal) (fair : IsFairWithin submit) where
  cancel-Ends :
      (filled : Decimal) (reason : MakerReason) (legs : List MakerLeg) (d : MakerDesk W)
      → sold legs ≡ pos 0
      → Ends s amount d (cancel submit s m opp amount filled reason legs d)
  unfolding finalize
  cancel-Ends filled reason legs d none_sold = (refl, canceled refl refl refl none_sold)

  maker_leg-sold :
      (price : Decimal) (x : Waited) → sold (maker_leg submit s m opp amount price x ∷ []) ≡ pos 0
  unfolding sold
  maker_leg-sold price x = omega int_laws

  hedge-Ends :
      (price : Decimal) (sell_book : OrderBookSnapshot) (x : Waited) (d : MakerDesk W)
      → pos 0 <ℤ x.filled
      → Ends s amount d (
          hedge_if_enough submit s m opp amount price sell_book x
            (maker_leg submit s m opp amount price x ∷ [])
            d)
  hedge-Ends price sell_book x d h =
      let intent = hedge_intent submit s m opp amount sell_book x.filled in
      elim (Bool-cases (ltb_ℤ (fill_ratio x.filled amount) s.min_fill_ratio)) [
        | inl few ↦ rw few (cancel-Ends _ _ _ d (maker_leg-sold price x))
        | inr enough ↦ rw enough (
            on_reply-Ends submit s m opp amount fair price x intent (submit intent d.world).0
              (submit intent d.world).1 d refl
              (h, ltb→le_ℤ (fill_ratio x.filled amount) s.min_fill_ratio enough)
              (λ o got. fair intent d.world o h got))
      ]

  after_wait-Ends :
      (price : Decimal) (sell_book : OrderBookSnapshot) (x : Waited) (state : FillState)
      (d : MakerDesk W)
      → (state ≡ FillState.full → pos 0 <ℤ x.filled)
      → (state ≡ FillState.partial → pos 0 <ℤ x.filled)
      → Ends s amount d (after_wait submit s m opp amount price sell_book x state d)
  unfolding after_wait
  after_wait-Ends price sell_book x FillState.timeout d h k =
      cancel-Ends _ _ _ d (maker_leg-sold price x)
  after_wait-Ends price sell_book x FillState.price_drift d h k =
      cancel-Ends _ _ _ d (maker_leg-sold price x)
  after_wait-Ends price sell_book x FillState.full d h k = hedge-Ends price sell_book x d (h refl)
  after_wait-Ends price sell_book x FillState.partial d h k =
      hedge-Ends price sell_book x d (k refl)

  resumed-Ends :
      (price mid : Decimal) (sell_book : OrderBookSnapshot) (d : MakerDesk W) (out : Option Waited)
      (end : Outcome × MakerDesk W)
      → ((x : Waited) → out ≡ some x → IsWaited s price amount mid m.polls x)
      → resumed submit s m opp amount price sell_book out d ≡ some end
      → Ends s amount d end
  resumed-Ends price mid sell_book d none end h e = absurd (cc)
  resumed-Ends price mid sell_book d (some x) end h e =
      let positive = positive_if x (h x refl) in
      rw (← some_inj e) (
        after_wait-Ends price sell_book x x.state d (λ f. positive (inl f)) (λ f. positive (inr f)))
    where
      positive_if :
          (x : Waited)
          → IsWaited s price amount mid m.polls x
          → (x.state ≡ FillState.full) ⊎ (x.state ≡ FillState.partial)
          → pos 0 <ℤ x.filled
      positive_if x (quit zero why) f = absurd (ground (arith, why, f))
      positive_if x (bought j book here early near b) f = b.positive

  no_legs : sold [] ≡ pos 0
  unfolding sold
  no_legs = refl

  with_books-Ends :
      (one two : Option OrderBookSnapshot) (d : MakerDesk W) (end : Outcome × MakerDesk W)
      → pos 0 <ℤ amount
      → with_books submit s m opp amount one two d ≡ some end
      → Ends s amount d end
  unfolding post_maker
  with_books-Ends none two d end h e = rw (← some_inj e) (cancel-Ends _ _ [] d no_legs)
  with_books-Ends (some one) none d end h e = rw (← some_inj e) (cancel-Ends _ _ [] d no_legs)
  with_books-Ends (some one) (some two) d end h e = elim (Option-cases (best_bid one)) [
    | inl missing ↦ rw (← some_inj (rw missing at e)) (cancel-Ends _ _ [] d no_legs)
    | inr (bid, there) ↦ elim (Bool-cases (leb_ℤ bid (pos 0))) [
      | inl low ↦ rw (← some_inj (rw (there, low) at e)) (cancel-Ends _ _ [] d no_legs)
      | inr good ↦
          resumed-Ends (maker_price_of s bid) (or_nonzero (mid_price one) bid) two d _ end
            (λ x got.
              wait-IsWaited s (maker_price_of s bid) amount (or_nonzero (mid_price one) bid) m.polls
                m.rounds 0 x h got)
            (rw (there, good) at e)
    ]
  ]

  -- For a positive amount, and a router that fills orders fairly: a call is skipped in dry-run only, and
  -- then changes nothing. An exception leaves the ring as it was. A report joins the ring and is
  -- CANCELED, and then nothing was sent; or DONE, and then what was bought reached the minimum ratio and
  -- the hedge sold just that; or FLAT, and then what was bought reached it, the hedge sold less, and
  -- hedge and close together sold no more.
  pub execute-Ends :
      (d : MakerDesk W) (end : Outcome × MakerDesk W)
      → pos 0 <ℤ amount
      → execute submit s m opp amount d ≡ some end
      → Ends s amount d end
  unfolding execute
  execute-Ends d end h e = elim (Bool-cases (is_dry_run s.mode)) [
    | inl dry ↦ rw (← some_inj (rw dry at e)) (dry, refl)
    | inr trades ↦
        with_books-Ends (Books.get m.books opp.buy_exchange opp.symbol)
          (Books.get m.books opp.sell_exchange opp.symbol) d end h (rw trades at e)
  ]

  resumed-some :
      (price mid : Decimal) (sell_book : OrderBookSnapshot) (d : MakerDesk W) (out : Option Waited)
      → (x : Waited) × (out ≡ some x)
      → (end : Outcome × MakerDesk W) × (resumed submit s m opp amount price sell_book out d
          ≡ some end)
  resumed-some price mid sell_book d out (x, e) =
      rw e (after_wait submit s m opp amount price sell_book x x.state d, refl)

  with_books-some :
      (one two : Option OrderBookSnapshot) (d : MakerDesk W) (n : ℕ)
      → pos 0 <ℤ amount
      → n < m.rounds
      → s.max_wait_ms ≤ (m.polls n).elapsed_ms
      → (end : Outcome × MakerDesk W) × (with_books submit s m opp amount one two d ≡ some end)
  unfolding post_maker
  with_books-some none two d n h few over = (_, refl)
  with_books-some (some one) none d n h few over = (_, refl)
  with_books-some (some one) (some two) d n h few over = elim (Option-cases (best_bid one)) [
    | inl missing ↦ rw missing (_, refl)
    | inr (bid, there) ↦ elim (Bool-cases (leb_ℤ bid (pos 0))) [
      | inl low ↦ rw (there, low) (_, refl)
      | inr good ↦
          rw (there, good)
            (resumed-some (maker_price_of s bid) (or_nonzero (mid_price one) bid) two d _ (
              let (x, e, _, _) =
                wait-ends s (maker_price_of s bid) amount (or_nonzero (mid_price one) bid) m.polls n
                  m.rounds 0 h few over in
              (x, e)))
    ]
  ]

  execute-some :
      (d : MakerDesk W) (n : ℕ)
      → pos 0 <ℤ amount
      → n < m.rounds
      → s.max_wait_ms ≤ (m.polls n).elapsed_ms
      → (end : Outcome × MakerDesk W) × (execute submit s m opp amount d ≡ some end)
  unfolding execute
  execute-some d n h few over = elim (Bool-cases (is_dry_run s.mode)) [
    | inl dry ↦ rw dry ((skipped, d), refl)
    | inr trades ↦ rw trades (
        with_books-some (Books.get m.books opp.buy_exchange opp.symbol)
          (Books.get m.books opp.sell_exchange opp.symbol) d n h few over)
  ]

  -- For a positive amount, and a router that fills orders fairly and answers each or lets it time out, a
  -- call returns when a round that the wait may run comes after the time allowed. It is skipped in
  -- dry-run only, and then changes nothing. Otherwise its report joins the ring and is CANCELED, and then
  -- nothing was sent; or DONE, and then what was bought reached the minimum ratio and the hedge sold just
  -- that; or FLAT, and then what was bought reached it, the hedge sold less, and hedge and close together
  -- sold no more than was bought.
  pub execute-returns :
      (d : MakerDesk W) (n : ℕ)
      → IsCalm submit
      → pos 0 <ℤ amount
      → n < m.rounds
      → s.max_wait_ms ≤ (m.polls n).elapsed_ms
      → (end : Outcome × MakerDesk W) × (execute submit s m opp amount d ≡ some end)
        × (end.0 ≢ threw)
        × Ends s amount d end
  execute-returns d n calm h few over =
      let (end, e) = execute-some d n h few over in
      (end, e, execute-IsQuiet submit s m opp amount calm d end e, execute-Ends d end h e)
