-- ===== src/Execution/MakerTaker/Calm.antt =====
-- A router that never raises: no exception leaves `execute` of app/execution/maker_taker_executor.py.
use arb_system.Base.{
  ◌≡◌, ◌≢◌, refl, ap, ◌∙◌, Option, none, some, List, [], ◌∷◌, ◌++◌, Decimal, pos, ◌-ℤ◌, leb_ℤ,
  ltb_ℤ, Bool-cases, Option-cases, inl, inr,
}
use arb_system.Models.{OrderBookSnapshot, OrderIntent, ArbitrageOpportunity, best_bid, is_dry_run}
use arb_system.MarketData.Books
use arb_system.Execution.MakerTaker.{
  MakerSettings, FillState, MakerReason, MakerLeg, MakerTakerReport, Reply, late, raised, replied,
  SubmitWithin, MakerDesk, Outcome, skipped, threw,
}
use arb_system.Execution.MakerTaker.Wait.{Waited}
use arb_system.Execution.MakerTaker.Hedge.{
  MakerMoment, finalize, panic_close, flattened, timeout_leg, hedge_leg, on_hedge, fill_ratio,
  maker_price_of,
}
use arb_system.Execution.MakerTaker.Execute.{
  hedge_intent, after_wait, resumed, post_maker, with_books, execute, hedge_if_enough,
}

-- Every order is answered or times out.
abbrev pub IsCalm : {W : Type 0} → SubmitWithin W → Type 0
IsCalm {W} submit = (intent : OrderIntent) (w : W) → (submit intent w).0 ≢ raised

abbrev IsQuiet : {W : Type 0} → Outcome × MakerDesk W → Type 0
IsQuiet end = end.0 ≢ threw

module _ {W : Type 0} (submit : SubmitWithin W) (s : MakerSettings) (m : MakerMoment)
    (opp : ArbitrageOpportunity) (amount : Decimal) (calm : IsCalm submit) where
  finalize-IsQuiet :
      (r : MakerTakerReport) (d : MakerDesk W) → IsQuiet (finalize submit s m opp amount r d)
  unfolding finalize
  finalize-IsQuiet r d e = absurd (cc)

  flattened-IsQuiet :
      (filled hedged : Decimal) (why : MakerReason) (r : List MakerLeg × MakerDesk W)
      → IsQuiet (flattened submit s m opp amount filled hedged why r)
  flattened-IsQuiet filled hedged why (legs, d) = finalize-IsQuiet _ d

  on_hedge-IsQuiet :
      (price filled : Decimal) (intent : OrderIntent) (legs : List MakerLeg)
      (ring : List MakerTakerReport) (reply : Reply) (w : W)
      → reply ≢ raised
      → IsQuiet (on_hedge submit s m opp amount price filled intent legs ring (reply, w))
  unfolding on_hedge
  on_hedge-IsQuiet price filled intent legs ring late w h =
      let d : MakerDesk W = record { ring = ring; world = w } in
      flattened-IsQuiet filled (pos 0) MakerReason.hedge_timeout_panic_closed (
        panic_close submit s m opp amount filled (legs ++ (timeout_leg submit s m opp amount ∷ []))
          d)
  on_hedge-IsQuiet price filled intent legs ring raised w h = absurd (h refl)
  on_hedge-IsQuiet price filled intent legs ring (replied o) w h =
      let d : MakerDesk W = record { ring = ring; world = w } in
      let legs' = legs ++ (hedge_leg submit s m opp amount intent o ∷ []) in
      elim (Bool-cases (ltb_ℤ o.filled filled)) [
        | inl part ↦ rw part (
            flattened-IsQuiet filled o.filled MakerReason.hedge_partial_panic_closed
              (panic_close submit s m opp amount (filled -ℤ o.filled) legs' d))
        | inr all ↦ rw all (finalize-IsQuiet _ d)
      ]

  hedge_if_enough-IsQuiet :
      (price : Decimal) (book : OrderBookSnapshot) (x : Waited) (legs : List MakerLeg)
      (d : MakerDesk W)
      → IsQuiet (hedge_if_enough submit s m opp amount price book x legs d)
  hedge_if_enough-IsQuiet price book x legs d =
      let intent = hedge_intent submit s m opp amount book x.filled in
      elim (Bool-cases (ltb_ℤ (fill_ratio x.filled amount) s.min_fill_ratio)) [
        | inl few ↦ rw few (finalize-IsQuiet _ d)
        | inr enough ↦ rw enough (
            on_hedge-IsQuiet price x.filled intent legs d.ring (submit intent d.world).0
              (submit intent d.world).1 (calm intent d.world))
      ]

  after_wait-IsQuiet :
      (price : Decimal) (book : OrderBookSnapshot) (x : Waited) (state : FillState)
      (d : MakerDesk W)
      → IsQuiet (after_wait submit s m opp amount price book x state d)
  unfolding after_wait
  after_wait-IsQuiet price book x FillState.timeout d = finalize-IsQuiet _ d
  after_wait-IsQuiet price book x FillState.price_drift d = finalize-IsQuiet _ d
  after_wait-IsQuiet price book x FillState.full d = hedge_if_enough-IsQuiet price book x _ d
  after_wait-IsQuiet price book x FillState.partial d = hedge_if_enough-IsQuiet price book x _ d

  same_end : (x end : Outcome × MakerDesk W) → some x ≡ some end → IsQuiet x → IsQuiet end
  same_end x end e q f = let e' : x ≡ end = cc in q (ap (λ (y : Outcome × MakerDesk W). y.0) e' ∙ f)

  resumed-IsQuiet :
      (price : Decimal) (book : OrderBookSnapshot) (out : Option Waited) (d : MakerDesk W)
      (end : Outcome × MakerDesk W)
      → resumed submit s m opp amount price book out d ≡ some end
      → IsQuiet end
  resumed-IsQuiet price book none d end e = absurd (cc)
  resumed-IsQuiet price book (some x) d end e =
      same_end _ end e (after_wait-IsQuiet price book x x.state d)

  with_books-IsQuiet :
      (one two : Option OrderBookSnapshot) (d : MakerDesk W) (end : Outcome × MakerDesk W)
      → with_books submit s m opp amount one two d ≡ some end
      → IsQuiet end
  unfolding post_maker
  with_books-IsQuiet none two d end e = same_end _ end e (finalize-IsQuiet _ d)
  with_books-IsQuiet (some one) none d end e = same_end _ end e (finalize-IsQuiet _ d)
  with_books-IsQuiet (some one) (some two) d end e = elim (Option-cases (best_bid one)) [
    | inl missing ↦ same_end _ end (rw missing at e) (finalize-IsQuiet _ d)
    | inr (bid, there) ↦ elim (Bool-cases (leb_ℤ bid (pos 0))) [
      | inl low ↦ same_end _ end (rw (there, low) at e) (finalize-IsQuiet _ d)
      | inr good ↦ resumed-IsQuiet (maker_price_of s bid) two _ d end (rw (there, good) at e)
    ]
  ]

  pub execute-IsQuiet :
      (d : MakerDesk W) (end : Outcome × MakerDesk W)
      → execute submit s m opp amount d ≡ some end
      → end.0 ≢ threw
  unfolding execute
  execute-IsQuiet d end e = elim (Bool-cases (is_dry_run s.mode)) [
    | inl dry ↦ same_end (skipped, d) end (rw dry at e) (λ f. absurd (cc))
    | inr trades ↦
        with_books-IsQuiet (Books.get m.books opp.buy_exchange opp.symbol)
          (Books.get m.books opp.sell_exchange opp.symbol) d end (rw trades at e)
  ]
