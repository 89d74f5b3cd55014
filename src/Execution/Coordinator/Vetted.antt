-- ===== src/Execution/Coordinator/Vetted.antt =====
-- The conditions that the gates of app/execution/hedge_coordinator.py have checked once they let a
-- group through.
use arb_system.Base.{
  ℕ, Text, ◌-◌, ◌≤◌, ◌≡◌, refl, false, Option, none, some, Decimal, pos, ◌≤ℤ◌, ◌<ℤ◌, mul_dec, ltb_ℤ,
  ltb, Bool-cases, inl, inr, arith,
}
use arb_system.Models.{Side, HedgeState, OrderBookSnapshot, ArbitrageOpportunity, HedgeGroupState}
use arb_system.Settings.{Settings}
use arb_system.MarketData.Books
use arb_system.MarketData.Books.{Books, Entry, entry, age_of, snapshot_of}
use arb_system.Strategy.Spread.{SpreadCalculator, SpreadEstimate, evaluate_direction}
use arb_system.Execution.Policy.{in_band_depth}
use arb_system.Execution.Coordinator.Desk.{Moment}
use arb_system.Execution.Coordinator.Gates.{
  Gate, ready, aborted, raised, ◌>>=◌, new_group, turn_to, signal_gate, age_gate, too_old, priced,
  deep, book_gates, fresh_gates, gates,
}

-- A book in the store that is no older than the limit for trading.
pub record IsFresh (s : Settings) (v : Moment) (exchange symbol : Text) (book : OrderBookSnapshot)
    : Type 0 where
  pub found : Books.get v.books exchange symbol ≡ some book
  pub age : ℕ
  pub aged : Books.age_ms v.books exchange symbol v.now ≡ some age
  pub young : age ≤ s.max_book_age_ms_for_trade

-- Both books are fresh, the edge for the approved amount reaches the minimum, and both books offer
-- the required share of the amount within the price band.
pub record Vetted (s : Settings) (k : SpreadCalculator) (v : Moment) (opp : ArbitrageOpportunity)
    (amount : Decimal) : Type 0 where
  pub signal : v.now - opp.detected_at ≤ s.max_signal_to_order_ms
  pub buy_book : OrderBookSnapshot
  pub sell_book : OrderBookSnapshot
  pub buy_fresh : IsFresh s v opp.buy_exchange opp.symbol buy_book
  pub sell_fresh : IsFresh s v opp.sell_exchange opp.symbol sell_book
  pub estimate : SpreadEstimate
  pub estimated : evaluate_direction k opp.symbol buy_book sell_book amount ≡ some estimate
  pub edge : s.min_net_edge_bps ≤ℤ estimate.net_edge_bps
  pub depth :
      pos 0 <ℤ s.min_in_band_depth_ratio
      → (mul_dec amount s.min_in_band_depth_ratio
          ≤ℤ in_band_depth (some buy_book) Side.buy s.ioc_price_buffer_bps)
        × (mul_dec amount s.min_in_band_depth_ratio
            ≤ℤ in_band_depth (some sell_book) Side.sell s.ioc_price_buffer_bps)

>>=-eq-ready :
    (m : Gate) (f : HedgeGroupState → Gate) {g : HedgeGroupState}
    → (m >>= f) ≡ ready g
    → (h : HedgeGroupState) × (m ≡ ready h) × (f h ≡ ready g)
>>=-eq-ready (ready h) f e = (h, refl, e)
>>=-eq-ready (aborted h) f e = cc
>>=-eq-ready (raised h) f e = cc

entry-IsFresh :
    (s : Settings) (v : Moment) (exchange symbol : Text) (o : Option Entry)
    → entry v.books exchange symbol ≡ o
    → too_old s.max_book_age_ms_for_trade (age_of v.now o) ≡ false
    → (book : OrderBookSnapshot) × IsFresh s v exchange symbol book
unfolding Books.get Books.age_ms
entry-IsFresh s v exchange symbol none e h = absurd (ground arith)
entry-IsFresh s v exchange symbol (some x) e h = (
  x.snapshot,
  record { found = rw e; age = v.now - x.received_at_ms; aged = rw e; young = ground arith },
)

signal_gate-ready :
    (s : Settings) (v : Moment) (opp : ArbitrageOpportunity) (g : HedgeGroupState)
    {h : HedgeGroupState}
    → signal_gate s v opp g ≡ ready h
    → v.now - opp.detected_at ≤ s.max_signal_to_order_ms
unfolding signal_gate
signal_gate-ready s v opp g e =
    elim (Bool-cases (ltb s.max_signal_to_order_ms (v.now - opp.detected_at))) [
      | inl late ↦ absurd (ground arith)
      | inr intime ↦ ground arith
    ]

age_gate-ready :
    (s : Settings) (v : Moment) (opp : ArbitrageOpportunity) (g : HedgeGroupState)
    {h : HedgeGroupState}
    → age_gate s v opp g ≡ ready h
    → (too_old s.max_book_age_ms_for_trade (Books.age_ms v.books opp.buy_exchange opp.symbol v.now)
        ≡ false)
      × (too_old s.max_book_age_ms_for_trade
            (Books.age_ms v.books opp.sell_exchange opp.symbol v.now)
          ≡ false)
unfolding age_gate
age_gate-ready s v opp g e = ground arith

priced-ready :
    (s : Settings) (v : Moment) (g : HedgeGroupState) (o : Option SpreadEstimate)
    {h : HedgeGroupState}
    → priced s v g o ≡ ready h
    → (est : SpreadEstimate) × (o ≡ some est) × (s.min_net_edge_bps ≤ℤ est.net_edge_bps)
priced-ready s v g none e = cc
priced-ready s v g (some est) e = elim (Bool-cases (ltb_ℤ est.net_edge_bps s.min_net_edge_bps)) [
  | inl low ↦ absurd (ground arith)
  | inr enough ↦ (est, refl, ground arith)
]

deep-ready :
    (s : Settings) (v : Moment) (amount : Decimal) (b b' : OrderBookSnapshot) (g : HedgeGroupState)
    {h : HedgeGroupState}
    → deep s v amount b b' g ≡ ready h
    → pos 0 <ℤ s.min_in_band_depth_ratio
    → (mul_dec amount s.min_in_band_depth_ratio
        ≤ℤ in_band_depth (some b) Side.buy s.ioc_price_buffer_bps)
      × (mul_dec amount s.min_in_band_depth_ratio
          ≤ℤ in_band_depth (some b') Side.sell s.ioc_price_buffer_bps)
deep-ready s v amount b b' g e on = ground arith

-- A trade whose group passes the gates has been vetted at that moment: the signal and both books are
-- young enough, the edge recomputed for the approved amount reaches the minimum, and both books hold
-- the required share of the amount within the price band.
pub gates-Vetted :
    (s : Settings) (k : SpreadCalculator) (v : Moment) (opp : ArbitrageOpportunity)
    (amount : Decimal) {g : HedgeGroupState}
    → gates s (some k) v opp amount ≡ ready g
    → Vetted s k v opp amount
unfolding gates fresh_gates Books.age_ms
gates-Vetted s k v opp amount e =
    let (g3, e3, _) = >>=-eq-ready _ (turn_to HedgeState.submitting) e in
    let (g2, e2, fresh) = >>=-eq-ready _ (fresh_gates s (some k) v opp amount) e3 in
    let (g1, e1, _) = >>=-eq-ready (signal_gate s v opp (new_group v opp amount)) _ e2 in
    let (h, aged, checked) = >>=-eq-ready (age_gate s v opp g2) _ fresh in
    let (buy_ok, sell_ok) = age_gate-ready s v opp g2 aged in
    let (b, one) = entry-IsFresh s v opp.buy_exchange opp.symbol _ refl buy_ok in
    let (b', two) = entry-IsFresh s v opp.sell_exchange opp.symbol _ refl sell_ok in
    let found : book_gates s k v opp amount (some b) (some b') h ≡ ready g3 =
      rw (one.found, two.found) at checked in
    let (m, estimated, deep_enough) =
      >>=-eq-ready (priced s v h (evaluate_direction k opp.symbol b b' amount)) _ found in
    let (est, got, edge) = priced-ready s v h _ estimated in
    record {
      signal = signal_gate-ready s v opp (new_group v opp amount) e1;
      buy_book = b;
      sell_book = b';
      buy_fresh = one;
      sell_fresh = two;
      estimate = est;
      estimated = got;
      edge = edge;
      depth = deep-ready s v amount b b' m deep_enough;
    }
