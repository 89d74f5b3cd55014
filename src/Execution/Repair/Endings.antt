-- ===== src/Execution/Repair/Endings.antt =====
-- The ways in which `repair` of app/execution/repair_engine.py ends.
use arb_system.Base.{
  ◌≤◌, ◌<◌, ◌≡◌, refl, ap, inl, inr, true, false, ◌&&◌, Text, Option, none, some, List, ◌∷◌, [],
  ◌++◌, Decimal, pos, neg_ℤ, ltb_ℤ, ◌<ℤ◌, eqb_ℤ, leb, is_some, Bool-cases, arith, int_laws,
}
use arb_system.Models.{
  Side, HedgeState, OrderBookSnapshot, OrderIntent, UnifiedOrderState, HedgeGroupState, Note,
}
use arb_system.Settings.{Settings}
use arb_system.StateMachine.{assert_transition}
use arb_system.MarketData.Books
use arb_system.MarketData.Books.{Books}
use arb_system.Execution.Policy.{in_band_depth}
use arb_system.Execution.Submission.{Submit}
use arb_system.Execution.Tracker.{Tracker}
use arb_system.Execution.Repair.{
  Outcome, returned, threw, Residual, residual_of, Venue, choose_venue, projected_pnl, too_costly,
  skipped, exhausted, repair_intent, fold_fill, moved, finish, start_repair, on_reply,
  submit_repair, attempt, repair,
}

abbrev pub noted : List Note → HedgeGroupState → HedgeGroupState
noted ns g = record g { notes = ns }

-- The positive amount on the side that brings a net position to zero.
pub data Closes (net : Decimal) : Side → Decimal → Type 0 where
  long : pos 0 <ℤ net → Closes net Side.sell net
  short : net <ℤ pos 0 → Closes net Side.buy (neg_ℤ net)

pub Closes_positive :
    {net : Decimal} {side : Side} {amount : Decimal} → Closes net side amount → pos 0 <ℤ amount
Closes_positive (long h) = h
Closes_positive (short h) = omega int_laws

pub Closes-residual_of :
    (g : HedgeGroupState)
    → eqb_ℤ g.net_position_base (pos 0) ≡ false
    → Closes g.net_position_base (residual_of g).side (residual_of g).amount
unfolding residual_of
Closes-residual_of g h = elim (Bool-cases (ltb_ℤ (pos 0) g.net_position_base)) [
  | inl e ↦ rw e (long (ground arith))
  | inr e ↦ rw e (short (ground arith))
]

abbrev pub venue_at : Text → Option OrderBookSnapshot → HedgeGroupState → Venue
venue_at exchange book g = record { exchange = exchange; book = book; group = g }

pub choose_venue-eq :
    (s : Settings) (books : Books) (r : Residual) (g : HedgeGroupState)
    → (x : Text) × (book : Option OrderBookSnapshot) × (ns : List Note) × (choose_venue s books r g
        ≡ venue_at x book (noted ns g))
unfolding choose_venue
choose_venue-eq s books r g =
    let primary_book = Books.get books r.primary g.symbol in
    let fallback_book = Books.get books r.fallback g.symbol in
    let one = in_band_depth primary_book r.side s.ioc_price_buffer_bps in
    let two = in_band_depth fallback_book r.side s.ioc_price_buffer_bps in
    let pivot = Note.pivot_to_filled_leg r.primary one r.fallback two r.amount in
    elim (Bool-cases (ltb_ℤ one r.amount && is_some fallback_book && ltb_ℤ one two)) [
      | inl e ↦ (r.fallback, fallback_book, g.notes ++ (pivot ∷ []), rw e)
      | inr e ↦ (r.primary, primary_book, g.notes, rw e)
    ]

-- How a repair of a group ends, by the guard that ends it.
pub data Ending {W : Type 0} (submit : Submit W) (s : Settings) (g : HedgeGroupState)
    : Outcome → Type 0 where
  flat :
      g.net_position_base ≡ pos 0
      → Ending submit s g (returned (record g { state = HedgeState.completed }))
  spent : s.max_repair_attempts ≤ g.repair_attempts → Ending submit s g (returned (exhausted g))
  refused :
      (ns : List Note) (pnl : Option Decimal)
      → too_costly s pnl ≡ true
      → Ending submit s g (returned (skipped s pnl (noted ns g)))
  blocked :
      (ns : List Note)
      → assert_transition g.state HedgeState.repairing ≡ none
      → Ending submit s g (threw (noted ns g))
  failed :
      (ns : List Note) (intent : OrderIntent) (w : W)
      → g.repair_attempts < s.max_repair_attempts
      → (submit intent w).0 ≡ none
      → Ending submit s g (threw (start_repair (noted ns g)))
  filled :
      (ns : List Note) (intent : OrderIntent) (w : W) (o : UnifiedOrderState)
      → g.repair_attempts < s.max_repair_attempts
      → Closes g.net_position_base intent.side intent.amount
      → (submit intent w).0 ≡ some o
      → Ending submit s g (finish (fold_fill intent.side o (start_repair (noted ns g))))

module _ {W : Type 0} (submit : Submit W) (s : Settings) (client : Text) (books : Books) where
  on_reply-Ending :
      (g : HedgeGroupState) (ns : List Note) (intent : OrderIntent) (t : Tracker) (w : W)
      (reply : Option UnifiedOrderState × W)
      → g.repair_attempts < s.max_repair_attempts
      → Closes g.net_position_base intent.side intent.amount
      → submit intent w ≡ reply
      → Ending submit s g
          (on_reply submit s client books intent.side (start_repair (noted ns g)) t reply).0
  unfolding on_reply
  on_reply-Ending g ns intent t w (none, w') few closes e = failed ns intent w few (ap (λ p. p.0) e)
  on_reply-Ending g ns intent t w (some o, w') few closes e =
      filled ns intent w o few closes (ap (λ p. p.0) e)

  submit_repair-Ending :
      (g : HedgeGroupState) (r : Residual) (x : Text) (book : Option OrderBookSnapshot)
      (ns : List Note) (t : Tracker) (w : W) (turn : Option (Unit {0}))
      → g.repair_attempts < s.max_repair_attempts
      → Closes g.net_position_base r.side r.amount
      → assert_transition g.state HedgeState.repairing ≡ turn
      → Ending submit s g
          (submit_repair submit s client books r
            (venue_at x book (noted ns g))
            (moved turn HedgeState.repairing (noted ns g))
            t
            w).0
  submit_repair-Ending g r x book ns t w none few closes e = blocked ns e
  submit_repair-Ending g r x book ns t w (some u) few closes e =
      let intent = repair_intent s client r (venue_at x book (noted ns g)) in
      on_reply-Ending g ns intent t w (submit intent w) few closes refl

  attempt-Ending :
      (g : HedgeGroupState) (r : Residual) (x : Text) (book : Option OrderBookSnapshot)
      (ns : List Note) (t : Tracker) (w : W)
      → g.repair_attempts < s.max_repair_attempts
      → Closes g.net_position_base r.side r.amount
      → Ending submit s g (attempt submit s client books r (venue_at x book (noted ns g)) t w).0
  unfolding attempt
  attempt-Ending g r x book ns t w few closes =
      let pnl = projected_pnl s r (noted ns g) book in
      elim (Bool-cases (too_costly s pnl)) [
        | inl high ↦ rw high (refused ns pnl high)
        | inr low ↦ rw low (submit_repair-Ending g r x book ns t w _ few closes refl)
      ]

  pub repair-Ending :
      (g : HedgeGroupState) (t : Tracker) (w : W)
      → Ending submit s g (repair submit s client books g t w).0
  unfolding repair
  repair-Ending g t w = elim (Bool-cases (eqb_ℤ g.net_position_base (pos 0))) [
    | inl e ↦ rw e (flat (ground arith))
    | inr e ↦ elim (Bool-cases (leb s.max_repair_attempts g.repair_attempts)) [
      | inl many ↦ rw (e, many) (spent (ground arith))
      | inr few ↦
          let r = residual_of g in
          let (x, book, ns, same) = choose_venue-eq s books r g in
          rw (e, few, same)
            (attempt-Ending g r x book ns t w (ground arith) (Closes-residual_of g e))
    ]
  ]
