-- ===== src/Execution/Triangular/Walks.antt =====
-- What the loops over legs and over fills in app/execution/triangular_executor.py send and record.
use arb_system.Base.{
  ℕ, suc, ◌≡◌, refl, true, false, Text, Option, none, some, List, [], ◌∷◌, ◌++◌, append_assoc,
  append-nil, Decimal, pos, ◌∙◌, ◌≤ℤ◌, ◌<ℤ◌, leb_ℤ, Bool-cases, Option-cases, inl, inr, arith,
  leb→le_ℤ, sym, ◌⊎◌,
}
use arb_system.Models.{Side, OrderIntent, OrderType, UnifiedOrderState, opposite}
use arb_system.Execution.Submission.{Submit, IsEcho}
use arb_system.Execution.Triangular.{LegResult, Leg, leg_intent, to_leg, brought}
use arb_system.Execution.Triangular.Rollback.{reverse_intent, rollback_leg, reverse_legs}
use arb_system.Execution.Triangular.Run.{
  Walk, finished, failed, threw, size, is_failure, zero_leg, run_legs,
}

-- An immediate-or-cancel order at the exchange for this pair, side, amount and price.
pub record IsOrder (exchange pair : Text) (side : Side) (amount : Decimal) (price : Option Decimal)
    (intent : OrderIntent) : Type 0 where
  pub at : intent.exchange ≡ exchange
  pub symbol : intent.symbol ≡ pair
  pub on : intent.side ≡ side
  pub size : intent.amount ≡ amount
  pub limit : intent.price ≡ price
  pub kind : intent.order_type ≡ OrderType.ioc_limit

module _ {W : Type 0} (submit : Submit W) (exchange : Text) where
  -- The leg's order, sized by what was in hand, was sent in the world `w`, and this is the reply.
  pub record Answered (l : Leg) (running : Decimal) (w : W) (intent : OrderIntent)
      (o : UnifiedOrderState) : Type 0 where
    pub sent : IsOrder exchange l.pair l.side (size l running) (some l.price) intent
    pub got : (submit intent w).0 ≡ some o
    pub named : (o.symbol ≡ l.pair) × (o.side ≡ l.side) × (o.amount ≡ size l running)
    pub positive : pos 0 <ℤ size l running

  -- The results of legs each of which spends what the one before it brought, until the plan or the amount
  -- in hand is exhausted. The last number is what is in hand then; the worlds are those before and after.
  pub data Chain : List Leg → ℕ → Decimal → W → List LegResult → Decimal → W → Type 0 where
    through : (i : ℕ) (q : Decimal) (w : W) → Chain [] i q w [] q w
    exhausted :
        (l : Leg) (ls : List Leg) (i : ℕ) (q : Decimal) (w : W)
        → size l q ≤ℤ pos 0
        → Chain (l ∷ ls) i q w (zero_leg i l (size l q) ∷ []) q w
    traded :
        (l : Leg) (ls : List Leg) (i : ℕ) (q : Decimal) (w : W) (intent : OrderIntent)
        (o : UnifiedOrderState) (rs : List LegResult) (left : Decimal) (w' : W)
        → Answered l q w intent o
        → is_failure o ≡ false
        → Chain ls (suc i) (brought l.side o) (submit intent w).1 rs left w'
        → Chain (l ∷ ls) i q w (to_leg i o ∷ rs) left w'

  -- The results up to a leg that failed, and the fills before it.
  pub data Broken (k : ℕ) (last : UnifiedOrderState)
      : List Leg → ℕ → Decimal → W → List LegResult → List UnifiedOrderState → W → Type 0 where
    refused :
        (l : Leg) (ls : List Leg) (i : ℕ) (q : Decimal) (w : W) (intent : OrderIntent)
        → k ≡ i
        → Answered l q w intent last
        → is_failure last ≡ true
        → Broken k last (l ∷ ls) i q w (to_leg i last ∷ []) [] (submit intent w).1
    later :
        (l : Leg) (ls : List Leg) (i : ℕ) (q : Decimal) (w : W) (intent : OrderIntent)
        (o : UnifiedOrderState) (rs : List LegResult) (fills : List UnifiedOrderState) (w' : W)
        → Answered l q w intent o
        → is_failure o ≡ false
        → Broken k last ls (suc i) (brought l.side o) (submit intent w).1 rs fills w'
        → Broken k last (l ∷ ls) i q w (to_leg i o ∷ rs) (o ∷ fills) w'

  -- What a reversal of a fill records: what the reply filled, or nothing if the router raised.
  pub record Records (o : UnifiedOrderState) (reply : Option UnifiedOrderState) (r : LegResult)
      : Type 0 where
    pub pair : r.pair ≡ o.symbol
    pub side : r.side ≡ opposite o.side
    pub amount : r.intent_amount ≡ o.filled
    pub filled :
        ((reply ≡ none) × (r.filled ≡ pos 0))
        ⊎ ((s : UnifiedOrderState) × (reply ≡ some s) × (r.filled ≡ s.filled))

  -- For each fill one order was sent, on the other side and for the amount filled.
  pub data Undoes : List UnifiedOrderState → W → List LegResult → W → Type 0 where
    none_left : (w : W) → Undoes [] w [] w
    undone :
        (o : UnifiedOrderState) (os : List UnifiedOrderState) (w : W) (intent : OrderIntent)
        (r : LegResult) (rs : List LegResult) (w' : W)
        → IsOrder exchange o.symbol (opposite o.side) o.filled o.avg_fill_price intent
        → Records o (submit intent w).0 r
        → Undoes os (submit intent w).1 rs w'
        → Undoes (o ∷ os) w (r ∷ rs) w'

  -- How the loop ends, with the results and fills that it started from.
  pub data Walked (ls : List Leg) (i : ℕ) (q : Decimal) (legs : List LegResult)
      (fills : List UnifiedOrderState) (w w' : W) : Walk → Type 0 where
    ran :
        (all rs : List LegResult) (left : Decimal)
        → all ≡ legs ++ rs
        → Chain ls i q w rs left w'
        → Walked ls i q legs fills w w' (finished all left)
    broke :
        (k : ℕ) (o : UnifiedOrderState) (all rs : List LegResult)
        (filled gone : List UnifiedOrderState)
        → all ≡ legs ++ rs
        → filled ≡ fills ++ gone
        → Broken k o ls i q w rs gone w'
        → Walked ls i q legs fills w w' (failed k o all filled)
    lost : Walked ls i q legs fills w w' threw

  Walked-later :
      (l : Leg) (ls : List Leg) (i : ℕ) (q : Decimal) (w : W) (intent : OrderIntent)
      (o : UnifiedOrderState) (legs : List LegResult) (fills : List UnifiedOrderState) (w' : W)
      (out : Walk)
      → Answered l q w intent o
      → is_failure o ≡ false
      → Walked ls
          (suc i)
          (brought l.side o)
          (legs ++ (to_leg i o ∷ []))
          (fills ++ (o ∷ []))
          (submit intent w).1
          w'
          out
      → Walked (l ∷ ls) i q legs fills w w' out
  Walked-later l ls i q w intent o legs fills w' _ a fine (ran all rs left e c) =
      ran all _ left (e ∙ append_assoc legs (to_leg i o ∷ []) rs)
        (traded l ls i q w intent o rs left w' a fine c)
  Walked-later l ls i q w intent o legs fills w' _ a fine (broke k last all rs filled gone e e' b) =
      broke k last all _ filled _ (e ∙ append_assoc legs (to_leg i o ∷ []) rs)
        (e' ∙ append_assoc fills (o ∷ []) gone) (later l ls i q w intent o rs gone w' a fine b)
  Walked-later l ls i q w intent o legs fills w' _ a fine lost = lost

  module _ (exec_id : Text) (echo : IsEcho submit) where
    answered :
        (l : Leg) (i : ℕ) (q : Decimal) (w : W) (o : UnifiedOrderState)
        → leb_ℤ (size l q) (pos 0) ≡ false
        → (submit (leg_intent exec_id exchange i l (size l q)) w).0 ≡ some o
        → Answered l q w (leg_intent exec_id exchange i l (size l q)) o
    answered l i q w o high got = record {
      sent = record { at = refl; symbol = refl; on = refl; size = refl; limit = refl; kind = refl };
      got = got;
      named = echo (leg_intent exec_id exchange i l (size l q)) w o got;
      positive = ground (arith, high);
    }

    pub run_legs-Walked :
        (ls : List Leg) (i : ℕ) (q : Decimal) (legs : List LegResult)
        (fills : List UnifiedOrderState) (w : W)
        → let out = run_legs submit exec_id exchange ls i q legs fills w in
          Walked ls i q legs fills w out.1 out.0
    unfolding run_legs
    run_legs-Walked [] i q legs fills w = ran legs [] q (sym (append-nil legs)) (through i q w)
    run_legs-Walked (l ∷ ls) i q legs fills w =
        let amount = size l q in
        let intent = leg_intent exec_id exchange i l amount in
        elim (Bool-cases (leb_ℤ amount (pos 0))) [
          | inl low ↦ rw low (ran _ _ q refl (exhausted l ls i q w (leb→le_ℤ amount (pos 0) low)))
          | inr high ↦ elim (Option-cases (submit intent w).0) [
            | inl silent ↦ rw (high, silent) lost
            | inr (o, got) ↦
                let a : Answered l q w intent o = answered l i q w o high got in
                elim (Bool-cases (is_failure o)) [
                  | inl bad ↦
                      rw (high, got, bad)
                        (broke i o _ _ fills [] refl (sym (append-nil fills))
                          (refused l ls i q w intent refl a bad))
                  | inr fine ↦
                      rw (high, got, fine)
                        (Walked-later l ls i q w intent o legs fills _ _ a fine (
                          run_legs-Walked ls (suc i) (brought l.side o) (legs ++ (to_leg i o ∷ []))
                            (fills ++ (o ∷ [])) (submit intent w).1))
                ]
          ]
        ]

    rollback_leg-Records :
        (i : ℕ) (o : UnifiedOrderState) (w : W)
        → let reply = (submit (reverse_intent exec_id exchange i o) w).0 in
          Records o reply (rollback_leg i o reply)
    unfolding to_leg
    rollback_leg-Records i o w =
        let intent = reverse_intent exec_id exchange i o in
        elim (Option-cases (submit intent w).0) [
          | inl silent ↦
              rw silent
                record { pair = refl; side = refl; amount = refl; filled = inl (refl, refl) }
          | inr (reply, got) ↦
              let (pair, side, amount) = echo intent w reply got in
              rw got record {
                pair = pair;
                side = side;
                amount = amount;
                filled = inr (reply, refl, refl);
              }
        ]

    pub reverse_legs-Undoes :
        (i : ℕ) (os : List UnifiedOrderState) (w : W)
        → let out = reverse_legs submit exec_id exchange i os w in Undoes os w out.0 out.1
    unfolding reverse_legs
    reverse_legs-Undoes i [] w = none_left w
    reverse_legs-Undoes i (o ∷ os) w =
        undone o os w (reverse_intent exec_id exchange i o) _ _ _
          (record { at = refl; symbol = refl; on = refl; size = refl; limit = refl; kind = refl })
          (rollback_leg-Records i o w)
          (reverse_legs-Undoes (suc i) os (submit (reverse_intent exec_id exchange i o) w).1)
