-- ===== src/Execution/Tracker/Laws.antt =====
-- Reads of app/execution/order_tracker.py after a write.
use arb_system.Base.{
  ◌≡◌, ◌≢◌, refl, false, Text, text_eq, text_eq_iff, text_key, some, List, [], ◌∷◌, ◌++◌, lookup,
  lookup-insert, if◌then◌else◌, arith, Bool-cases, Option-cases, text_eq_refl, inl, inr, contains,
}
use arb_system.Models.{UnifiedOrderState}
use arb_system.Execution.Tracker.{Tracker, ids_of, update, add, get, orders_of, by_hedge, index}

by_internal-index :
    (o : UnifiedOrderState) (s : Text) (t : Tracker) → (index o s t).by_internal ≡ t.by_internal
by_internal-index o [] t = refl
by_internal-index o (c ∷ s) t = refl

-- The ids that an indexed order leaves under a hedge group.
ids_of-index :
    (o : UnifiedOrderState) (s : Text) (t : Tracker) (h : Text)
    → s ≢ []
    → ids_of (index o s t) h
      ≡ (if text_eq s h then ids_of t h ++ (o.internal_order_id ∷ []) else ids_of t h)
unfolding ids_of
ids_of-index o [] t h some_id = absurd (some_id refl)
ids_of-index o (c ∷ s) t h some_id = rw lookup-insert (elim (Bool-cases (text_eq (c ∷ s) h)) [
  | inl same ↦ rw (same, ← (text_eq_iff (c ∷ s) h).0 same)
  | inr other ↦ rw other
])

get-add :
    (o : UnifiedOrderState) (t : Tracker) (i : Text)
    → get (add o t) i ≡ (if text_eq o.internal_order_id i then some o else get t i)
unfolding get add
get-add o t i = rw by_internal-index (lookup-insert o.internal_order_id i o t.by_internal)

ids_of-add :
    (o : UnifiedOrderState) (t : Tracker) (h : Text)
    → o.hedge_group_id ≢ []
    → ids_of (add o t) h ≡ (
        if text_eq o.hedge_group_id h then ids_of t h ++ (o.internal_order_id ∷ []) else ids_of t h)
unfolding ids_of add
ids_of-add o t h some_id = ids_of-index o o.hedge_group_id (update o t) h some_id

orders_of-add :
    (o : UnifiedOrderState) (t : Tracker) (is : List Text)
    → contains o.internal_order_id is ≡ false
    → orders_of (add o t) is ≡ orders_of t is
unfolding orders_of contains get
orders_of-add o t [] fresh = refl
orders_of-add o t (i ∷ is) fresh =
    let other : text_eq o.internal_order_id i ≡ false =
      ground (arith, text_eq_iff o.internal_order_id i, text_eq_iff i o.internal_order_id) in
    let here : lookup i (add o t).by_internal ≡ lookup i t.by_internal =
      rw other at (get-add o t i) in
    rw (here, orders_of-add o t is (ground arith))

orders_of_self :
    (o : UnifiedOrderState) (t : Tracker) → orders_of (add o t) (o.internal_order_id ∷ []) ≡ o ∷ []
unfolding orders_of get
orders_of_self o t =
    let here : lookup o.internal_order_id (add o t).by_internal ≡ some o =
      rw (text_eq_refl o.internal_order_id) at (get-add o t o.internal_order_id) in
    rw here

orders_of-snoc :
    (t : Tracker) (is : List Text) (i : Text)
    → orders_of t (is ++ (i ∷ [])) ≡ orders_of t is ++ orders_of t (i ∷ [])
unfolding orders_of
orders_of-snoc t [] i = refl
orders_of-snoc t (j ∷ is) i = elim (Option-cases (lookup j t.by_internal)) [
  | inl e ↦ rw (e, orders_of-snoc t is i)
  | inr (o, e) ↦ rw (e, orders_of-snoc t is i)
]

-- An order whose internal id is new to its hedge group becomes the last of the group's orders, and
-- the orders of the other groups that do not name its id stay as they were.
pub by_hedge-add :
    (o : UnifiedOrderState) (t : Tracker) (h : Text)
    → o.hedge_group_id ≢ []
    → contains o.internal_order_id (ids_of t h) ≡ false
    → by_hedge (add o t) h
      ≡ (if text_eq o.hedge_group_id h then by_hedge t h ++ (o ∷ []) else by_hedge t h)
unfolding by_hedge
by_hedge-add o t h some_id fresh =
    rw (ids_of-add o t h some_id) (elim (Bool-cases (text_eq o.hedge_group_id h)) [
      | inl same ↦ rw same (
          rw (orders_of-snoc (add o t) (ids_of t h) o.internal_order_id)
            (rw (orders_of-add o t (ids_of t h) fresh, orders_of_self o t)))
      | inr other ↦ rw other (orders_of-add o t (ids_of t h) fresh)
    ])
