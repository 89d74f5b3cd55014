-- ===== src/Execution/Tracker.antt =====
-- app/execution/order_tracker.py.
pub mod Laws
use arb_system.Base.{
  Text, Option, none, some, List, [], ◌∷◌, ◌++◌, Dict, lookup, insert, values, text_key, or_default,
}
use arb_system.Models.{UnifiedOrderState}

pub record Tracker : Type 0 where
  pub by_internal : Dict Text UnifiedOrderState
  pub by_hedge_id : Dict Text (List Text)

abbrev pub no_orders : Tracker
no_orders = record { by_internal = []; by_hedge_id = [] }

unfoldable pub ids_of : Tracker → Text → List Text
ids_of t hedge = or_default (lookup hedge t.by_hedge_id) []

abbrev pub index : UnifiedOrderState → Text → Tracker → Tracker
index o [] t = t
index o (c ∷ s) t = record t {
  by_hedge_id =
      insert (c ∷ s) (or_default (lookup (c ∷ s) t.by_hedge_id) [] ++ (o.internal_order_id ∷ []))
        t.by_hedge_id;
}

unfoldable pub update : UnifiedOrderState → Tracker → Tracker
update o t = record t { by_internal = insert o.internal_order_id o t.by_internal }

unfoldable pub add : UnifiedOrderState → Tracker → Tracker
unfolding update
add o t = index o o.hedge_group_id (update o t)

unfoldable pub get : Tracker → Text → Option UnifiedOrderState
get t id = lookup id t.by_internal

abbrev pub cons_some : Option UnifiedOrderState → List UnifiedOrderState → List UnifiedOrderState
cons_some none os = os
cons_some (some o) os = o ∷ os

unfoldable pub orders_of : Tracker → List Text → List UnifiedOrderState
orders_of t [] = []
orders_of t (i ∷ is) = cons_some (lookup i t.by_internal) (orders_of t is)

unfoldable pub by_hedge : Tracker → Text → List UnifiedOrderState
by_hedge t hedge = orders_of t (ids_of t hedge)

unfoldable pub all : Tracker → List UnifiedOrderState
all t = values t.by_internal
