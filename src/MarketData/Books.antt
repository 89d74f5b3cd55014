-- ===== src/MarketData/Books.antt =====
-- app/marketdata/orderbook_manager.py: the store of the latest books. Times are milliseconds.
pub mod Laws
use arb_system.Base.{
  ℕ, ◌+◌, ◌-◌, Bool, true, false, Text, Option, none, some, List, [], ◌∷◌, ◌++◌, Dict, lookup,
  insert, pair_key, ltb, leb, if◌then◌else◌, length, text_key, or_default,
}
use arb_system.Models.{OrderBookSnapshot}

pub record Entry : Type 0 where
  pub snapshot : OrderBookSnapshot
  pub received_at_ms : ℕ

-- An `asyncio.Queue`; a `maxsize` of zero is no bound.
pub record Queue : Type 0 where
  pub maxsize : ℕ
  pub items : List OrderBookSnapshot

pub record Books : Type 0 where
  pub max_stale_ms : ℕ
  pub entries : Dict (Text × Text) Entry
  pub subscribers : List Queue

-- `put_nowait`, with `QueueFull` caught: a full queue stays as it is.
unfoldable pub put_nowait : OrderBookSnapshot → Queue → Queue
put_nowait snap q =
    if leb 1 q.maxsize
    then if leb q.maxsize (length q.items) then q else record q { items = q.items ++ (snap ∷ []) }
    else record q { items = q.items ++ (snap ∷ []) }

abbrev pub publish : OrderBookSnapshot → List Queue → List Queue
publish snap [] = []
publish snap (q ∷ qs) = put_nowait snap q ∷ publish snap qs

unfoldable pub update : OrderBookSnapshot → ℕ → Books → Books
update snap now b = record b {
  entries =
      insert (snap.exchange, snap.symbol) (record { snapshot = snap; received_at_ms = now })
        b.entries;
  subscribers = publish snap b.subscribers;
}

unfoldable pub entry : Books → Text → Text → Option Entry
entry b exchange symbol = lookup (exchange, symbol) b.entries

abbrev pub snapshot_of : Option Entry → Option OrderBookSnapshot
snapshot_of none = none
snapshot_of (some e) = some e.snapshot

unfoldable pub get : Books → Text → Text → Option OrderBookSnapshot
get b exchange symbol = snapshot_of (entry b exchange symbol)

abbrev pub stale_entry : ℕ → ℕ → Option Entry → Bool
stale_entry limit now none = true
stale_entry limit now (some e) = ltb limit (now - e.received_at_ms)

-- `now` is before the reception only if the clock was set back; the age is then negative in the
-- source, and zero here and in `age_ms`, on the same side of every limit.
unfoldable pub is_stale : Books → Text → Text → ℕ → Bool
is_stale b exchange symbol now = stale_entry b.max_stale_ms now (entry b exchange symbol)

abbrev pub age_of : ℕ → Option Entry → Option ℕ
age_of now none = none
age_of now (some e) = some (now - e.received_at_ms)

unfoldable pub age_ms : Books → Text → Text → ℕ → Option ℕ
age_ms b exchange symbol now = age_of now (entry b exchange symbol)

unfoldable pub subscribe : ℕ → Books → Books
subscribe maxsize b = record b {
  subscribers = b.subscribers ++ (record { maxsize = maxsize; items = [] } ∷ []);
}
