-- ===== src/MarketData/Polling.antt =====
-- `_poll_one` of app/marketdata/orderbook_manager.py: the rounds that keep one pair up to date. What the
-- adapter replies in a round is an argument. Times are milliseconds.
pub mod Recovery
use arb_system.Base.{
  ℕ, ◌+◌, ◌*◌, ◌-◌, ◌==◌, ◌&&◌, Bool, true, false, Text, text, List, [], ◌∷◌, Dict, insert,
  pair_key, text_key, leb, if◌then◌else◌,
}
use arb_system.Models.{OrderBookSnapshot}
use arb_system.MarketData.Books
use arb_system.MarketData.Books.{Books}

pub data Reply : Type 0 where
  snapped : OrderBookSnapshot → Reply
  not_implemented transient failed : Reply

-- The counters of the loop. While `disabled` is not zero, the websocket is not used.
pub record Poller : Type 0 where
  pub backoff : ℕ
  pub disabled : ℕ
  pub failures : ℕ

-- The loop, the book store and the data sources; `slept` is the pause that ended the round.
pub record Polling : Type 0 where
  pub poller : Poller
  pub books : Books
  pub sources : Dict (Text × Text) Text
  pub slept : ℕ

abbrev least_ms : ℕ → ℕ → ℕ
least_ms a b = if leb a b then a else b

abbrev pub new_poller : ℕ → Poller
new_poller interval = record { backoff = interval; disabled = 0; failures = 0 }

abbrev pub use_ws : Bool → Poller → Bool
use_ws eligible p = eligible && p.disabled == 0

-- A failed round pauses, and doubles the next pause up to five seconds.
abbrev pub backed_off : Poller → Polling → Polling
backed_off p x = record x {
  poller = record p { backoff = least_ms 5_000 (p.backoff * 2) };
  slept = least_ms 5_000 p.backoff;
}

-- After three failures in a row the websocket rests for thirty polls.
abbrev pub count_failure : Poller → Poller
count_failure p =
    if leb 3 (p.failures + 1)
    then record p { disabled = 30; failures = 0 }
    else record p { failures = p.failures + 1 }

module _ (interval : ℕ) (exchange symbol : Text) where
  abbrev got : Text → OrderBookSnapshot → ℕ → Poller → ℕ → Polling → Polling
  got source snap now p pause x = record {
    poller = record p { backoff = interval };
    books = Books.update snap now x.books;
    sources = insert (exchange, symbol) source x.sources;
    slept = pause;
  }

  -- Whether the websocket was used comes first.
  abbrev pub on_answer : Bool → Reply → ℕ → Polling → Polling
  on_answer true (snapped snap) now x =
      got (text "ws") snap now (record x.poller { failures = 0 }) 0 x
  on_answer false (snapped snap) now x =
      got (text "rest") snap now (record x.poller { disabled = x.poller.disabled - 1 }) interval x
  on_answer _ not_implemented now x = record x {
    poller = record x.poller { disabled = 1_000_000_000 };
    slept = 0;
  }
  on_answer true transient now x = backed_off (count_failure x.poller) x
  on_answer false transient now x = backed_off x.poller x
  on_answer true failed now x = backed_off (record x.poller { disabled = 30 }) x
  on_answer false failed now x = backed_off x.poller x

  unfoldable pub poll_round : Bool → Reply → ℕ → Polling → Polling
  poll_round eligible r now x = on_answer (use_ws eligible x.poller) r now x

  unfoldable pub poll_rounds : Bool → List (Reply × ℕ) → Polling → Polling
  poll_rounds eligible [] x = x
  poll_rounds eligible ((r, now) ∷ rs) x = poll_rounds eligible rs (poll_round eligible r now x)
