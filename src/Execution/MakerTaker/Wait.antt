-- ===== src/Execution/MakerTaker/Wait.antt =====
-- `_wait_for_maker_fill` of app/execution/maker_taker_executor.py. What each round of the loop reads,
-- the time since the start and the book, is an argument; `none` is a loop that is still waiting after
-- the rounds it was given.
use arb_system.Base.{
  or_nonzero, ℕ, zero, suc, Bool, false, ◌&&◌, Option, none, some, List, [], ◌∷◌, Decimal, pos,
  whole, ◌+ℤ◌, ◌-ℤ◌, abs_ℤ, mul_dec, div_dec, ltb_ℤ, leb_ℤ, leb, if◌then◌else◌,
}
use arb_system.Models.{OrderBookLevel, OrderBookSnapshot, best_ask, best_bid, mid_price}
use arb_system.Execution.MakerTaker.{MakerSettings, FillState}

pub record Poll : Type 0 where
  pub elapsed_ms : ℕ
  pub book : Option OrderBookSnapshot

pub record Waited : Type 0 where
  pub filled : Decimal
  pub state : FillState

-- The walk along the asks ends with the whole amount or with what the levels offer.
pub data Crossed : Type 0 where
  whole_amount : Crossed
  only : Decimal → Crossed

module _ (maker_price amount : Decimal) where
  unfoldable pub cross_asks : List OrderBookLevel → Decimal → Crossed
  cross_asks [] fillable = only fillable
  cross_asks (l ∷ ls) fillable =
      let rest = cross_asks ls (fillable +ℤ l.size) in
      if ltb_ℤ maker_price l.price
      then only fillable
      else if leb_ℤ amount (fillable +ℤ l.size)
      then whole_amount
      else rest

  abbrev pub crossed : Crossed → Option Waited → Option Waited
  crossed whole_amount rest = some record { filled = amount; state = FillState.full }
  crossed (only fillable) rest =
      if ltb_ℤ (pos 0) fillable
      then some record { filled = fillable; state = FillState.partial }
      else rest

  -- Whether the best ask has dropped to the maker's price.
  abbrev pub touches : Option Decimal → Bool
  touches none = false
  touches (some ask) = leb_ℤ ask maker_price

abbrev pub current_mid : OrderBookSnapshot → Decimal
current_mid book = or_nonzero (mid_price book) (or_nonzero (best_bid book) (pos 0))

unfoldable pub drifted : MakerSettings → Decimal → OrderBookSnapshot → Bool
drifted s mid_at_post book =
    let mid = current_mid book in
    ltb_ℤ (pos 0) mid_at_post
    && ltb_ℤ (pos 0) mid
    && ltb_ℤ s.max_price_deviation_bps
        (mul_dec (div_dec (abs_ℤ (mid -ℤ mid_at_post)) mid_at_post) (whole 10000))

abbrev pub gave_up : FillState → Option Waited
gave_up state = some record { filled = pos 0; state = state }

module _ (s : MakerSettings) (maker_price amount mid_at_post : Decimal) where
  abbrev pub on_book : Option OrderBookSnapshot → Option Waited → Option Waited
  on_book none rest = rest
  on_book (some book) rest =
      if drifted s mid_at_post book
      then gave_up FillState.price_drift
      else if touches maker_price amount (best_ask book)
      then crossed maker_price amount (cross_asks maker_price amount book.asks (pos 0)) rest
      else rest

  -- At most `fuel` rounds, from the `k`-th one on.
  unfoldable pub wait : (ℕ → Poll) → ℕ → ℕ → Option Waited
  wait polls zero k = none
  wait polls (suc fuel) k =
      let rest = wait polls fuel (suc k) in
      if leb s.max_wait_ms (polls k).elapsed_ms
      then gave_up FillState.timeout
      else on_book (polls k).book rest
