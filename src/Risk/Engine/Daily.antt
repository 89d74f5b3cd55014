-- ===== src/Risk/Engine/Daily.antt =====
-- The loss of the day and the cooldowns of app/risk/rules.py.
use arb_system.Base.{
  ℕ, ◌+◌, ◌*◌, ◌≤◌, ◌<◌, ◌≡◌, refl, Text, text_eq, upper, Option, none, some, List, [], ◌∷◌,
  Decimal, pos, ◌+ℤ◌, neg_ℤ, ltb, ltb_ℤ, ◌==◌, if◌then◌else◌, arith, +ℤ_zero, or_default,
  Bool-cases, inl, inr, lookup-insert, text_key,
}
use arb_system.Risk.Engine.{
  RiskEngine, Now, record_realized_pnl, daily_loss_quote, set_cooldown, in_cooldown,
}

-- Finished trades, the newest first: the time and the realized profit.
abbrev pub Trades : Type 0
Trades = List (Now × Option Decimal)

abbrev pub record_all : RiskEngine → Trades → RiskEngine
record_all e [] = e
record_all e ((now, pnl) ∷ ts) = record_realized_pnl now pnl (record_all e ts)

-- What a trade lost.
abbrev pub loss : Option Decimal → Decimal
loss none = pos 0
loss (some pnl) = if ltb_ℤ pnl (pos 0) then neg_ℤ pnl else pos 0

abbrev pub losses_on : ℕ → Trades → Decimal
losses_on d [] = pos 0
losses_on d ((now, pnl) ∷ ts) = if now.day == d then losses_on d ts +ℤ loss pnl else losses_on d ts

-- The days do not run backwards, and none is after `d`.
abbrev pub DaysUpTo : ℕ → Trades → Type 0
DaysUpTo d [] = Unit
DaysUpTo d ((now, pnl) ∷ ts) = (now.day ≤ d) × DaysUpTo now.day ts

DaysUpTo-weaken : (c d : ℕ) (ts : Trades) → c ≤ d → DaysUpTo c ts → DaysUpTo d ts
DaysUpTo-weaken c d [] h u = tt
DaysUpTo-weaken c d ((now, pnl) ∷ ts) h u = (omega arith, u.1)

losses_before : (c d : ℕ) (ts : Trades) → c < d → DaysUpTo c ts → losses_on d ts ≡ pos 0
losses_before c d [] h u = refl
losses_before c d ((now, pnl) ∷ ts) h u = ground (arith, losses_before now.day d ts, u.0, u.1)

-- The loss that the engine reports on a day is the sum of what the trades recorded on that day lost,
-- gains not counted, whatever was recorded on days before.
pub daily_loss-record_all :
    (now : Now) (e : RiskEngine) (ts : Trades)
    → e.daily_day ≡ none
    → DaysUpTo now.day ts
    → daily_loss_quote now (record_all e ts) ≡ losses_on now.day ts
unfolding daily_loss_quote record_realized_pnl
daily_loss-record_all now e [] h d = ground arith
daily_loss-record_all now e ((at, none) ∷ ts) h d =
    let older = DaysUpTo-weaken at.day now.day ts d.0 d.1 in
    ground (arith, +ℤ_zero (losses_on now.day ts), daily_loss-record_all now e ts h older)
daily_loss-record_all now e ((at, some pnl) ∷ ts) h d = ground (
  arith,
  +ℤ_zero (losses_on now.day ts),
  losses_before at.day now.day ts,
  d.0,
  d.1,
  daily_loss-record_all at e ts h d.1,
)

-- After `set_cooldown` the symbol, in any case of letters, is refused until the seconds have
-- passed and no longer; the cooldowns of other symbols stay as they were.
in_cooldown-set_cooldown :
    (now later : Now) (s t : Text) (seconds : Option ℕ) (e : RiskEngine)
    → in_cooldown later t (set_cooldown now s seconds e) ≡ (
        if text_eq (upper s) (upper t)
        then ltb later.us (now.us + or_default seconds e.settings.cooldown_seconds * 1_000_000)
        else in_cooldown later t e)
unfolding in_cooldown set_cooldown
in_cooldown-set_cooldown now later s t seconds e =
    rw lookup-insert
      (elim (Bool-cases (text_eq (upper s) (upper t))) [ inl h ↦ rw h | inr h ↦ rw h ])
