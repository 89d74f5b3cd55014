-- ===== src/Execution/Submission.antt =====
-- The interface between the order router and its callers, app/execution/repair_engine.py and
-- app/execution/hedge_coordinator.py: a submission may fail, and changes the world beyond.
use arb_system.Base.{◌≡◌, pos, ◌≤ℤ◌, ◌<ℤ◌, Option, some}
use arb_system.Models.{OrderIntent, UnifiedOrderState}

abbrev pub Submit : Type 0 → Type 0
Submit W = OrderIntent → W → Option UnifiedOrderState × W

-- A reply names the pair, the side and the amount of its order.
abbrev pub IsEcho : {W : Type 0} → Submit W → Type 0
IsEcho {W} submit =
    (intent : OrderIntent) (w : W) (o : UnifiedOrderState)
    → (submit intent w).0 ≡ some o
    → (o.symbol ≡ intent.symbol) × (o.side ≡ intent.side) × (o.amount ≡ intent.amount)

-- An order for a positive amount comes back filled between nothing and that amount.
abbrev pub IsFair : {W : Type 0} → Submit W → Type 0
IsFair {W} submit =
    (intent : OrderIntent) (w : W) (o : UnifiedOrderState)
    → pos 0 <ℤ intent.amount
    → (submit intent w).0 ≡ some o
    → (pos 0 ≤ℤ o.filled) × (o.filled ≤ℤ intent.amount)
