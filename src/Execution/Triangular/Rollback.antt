-- ===== src/Execution/Triangular/Rollback.antt =====
-- `_rollback_async` and `_rollback` of app/execution/triangular_executor.py.
use arb_system.Base.{ℕ, suc, true, Text, text, Option, none, some, List, [], ◌∷◌, ◌++◌, take}
use mathlib.Core.List.{reverse}
use arb_system.Models.{OrderType, OrderIntent, UnifiedOrderState, opposite}
use arb_system.Execution.Submission.{Submit}
use arb_system.Execution.Triangular.{LegResult, LegReason, to_leg, unfilled_leg, digit}

abbrev pub reverse_intent : Text → Text → ℕ → UnifiedOrderState → OrderIntent
reverse_intent exec_id exchange i o = record {
  hedge_group_id = exec_id;
  exchange = exchange;
  symbol = o.symbol;
  side = opposite o.side;
  order_type = OrderType.ioc_limit;
  amount = o.filled;
  price = o.avg_fill_price;
  client_order_id = some (text "tri-rb-" ++ (take 8 exec_id ++ (text "-L" ++ digit i)));
  is_repair = true;
}

-- A submission that raises is recorded and the loop goes on.
abbrev pub rollback_leg : ℕ → UnifiedOrderState → Option UnifiedOrderState → LegResult
rollback_leg i o none = unfilled_leg i o.symbol (opposite o.side) o.filled LegReason.rollback_error
rollback_leg i o (some reply) = to_leg i reply

module _ {W : Type 0} (submit : Submit W) (exec_id exchange : Text) where
  unfoldable pub reverse_legs : ℕ → List UnifiedOrderState → W → List LegResult × W
  reverse_legs i [] w = ([], w)
  reverse_legs i (o ∷ os) w =
      let (reply, w1) = submit (reverse_intent exec_id exchange i o) w in
      let (legs, w2) = reverse_legs (suc i) os w1 in (rollback_leg i o reply ∷ legs, w2)

  unfoldable pub rollback_async : List UnifiedOrderState → W → List LegResult × W
  rollback_async fills w = reverse_legs 1 (reverse fills) w

  abbrev next_leg :
      ℕ → UnifiedOrderState → Option (List LegResult) × W → Option (List LegResult) × W
  next_leg i reply (none, w) = (none, w)
  next_leg i reply (some legs, w) = (some (to_leg i reply ∷ legs), w)

  abbrev then_rest :
      ℕ
      → (W → Option (List LegResult) × W)
      → Option UnifiedOrderState × W
      → Option (List LegResult) × W
  then_rest i rest (none, w) = (none, w)
  then_rest i rest (some reply, w) = next_leg i reply (rest w)

  -- The paper engine's exceptions are not caught.
  unfoldable pub reverse_legs_sync : ℕ → List UnifiedOrderState → W → Option (List LegResult) × W
  reverse_legs_sync i [] w = (some [], w)
  reverse_legs_sync i (o ∷ os) w =
      then_rest i (reverse_legs_sync (suc i) os) (submit (reverse_intent exec_id exchange i o) w)

  unfoldable pub rollback : List UnifiedOrderState → W → Option (List LegResult) × W
  rollback fills w = reverse_legs_sync 1 (reverse fills) w
