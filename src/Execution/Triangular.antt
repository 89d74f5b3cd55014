-- ===== src/Execution/Triangular.antt =====
-- app/execution/triangular_executor.py. Ids and times are arguments; `none` is an exception that leaves
-- the executor. The ring of reports is part of the state.
pub mod Rollback
pub mod Run
pub mod RunSync
pub mod Plan
pub mod Walks
pub mod Chains
pub mod Full
pub mod Agreement
use arb_system.Base.{
  ℕ, ◌+◌, ◌==◌, Bool, true, false, ◌&&◌, Text, text, text_eq, split_arrow, Option, none, some, List,
  [], ◌∷◌, ◌++◌, take, length, Decimal, pos, ◌-ℤ◌, neg_ℤ, mul_dec, div_dec, if◌then◌else◌,
  or_default, append_bounded,
}
use mathlib.Core.List.{reverse}
use arb_system.Models.{Side, OrderType, OrderStatus, OrderIntent, UnifiedOrderState}
use arb_system.Strategy.Triangular.{TriangularOpportunity}

pub data LegReason : Type 0 where
  zero_intent_amount rollback_error : LegReason

pub record LegResult : Type 0 where
  pub leg_index : ℕ
  pub pair : Text
  pub side : Side
  pub intent_amount : Decimal
  pub filled : Decimal
  pub avg_price : Option Decimal
  pub status : OrderStatus
  pub reason : Option LegReason

pub data TriangularOutcome : Type 0 where
  completed rolled_back aborted : TriangularOutcome

pub record ExecutionReport : Type 0 where
  pub execution_id : Text
  pub opportunity_id : Text
  pub exchange : Text
  pub direction : Text
  pub mode : Text
  pub probe_quote : Decimal
  pub legs : List LegResult
  pub was_rolled_back : Bool
  pub rollback_legs : List LegResult
  pub outcome : TriangularOutcome
  pub realized_pnl_quote : Decimal
  -- The place and the status of the leg that failed.
  pub reason : Option (ℕ × OrderStatus)
  pub started_at : ℕ
  pub finished_at : ℕ

-- `_RING_MAX`
abbrev pub ring_max : ℕ
ring_max = 100

unfoldable pub recent_executions : ℕ → List ExecutionReport → List ExecutionReport
recent_executions limit ring = take limit (reverse ring)

-- One step of a plan; the price sizes the order.
pub record Leg : Type 0 where
  pub pair : Text
  pub side : Side
  pub price : Decimal

abbrev leg : Text → Side → Decimal → Leg
leg pair side price = record { pair = pair; side = side; price = price }

-- `parts[:2] == list(opp.triangle[:2])`
abbrev starts_with : Text → Text → List Text → Bool
starts_with a b (x ∷ y ∷ _) = text_eq x a && text_eq y b
starts_with a b _ = false

-- A text holds one arrow less than it has parts.
unfoldable pub plan : TriangularOpportunity → List Leg
plan o =
    let parts = split_arrow o.direction in
    if length parts == 4
    then if starts_with o.triangle.a o.triangle.b parts
      then leg o.pair_ba Side.buy o.price_leg1
        ∷ leg o.pair_cb Side.buy o.price_leg2
        ∷ leg o.pair_ca Side.sell o.price_leg3
        ∷ []
      else leg o.pair_ca Side.buy o.price_leg1
        ∷ leg o.pair_cb Side.sell o.price_leg2
        ∷ leg o.pair_ba Side.sell o.price_leg3
        ∷ []
    else []

-- The digit of a place; there are three legs at most.
abbrev pub digit : ℕ → Text
digit i = (48 + i) ∷ []

abbrev pub leg_intent : Text → Text → ℕ → Leg → Decimal → OrderIntent
leg_intent exec_id exchange i l amount = record {
  hedge_group_id = exec_id;
  exchange = exchange;
  symbol = l.pair;
  side = l.side;
  order_type = OrderType.ioc_limit;
  amount = amount;
  price = some l.price;
  client_order_id = some (text "tri-" ++ (take 8 exec_id ++ (text "-L" ++ digit i)));
  is_repair = false;
}

unfoldable pub to_leg : ℕ → UnifiedOrderState → LegResult
to_leg i o = record {
  leg_index = i;
  pair = o.symbol;
  side = o.side;
  intent_amount = o.amount;
  filled = o.filled;
  avg_price = o.avg_fill_price;
  status = o.status;
  reason = none;
}

abbrev pub unfilled_leg : ℕ → Text → Side → Decimal → LegReason → LegResult
unfilled_leg i pair side amount reason = record {
  leg_index = i;
  pair = pair;
  side = side;
  intent_amount = amount;
  filled = pos 0;
  avg_price = none;
  status = OrderStatus.rejected;
  reason = some reason;
}

-- What a filled leg brings, which the next one spends.
abbrev pub brought : Side → UnifiedOrderState → Decimal
brought Side.buy o = o.filled
brought Side.sell o = mul_dec o.filled (or_default o.avg_fill_price (pos 0))

abbrev pub last_leg : List LegResult → Option LegResult
last_leg [] = none
last_leg (l ∷ []) = some l
last_leg (_ ∷ l ∷ ls) = last_leg (l ∷ ls)

-- `Decimal("0.001")`
abbrev pub per_mille : Decimal
per_mille = pos 10_000_000_000_000_000_000_000_000

abbrev proceeds : Side → Decimal → Option Decimal → Decimal → Decimal
proceeds Side.sell filled (some price) probe = mul_dec filled price -ℤ probe
proceeds Side.sell filled none probe = mul_dec (neg_ℤ probe) per_mille
proceeds Side.buy filled price probe = mul_dec (neg_ℤ probe) per_mille

abbrev net_of : Option LegResult → Decimal → Decimal
net_of none probe = pos 0
net_of (some l) probe = proceeds l.side l.filled l.avg_price probe

unfoldable pub net_quote : List LegResult → Decimal → Decimal
net_quote rollback_legs probe = net_of (last_leg rollback_legs) probe

-- The clock and the new id of a call.
pub record Stamp : Type 0 where
  pub exec_id : Text
  pub mode : Text
  pub started : ℕ
  pub finished : ℕ

abbrev pub completed_report :
    Stamp → TriangularOpportunity → Decimal → List LegResult → Decimal → ExecutionReport
completed_report st o probe legs running = record {
  execution_id = st.exec_id;
  opportunity_id = o.opportunity_id;
  exchange = o.exchange;
  direction = o.direction;
  mode = st.mode;
  probe_quote = probe;
  legs = legs;
  was_rolled_back = false;
  rollback_legs = [];
  outcome = TriangularOutcome.completed;
  realized_pnl_quote = running -ℤ probe;
  reason = none;
  started_at = st.started;
  finished_at = st.finished;
}

abbrev non_empty_legs : List LegResult → Bool
non_empty_legs [] = false
non_empty_legs (_ ∷ _) = true

abbrev pub failed_report :
    Stamp
    → TriangularOpportunity
    → Decimal
    → List LegResult
    → List LegResult
    → ℕ
    → OrderStatus
    → ExecutionReport
failed_report st o probe legs back i status = record {
  execution_id = st.exec_id;
  opportunity_id = o.opportunity_id;
  exchange = o.exchange;
  direction = o.direction;
  mode = st.mode;
  probe_quote = probe;
  legs = legs;
  was_rolled_back = non_empty_legs back;
  rollback_legs = back;
  outcome =
      if non_empty_legs back then TriangularOutcome.rolled_back else TriangularOutcome.aborted;
  realized_pnl_quote = net_quote back probe;
  reason = some (i, status);
  started_at = st.started;
  finished_at = st.finished;
}

pub record Executor (W : Type 0) : Type 0 where
  pub ring : List ExecutionReport
  pub world : W

-- `_RING.append(report)`, then the return of the report.
abbrev pub reported :
    {W : Type 0} → ExecutionReport → List ExecutionReport → W → Option ExecutionReport × Executor W
reported r ring w = (some r, record { ring = append_bounded ring_max r ring; world = w })
