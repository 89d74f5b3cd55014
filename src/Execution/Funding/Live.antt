-- ===== src/Execution/Funding/Live.antt =====
-- `_execute_live` and `execute` of app/execution/funding_executor.py. The two adapters are arguments;
-- the orders that the code sends at once are sent one after the other, the spot order first.
use arb_system.Base.{
  Bool, true, false, not, ◌&&◌, text, Option, none, some, ◌++◌, take, Decimal, pos, whole, ◌-ℤ◌,
  abs_ℤ, mul_dec, div_dec, ltb_ℤ, leb_ℤ, eqb_ℤ, if◌then◌else◌, append_bounded,
}
use arb_system.Models.{OrderType, OrderStatus, OrderIntent, UnifiedOrderState, opposite}
use arb_system.MarketData.Books
use arb_system.Strategy.Funding.{FundingRateOpportunity, spot_of}
use arb_system.Execution.Submission.{Submit}
use arb_system.Execution.Funding.{
  FundingSettings, FundingMode, FundingOutcome, FundingReason, FundingHedge, FundingMoment,
  FundingDesk, ring_max, hedge_of, classify, spot_side, spot_price, amount_at, spot_intent,
  perp_intent,
}

-- The adapters of a call: whether the lookups are set, whether they find an adapter for the exchange
-- and the perpetual one has its keys, and the orders of the two.
pub record Adapters (V : Type 0) : Type 0 where
  pub configured : Bool
  pub spot_there : Bool
  pub perp_ready : Bool
  pub create_spot : Submit V
  pub create_perp : Submit V

abbrev pub may_survive : OrderStatus → Bool
may_survive OrderStatus.filled = true
may_survive OrderStatus.partially_filled = true
may_survive _ = false

abbrev pub survives : UnifiedOrderState → Bool
survives o = may_survive o.status && ltb_ℤ (pos 0) o.filled

abbrev pub reverse_intent : FundingMoment → OrderIntent → UnifiedOrderState → OrderIntent
reverse_intent m intent state = record {
  hedge_group_id = m.hedge_id;
  exchange = intent.exchange;
  symbol = intent.symbol;
  side = opposite intent.side;
  order_type = OrderType.ioc_limit;
  amount = state.filled;
  price = state.avg_fill_price;
  client_order_id = some (text "fund-rv-" ++ take 8 m.hedge_id);
  is_repair = true;
}

abbrev pub basis_bps : Decimal → Decimal → Decimal
basis_bps mark price = mul_dec (div_dec (abs_ℤ (mark -ℤ price)) price) (whole 10000)

-- The basis, where it is too wide.
unfoldable pub too_wide : FundingSettings → Option Decimal → Decimal → Bool
too_wide s none price = false
too_wide s (some mark) price =
    not (eqb_ℤ mark (pos 0))
    && ltb_ℤ (pos 0) price
    && ltb_ℤ s.funding_max_basis_bps (basis_bps mark price)

abbrev basis_of : Option Decimal → Decimal → Decimal
basis_of none price = pos 0
basis_of (some mark) price = basis_bps mark price

-- How two orders ended, and the venue.
pub record Result (V : Type 0) : Type 0 where
  pub outcome : FundingOutcome
  pub reason : Option FundingReason
  pub venue : V

module _ {V : Type 0} (a : Adapters V) (s : FundingSettings) (m : FundingMoment)
    (o : FundingRateOpportunity) where
  unfoldable pub add_hedge : FundingHedge → FundingDesk V → FundingHedge × FundingDesk V
  add_hedge h d = (h, record d { ring = append_bounded ring_max h d.ring })

  abbrev pub refuse : FundingReason → FundingDesk V → FundingHedge × FundingDesk V
  refuse why d =
      add_hedge (hedge_of m o FundingMode.live none none FundingOutcome.failed (some why)) d

  abbrev pub reversed : Option UnifiedOrderState × V → Result V
  reversed (none, v) = record {
    outcome = FundingOutcome.failed;
    reason = some FundingReason.repair_failed;
    venue = v;
  }
  reversed (some _, v) = record { outcome = FundingOutcome.repaired; reason = none; venue = v }

  -- One order was answered and the other raised.
  unfoldable pub reverse_survivor : Submit V → OrderIntent → UnifiedOrderState → V → Result V
  reverse_survivor create intent state v =
      if survives state then reversed (create (reverse_intent m intent state) v) else record {
        outcome = FundingOutcome.failed;
        reason = some FundingReason.order_errors;
        venue = v;
      }

  abbrev pub judged : FundingOutcome × Option FundingReason → V → Result V
  judged (outcome, reason) v = record { outcome = outcome; reason = reason; venue = v }

  unfoldable pub judge :
      Decimal → Decimal → Option UnifiedOrderState → Option UnifiedOrderState → V → Result V
  judge price amount (some spot) (some perp) v = judged (classify spot perp) v
  judge price amount (some spot) none v =
      reverse_survivor a.create_spot (spot_intent m o price amount) spot v
  judge price amount none (some perp) v =
      reverse_survivor a.create_perp (perp_intent m o price amount) perp v
  judge price amount none none v = record {
    outcome = FundingOutcome.failed;
    reason = some FundingReason.order_errors;
    venue = v;
  }

  unfoldable pub open_hedge : Decimal → Decimal → FundingDesk V → FundingHedge × FundingDesk V
  open_hedge price amount d =
      let (spot, v) = a.create_spot (spot_intent m o price amount) d.venue in
      let (perp, v') = a.create_perp (perp_intent m o price amount) v in
      let r = judge price amount spot perp v' in
      add_hedge (hedge_of m o FundingMode.live spot perp r.outcome r.reason)
        (record d { venue = r.venue })

  abbrev pub with_price : Option Decimal → FundingDesk V → FundingHedge × FundingDesk V
  with_price none d = refuse FundingReason.spot_book_missing d
  with_price (some price) d =
      if leb_ℤ (amount_at s price) (pos 0)
      then refuse FundingReason.zero_amount d
      else if too_wide s o.perp_mark_price price
      then refuse (FundingReason.basis_too_wide (basis_of o.perp_mark_price price)) d
      else open_hedge price (amount_at s price) d

  unfoldable pub execute_live : FundingDesk V → FundingHedge × FundingDesk V
  execute_live d =
      if not a.configured
      then refuse FundingReason.executor_not_configured d
      else if not a.spot_there
      then refuse FundingReason.spot_adapter_missing d
      else if not a.perp_ready
      then refuse FundingReason.perp_adapter_missing d
      else with_price (spot_price (spot_side o) (Books.get d.books o.exchange (spot_of o.symbol))) d
