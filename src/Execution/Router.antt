-- ===== src/Execution/Router.antt =====
-- app/execution/order_router.py. What the environment supplies to the n-th submission is a parameter:
-- ids, time and dice, and the books that the paper engine reads after its simulated latency. A live
-- order goes to the adapter, code of an exchange library; `none` is an exception.
pub mod Laws
use arb_system.Base.{ℕ, suc, Text, text, Option, none, some, ◌++◌, pos}
use arb_system.Models.{Mode, OrderStatus, OrderIntent, UnifiedOrderState}
use arb_system.MarketData.Books.{Books}
use arb_system.Accounts.Balances.{Balances}
use arb_system.Execution.PaperFill.{PaperEngine, Draw, simulate}

pub record World (L : Type 0) : Type 0 where
  pub balances : Option Balances
  pub venue : L
  pub calls : ℕ

abbrev pub dry_order : Draw → OrderIntent → UnifiedOrderState
dry_order d intent = record {
  internal_order_id = d.order_id;
  hedge_group_id = intent.hedge_group_id;
  exchange = intent.exchange;
  symbol = intent.symbol;
  side = intent.side;
  price = intent.price;
  amount = intent.amount;
  filled = intent.amount;
  remaining = pos 0;
  avg_fill_price = intent.price;
  status = OrderStatus.filled;
  created_at = d.time;
  updated_at = d.time;
  exchange_order_id = some (text "dry-" ++ d.exchange_id);
  client_order_id = intent.client_order_id;
  fee_amount = none;
  fee_asset = none;
  is_repair = intent.is_repair;
}

module _ {L : Type 0} (engine : PaperEngine) (draw : ℕ → Draw) (books : ℕ → Books)
    (create_order : OrderIntent → L → Option UnifiedOrderState × L) where
  unfoldable pub submit : Mode → OrderIntent → World L → Option UnifiedOrderState × World L
  submit Mode.dry_run intent w =
      (some (dry_order (draw w.calls) intent), record w { calls = suc w.calls })
  submit Mode.paper_trade intent w =
      let (o, b) = simulate engine (books w.calls) (draw w.calls) intent w.balances in
      (o, record w { balances = b; calls = suc w.calls })
  submit Mode.live intent w =
      let (o, v) = create_order intent w.venue in (o, record w { venue = v; calls = suc w.calls })
