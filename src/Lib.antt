-- ===== src/Lib.antt =====
-- A verification library for the cross-exchange arbitrage system of this repository (app/).
--
-- The system polls the order books of several exchanges, looks for a symbol that can be bought at one
-- exchange and sold at another for more, lets a risk engine size the trade, and executes both legs as
-- a hedge, in dry-run, paper or live mode. The parts modelled here, from the data up:
--
--   Base: numbers, decimals, texts and dictionaries that the parts share.
--   Models: the records and enumerations of app/models and app/common/enums.py.
--   StateMachine: the transition tables of app/execution/state_machine.py; Reach follows paths in them.
--   Settings: the settings that the parts read and the list of enabled symbols
--   (app/config/settings.py).
--   Accounts.Balances: app/accounts/balance_manager.py.
--   MarketData: the store of the latest books (Books) and the rounds that poll one pair (Polling), both in
--   app/marketdata/orderbook_manager.py.
--   Strategy: the walks along a book, the fees, the estimate of one direction and the scan for
--   opportunities (app/strategy/slippage_model.py, fee_model.py, spread_calculator.py and
--   opportunity_scanner.py); Triangular and Funding are the scanners of app/strategy for triangles of
--   pairs at one exchange and for the funding rates of perpetuals (triangular_scanner.py and
--   funding_rate_scanner.py).
--   Risk: kill switch, circuit breaker, exposure, exchange health and the risk engine (app/risk;
--   Risk.Engine is rules.py). Breaker.Replay describes the breaker by the history of what it was told,
--   Exposure.Claims the exposure by what has been added and not released.
--   Execution: order types and protected prices (Policy), the paper fill engine (PaperFill), the order
--   tracker (Tracker), the router (Router), the repair engine (Repair) and the hedge coordinator
--   (Coordinator), after the files of app/execution with these names. Triangular, MakerTaker and Funding
--   are triangular_executor.py, maker_taker_executor.py and funding_executor.py there: three trades in a
--   row, a maker order with its hedge, and a spot order against a perpetual. Submission is the interface
--   between the router and its callers, which take it as a parameter.
--   Runtime.Persistence: the background writer of app/runtime/persistence.py as a step relation.
--   Runtime.Dispatch: the main loop of app/runtime/app_bootstrap.py, from the scan to the tasks that it
--   creates; Tasks is what such a task does with the executors, the balances and the exposure.
--   Tests: concrete inputs.
--
-- Correspondence. A class is a record of its fields and its methods are functions from the old state to
-- the new one, under the names of the source. An object that the source changes in place and shares is
-- passed along: the coordinator's group stands in `hedges` as it is when the call ends. An exception is
-- `none`, `raised` or `threw`; the last carries the group as it had been changed by then. A function of
-- the source that is one long body is cut into the helpers of a module, composed in its order:
-- `execute` is Coordinator.Gates up to the state SUBMITTING, Coordinator.Execute for the two orders,
-- and Coordinator.Settle for what follows their answers.
--
-- Numbers. A `Decimal` is a whole number of ticks of 10^-28. Sums and comparisons are exact, products
-- and quotients are rounded half to even at 28 places after the point, where the source keeps 28
-- significant digits. No divisor is zero where the source divides, but for the probe of a triangle,
-- where the result is `raised`. A float ratio is a fraction. Times are whole milliseconds, in the
-- breaker and the cooldowns whole microseconds, and a difference that would be negative is zero. Texts are lists of code points; `upper` and `strip` know ASCII only. A
-- setting is always present, so the fall-backs of `getattr` never apply. Recursion is structural on
-- the lists of the source, so no bound on steps is needed, except for the maker's wait: it takes a bound
-- on its rounds, and is shown to end within it once a round comes after the time allowed.
--
-- Parameters. New ids, clock readings, dice, the books at a later moment, the rate that an adapter
-- reports, what a refresh returned, the orders of a live adapter and the cancellation of an order are
-- arguments; so is what a router under a time limit replies. Log lines, metrics and the
-- texts of a risk decision are left out; notes and failure reasons of a group are kept as data.
--
-- Not modelled: the two orders of a hedge, and of a live funding hedge, are submitted one after the
-- other, so the interleaving of several calls in the event loop is not covered; the endless loops
-- around the scans, the wiring and the supervisors, the tasks that poll books, the polling of
-- balances, the clients for funding rates, the runtime configuration, the database, the HTTP
-- interface and the exchange adapters.
pub mod Base
pub mod Models
pub mod Settings
pub mod StateMachine
pub mod Accounts
pub mod MarketData
pub mod Strategy
pub mod Execution
pub mod Risk
pub mod Tests
pub mod Runtime
