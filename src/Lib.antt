-- ===== src/Lib.antt =====
-- A market-making bot for Polymarket's reward programme: it scans for markets that pay rewards,
-- rests one buy order a side where the book protects it, and when a buy is filled it sells the
-- position, or buys the other outcome and merges the pair back into dollars.
--
-- The parts and how they interact:
-- * engine/laddering.py prices a buy order by the gaps of the book (gap mode), and shares a market's
--   budget between its two sides; Gap. engine/legacy_wall.py and engine/order_sizing.py are the other
--   mode, one level below a thick level; Wall, which takes the budget's step from Gap.
-- * `reconcile_buy_orders` of engine/laddering.py compares the planned orders with those that rest;
--   Reconcile.
-- * engine/scanner.py filters the pool of markets for a wallet's template, by category
--   (engine/categories.py), reward, dates, size and price, and then by the book; Scan.
-- * `WalletWorker.place_orders` of engine/manager.py is the round that places a wallet's orders: it
--   takes what is held (engine/positions.py), the reward range (engine/strategy.py) and the state of
--   the market (engine/resolution.py), prices with Gap or Wall and sends what Reconcile says; Place.
--   Place.World has what a round is given and what it leaves, Place.Market one market's sides, budget
--   and orders, Place.Rounds the market and the round.
-- * `check_buy_orders` of engine/monitor.py handles the new fills, which engine/fills.py selects, each
--   once, also over a restart; Monitor.Filled. `check_resolution` cancels the buys on markets in
--   resolution; Monitor.Guard.
-- * `check_sell_orders` of engine/monitor.py rechecks the orders that rest, against the blacklist, the
--   spread (engine/eligibility.py), the reward (engine/rewards.py), the price and the book; Monitor.
--   Monitor.Judge decides of one order, in the order of the code's checks; Monitor.Recheck fetches and
--   carries out; Monitor.Agree composes it with the placement of Gap.
-- * engine/fills.py reads our fills out of the exchange's trades; Fills. engine/take_profit.py replays
--   them first in first out, to the cost of the position, and plans the exit; Cost and TakeProfit.
-- * `_exit_position`, `check_exit` and `check_low_balance` of engine/monitor.py sell a position, with
--   those plans; Sales. The sale at the market that resolution and low balance share is Sales.Dump.
--   `_exit_position` asks the router of Exit first; what the router sends is kept apart in its state.
-- * engine/protected_exit.py quotes the ways out of a position, by a protected sale or by a purchase of
--   the other outcome and a merge; Quote.
-- * engine/merge_accounting.py, engine/merge.py and engine/pnl.py book what merges, sales, rewards and
--   rebates have earned; Ledger, which uses the lots of Cost and the trades of Fills.
-- * the table merge_events of models/database.py and the handling of its rows in
--   engine/exit_router.py; Merges. The pair route and the FOK route reserve a row before anything is
--   sent; each tick then reconciles the active rows. Merges.Store is the table, Merges.State the state
--   of the router and the answers of the world, Merges.Router has one function for each method that
--   handles an open row, Merges.Routes has the two routes that create one, and Merges.Steps has the
--   steps of the router on the table as a relation, each in a world of its own, in any order.
-- * the rest of engine/exit_router.py is the tick: it brings its own resting sales in line, reconciles
--   the rows, and routes each position, by a pair, by a comparison of a protected sale with a merge, or
--   by a resting sale that waits for a deadline; Exit. Exit.Compare has the comparison, Exit.Defs the
--   routes of a position, Exit.Tick the tick and a sequence of ticks; Exit.Refines shows a tick to be
--   steps of Merges.Steps.
-- * engine/tiers.py checks and looks up the configured order sizes; Tiers. engine/liquidation.py orders
--   the positions that are sold when the balance is low; Liquidation.
-- * Base has what the parts share: library names, Boolean tests, lists, stable sorting, exact
--   fractions, signed amounts and texts. Tests has concrete runs.
--
-- How the code is read: a function keeps its name, without a leading underscore. Money, prices and
-- shares are natural numbers of millionths, so `x > 1e-9` on shares is `0 < x`; settings in cents are
-- millionths of a dollar too, a reward spread counts hundredths of a cent, and a product of a price and
-- a size counts millionths of a millionth. The quotients of floats are exact fractions: rounding of
-- binary floats is not modelled. A bound that the code subtracts is moved to the other side of its
-- comparison. Texts are lists of code points; a reason text is a constructor. A field that a dictionary
-- lacks is `none`. Prices and sizes are never negative. A loop is a recursion on its list, so there is
-- no fuel. A loop body's early exits are the branches of one conditional. `sorted` is a stable
-- insertion sort.
--
-- What the exchange, the relayer, the database, the balances and the clocks answer comes from records
-- of functions: `Answers` in Merges and Exit, one for each step; `Exchange` in Place, `Sources` in
-- Monitor, `Desk` and `LowSources` in Sales, one for each round. An exception is `none` or `false`.
-- What is sent is kept in order: orders, cancellations and merge transactions. A route reads the clock
-- once. The adapter approval, error texts, the log of actions and the wording of the status rows are
-- left out, and so are the caches that only keep what was read earlier in the same tick. The identity of
-- a new row is one more than the greatest so far, as rows are never deleted. In Merges and Exit no read
-- or write of the database raises: a write that fails after an order was sent, which the code catches in
-- `route_position` and in the loop over the rows, is not modelled. In Sales the record of a trade may
-- raise. Lots that the code shortens in place are returned as a new list, and the list
-- of the caller stays as it was.
--
-- Not modelled: the network client (api), the web interface (web), the threads and the start of scans
-- (engine/manager.py), the discovery of the pool and the parsing of dates (engine/scanner.py), the rest
-- of the database, transaction encoding, and every function that only formats a text.
pub mod Base
pub mod Cost
pub mod Fills
pub mod TakeProfit
pub mod Gap
pub mod Reconcile
pub mod Wall
pub mod Quote
pub mod Ledger
pub mod Merges
pub mod Tests
pub mod Exit
pub mod Liquidation
pub mod Monitor
pub mod Place
pub mod Sales
pub mod Scan
pub mod Tiers
