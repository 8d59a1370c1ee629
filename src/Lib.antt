-- ===== src/Lib.antt =====
-- The Polymarket BTC 15-minute backtester: the accounts, the order book and the execution models of
-- src/polymarket_bt, with what makes them correct.
--
-- The program replays a recorded feed. Snapshots and changes rebuild an order book for each token;
-- a strategy sends orders; an execution model fills them against the book, charging a fee; and an
-- account of cash and positions is settled when a market resolves. A parent order can be worked in
-- children by a policy that sees the present alone.
--
-- Which file is about which part of the program:
--   Wallet (Release, Invariant, Cash): src/polymarket_bt/backtest/wallet.py. `ReplayWallet` is a record and
--     each method a function of the same name.
--   Portfolio (Identity, Solvency, Inventory, Payable): src/polymarket_bt/backtest/portfolio.py,
--     `apply_fill`, `settle_market`, `mark_to_market` and `equity_scaled`.
--   Models: the records of src/polymarket_bt/models/orders.py.
--   SortedDict: the interface of the package sortedcontainers, with an implementation by a list.
--   OrderBook (Defs, Replace, Apply; Levels, Invariant, Behaviour, Depth): src/polymarket_bt/orderbook/state.py,
--     validator.py and metrics.py beside it, and the records of src/polymarket_bt/models/books.py.
--   Fees: src/polymarket_bt/backtest/fees.py and `notional_scaled`.
--   Execution (Plan, Settle): `TakerExecutionSimulator.execute` of src/polymarket_bt/backtest/execution.py,
--     which reads the book, checks the portfolio, and fills.
--   Realism (Sweep, Reasons): `TakerExecutor.execute` of src/polymarket_bt/backtest/realism.py.
--   OptimalExecution (State, Policy, Bounds, Cursor, Span, Objective, Session, Consistent, Account,
--     Handoff): src/polymarket_bt/backtest/optimal_execution.py; its session records the outcomes of
--     Realism.
--   Maker: `MakerQueueState` of src/polymarket_bt/backtest/maker.py. Replay: `ReplayIntegrity` of
--     src/polymarket_bt/replay/integrity.py. Health: the state that `HealthMonitor.snapshot` of
--     src/polymarket_bt/monitoring/health.py computes.
--   Reconstructor (Invariant, Intervals): `BookReconstructor` of src/polymarket_bt/orderbook/reconstructor.py,
--     a book of OrderBook for each token.
--   Timeline (Order): `ReplayEvent` and `EventClock` of src/polymarket_bt/replay/event_clock.py and
--     `merge_events` of src/polymarket_bt/replay/merger.py.
--   Engine (Run, Summary; Steps, Trace, Turn, Pending, Orders, Account, Ledger, Failures, Books,
--     Figures): `BacktestEngine` of
--     src/polymarket_bt/backtest/engine.py, which joins Timeline, Replay, Reconstructor, Execution and
--     Portfolio: `_schedule` is `schedule`, `_execute_pending` is `execute_pending`, `_apply_event` is
--     `apply_event`, and the loops of `run` are `handle_groups` and `drain`. Steps has the same run as a
--     relation between states, by which the invariants go, Trace as the events it takes and the
--     orders it answers, and Turn what one event does. Metrics: src/polymarket_bt/backtest/metrics.py.
--   FastSim (Send; Afford, Spend, Impact): how `ThresholdHoldSimulator` of
--     src/polymarket_bt/backtest/fastsim.py sends one order to the executor of Realism.
--   Episodes (Causal, Eligible): how `EpisodeIndexBuilder.build` of src/polymarket_bt/backtest/episodes.py
--     decides a market's winner, the time at which it is known, and whether the market is eligible.
--   Clock: the conversions of src/polymarket_bt/clock.py between decimals and scaled integers, and how it
--     reads a timestamp.
--   Sorting: Python's `sorted`, and the order of tuples.
--   Base, Dict: shared names, lists, integers, results and mappings. Examples: concrete runs.
--
-- How the program is modelled. Scaled amounts are natural numbers where the code keeps them from
-- going below zero, and integers where it does not (the portfolio's cash and results, the prices of
-- a feed before they are validated); Python's integers have no bound, so nothing wraps around. A
-- decimal is an exact fraction, rounded where the code calls `quantize`, and in Clock to the 28
-- digits of the default context; elsewhere the sizes of the program stay within them. Identifiers,
-- tokens and outcomes are numbers, of which the code only asks whether they are equal. A method
-- that mutates its object returns the object too, and one that raises returns what it had written
-- before; the text of an error is left out. A heap is its entries in heap order and a dictionary
-- its entries in order of insertion. A loop is a recursion on the list that it reads, but for three
-- on fuel: `drain` has a round for each pending order, and each round takes one at least; the
-- binary search for an affordable quantity has its upper bound, and its interval loses a share in
-- each round; and the digits of a decimal that are too many are counted with the number itself as
-- fuel, of which each takes a tenth. A run of the engine that raises returns the error alone.
--
-- A package that is not in the repository is a parameter: the book is over any `SortedDict`, with
-- the laws that sortedcontainers documents, a session is over any policy, and the engine is over
-- any strategy and any draws of the random generator. What is left out is input and output: the
-- collector (ingestion, normalization, discovery, storage), the column stores of tapes, the queries
-- of episodes and the sweeps, the dashboard, the command line and the web page, and the random
-- numbers, which are parameters; and of the episode simulator the loop over an episode, with its
-- sequential entry and its exits.
pub mod Base
pub mod Wallet
pub mod Dict
pub mod Models
pub mod Portfolio
pub mod Sorting
pub mod SortedDict
pub mod OrderBook
pub mod Reconstructor
pub mod Timeline
pub mod Fees
pub mod Execution
pub mod OptimalExecution
pub mod Realism
pub mod Maker
pub mod Health
pub mod Replay
pub mod FastSim
pub mod Metrics
pub mod Clock
pub mod Episodes
pub mod Engine
pub mod Examples
