-- ===== src/Lib.antt =====
-- prime-jennie, an automated trading service for Korean stocks: a model of its decision and order
-- logic, and what is proved of it.
--
-- The program is a set of services that talk through Redis. The scout scores stocks and selects a
-- watchlist, the scanner turns ticks into bars and buy signals, the buyer and the seller check and
-- place orders through the gateway of the broker, and the monitor watches the held positions and
-- decides when to sell. The parts that are modelled:
--
-- - Float: the numbers of type `float`. Their carrier is a parameter, with the literals, the
--   conversions, the arithmetic and the comparisons that the code uses; `Float.Order` names what a
--   theorem needs of them (comparisons are total away from NaN, rounded operations keep the order
--   where they give numbers), `Float.Scaling` what the range of a rescaled value needs, and `Float.Fixed`
--   is a carrier of decimals that meets these laws. `int` and `math.ceil` of a float that is not
--   finite raise in Python, and are total here.
-- - Enums, Config: prime_jennie/domain/enums.py and the settings of prime_jennie/domain/config.py.
--   Settings come from the environment, so they are arguments; the scale-out levels are parsed from
--   their text as in the code, and a text that `float` refuses is an outcome of its own.
-- - Exit: prime_jennie/services/monitor/exit_rules.py. Each `check_…` function is a definition of the
--   same name, in `Exit.Stops` and `Exit.Profits`, and `Exit.Evaluate` is the loop over them. A rule is
--   quiet, asks for a sale, or raises.
-- - Services: what the executors call outside the program (Redis, the gateway of the broker, the clock) as
--   one type of calls. The other side is an environment that answers, or raises, as it likes and
--   may look at all earlier calls; a method is an action that returns or raises and extends the history
--   of calls, so that a theorem for every environment covers every interleaving with other services.
--   `Services.Keeps`, `Services.Gives` and `Services.Trace` hold what is shared by the proofs.
-- - Kis: the polling of an order in prime_jennie/infra/kis/client.py.
-- - Seller: prime_jennie/services/seller/executor.py. The methods are in `Seller.Steps`,
--   `Seller.Confirm` and `Seller.Execute`; the long ones are split where the code branches.
-- - Buyer: prime_jennie/services/buyer. `Buyer.Sizing` and `Buyer.Atr` are position_sizing.py,
--   `Buyer.Guard` is portfolio_guard.py, `Buyer.Correlation` is correlation.py, where the correlation of
--   two series, a computation of numpy, is an argument, and `Buyer.Tick`, `Buyer.Steps`, `Buyer.Place` and
--   `Buyer.Execute` are executor.py. The counter of the day is one key, and its text holds the
--   digits that Redis writes.
-- - Bars: prime_jennie/services/scanner/bar_engine.py, on a state per stock.
-- - Scanner: the rest of prime_jennie/services/scanner. `Scanner.Gates` is risk_gates.py, `Scanner.Averages`,
--   `Scanner.Strategies`, `Scanner.Openings` and `Scanner.Detect` are strategies.py, `Scanner.Watch`,
--   `Scanner.Loop` and `Scanner.Tick` are the class `BuyScanner` of app.py as a function of its state, of
--   the tick, and of what it reads of the clock and of Redis, on top of `Bars`. Exceptions (a time in the
--   settings that cannot be read, a division by zero, a stream that refuses) are results.
-- - Backtest: prime_jennie/services/backtest/portfolio.py and models.py. `Backtest.Portfolio`, `Backtest.Trades`
--   and `Backtest.Days` are the class `SimulatedPortfolio`; `Backtest.Steps` are the calls that engine.py makes
--   of it, in any order, and `Backtest.Ledger` is the abstract view: two books that replay the trade logs.
-- - Monitor: prime_jennie/services/monitor. `Monitor.Indicators` is indicators.py; `Monitor.State`,
--   `Monitor.Orders`, `Monitor.Evaluate`, `Monitor.Tick` and `Monitor.Refresh` are the class `PriceMonitor` of app.py:
--   a step takes the state and what it reads from outside, and gives the state, what it asks for, and
--   whether it raised. `Monitor.Runs` are sequences of ticks.
-- - Redis: prime_jennie/infra/redis. `Redis.Streams` is the publisher and the consumer of streams.py, with what
--   Redis answers as arguments; `Redis.Cache` is cache.py. The JSON of the data models is a pair of
--   functions, of which the round trips need that what was written can be read.
-- - Scout: the budget of the sectors (prime_jennie/services/scout/sector_budget.py and
--   prime_jennie/domain/sector.py) in `Scout.Budget`, the selection of the watchlist
--   (prime_jennie/services/scout/selection.py) in `Scout.Select`. The maximal size is a natural number.
--   `Scout.Enriched`, `Scout.Factors`, `Scout.Quant` and `Scout.Score` are the records of enrichment.py, quant.py
--   and the validators of prime_jennie/domain/scoring.py, and `Scout.Analyst` is analyst.py, with the answer of the
--   language model as an argument.
-- - Hours: prime_jennie/infra/market_hours.py, with what the checker of holidays answers at a call, or that
--   it raises, as an argument of the call.
--
-- Every loop of the code is a recursion on its list or on its number of retries, so that no fuel is
-- needed. Not modelled: the loop of the backtest, and everything that is input and output only
-- (gateway, crawlers, language models, database, telegram, reports, jobs).
--
-- Texts for the log and for people (the descriptions of signals) are not modelled. Python's integers
-- are unbounded, so they are naturals or the integers of `Prelude.Int`.
pub mod Prelude
pub mod Float
pub mod Enums
pub mod Config
pub mod Exit
pub mod Services
pub mod Kis
pub mod Seller
pub mod Buyer
pub mod Bars
pub mod Scout
pub mod Hours
pub mod Scanner
pub mod Backtest
pub mod Monitor
pub mod Redis
