-- ===== src/Lib.antt =====
-- The trading backend of NestJS_Mega_Backend, src/subapps/schwab: a desk that streams an option chain,
-- a bot that trades it on a paper and on a live lane, a house trainer, and a ledger of profit and loss.
--
-- The parts, and the files that model them:
--   Pnl.Fifo: src/subapps/schwab/pnl/fifo-matcher.util.ts. `match_fills` is `matchFills`, with
--     `group_fills` for the map by key, `sort_fills` for the sort, `step` for one turn of the loop over
--     the fills and `absorb` for the `while` loop over the open lots.
--   Streaming.Pool: streaming/schwab-streamer-pool.service.ts of the same folder. One function for each
--     method of `SchwabStreamerPool`; `Reach` is a run of the pool.
--   Streaming.Ladder: streaming/ladder-recenter.util.ts, the window of strikes around the spot.
--   Streaming.Session: streaming/schwab-streamer-session.ts, one user's connection. Its fields and requests
--     stand in Streaming/Session.antt, its methods in Pins, Feed and Connection under it, and `run` of
--     Events is a sequence of calls, frames, timers and outcomes of awaited calls. A method that awaits
--     is two functions. Wanted says what requests add up to by the streamer's rules.
--   Streaming.Osi: streaming/osi-symbol.util.ts and index-symbol.util.ts.
--   Bot.Exit: bot/bot-exit.util.ts, the ratchet of the stop and the soft exit.
--   Bot.Strikes: bot/bot-strike-selection.util.ts, the contract that an entry buys; `look_at` is one
--     turn of its loop.
--   Bot.Strategy: bot/bot-strategy.util.ts and bot/strategies, the indicators, the rules on them, and
--     `combine_signals`.
--   Bot.Entry: `evaluateEntrySignal` and `executeEntry` of bot/bot-engine.service.ts, which call the
--     rules of Bot.Strategy and the choice of Bot.Strikes.
--   Bot.Trail: `checkSoftStopAndTargets`, `ensureTrailState` and `flushTrailState` of the same file, with
--     the part of a heartbeat that calls them; `run_trail` is a sequence of ticks, heartbeats and
--     restarts of the service, up to the first reason to close.
--   Bot.DayGates: `checkLossAndProfitGates` of the same file, over the halt of Bot.State.
--   Bot.Excursion: bot/bot-trade-metrics.util.ts, the envelope of the bids of a trade.
--   Bot.Holds: bot/bot-streamer-hold.util.ts, whose feed the bot takes and gives back.
--   Bot.Lockout: bot/bot-lockout.const.ts, bot-phase.util.ts and bot-equity-thresholds.const.ts.
--   Bot.State: bot/bot-state.service.ts, with `flattenAndHalt` and `closeOpenPosition` of
--     bot-engine.service.ts. One action for each call of the control plane; `Reach` is a run of it.
--   BotV2.ProfitLock and BotV2.TickExit: bot-v2/bot-v2-profit-lock.util.ts, bot-v2-tick-exit.util.ts and
--     bot-v2-scale.util.ts, the trainer's exits, which call `decideSoftExit` of Bot.Exit.
--   BotV2.Sizing and BotV2.Bars: bot-v2/bot-v2-sizing.util.ts, which calls the budget of Bot.Strikes, and
--     bot-v2/bot-v2-bars.util.ts.
--   Prelude: what the parts share. Prelude.Double is the interface of the numbers that stand for prices
--     and percentages, Prelude.Frac and Prelude.Cents are two instances of it.
--
-- How the code is read:
--   A price, a premium or a percentage in the exits is a value of `Double`, whose operations are
--   parameters: the theorems ask only that its comparisons are those of a total order, as IEEE 754
--   promises for all values but NaN, and in two places that rounding to the cent keeps the order. In
--   the ledger a price is a number of price steps and a quantity an integer, for which the test
--   `<= 1e-9` is a test for zero; in the ladder prices are cents. In the control plane money is a
--   number of ten thousandths of a dollar, as the columns of the database keep it.
--   A key `symbol::source` of the matcher is the pair, so a symbol holds no `::`; `localeCompare` is a
--   parameter of the sort. A `Map` is an association list in the order of insertion.
--   An action of the control plane returns a result or an exception with the state as it was saved till
--   then. What a call reads from outside (the day, the trainer's hold, the live balance, the broker's
--   answer to an exit, the commission) is its `Env`.
--   Fuel: `absorb` runs on one more than the number of open lots, since each round but the last closes
--   a lot or uses the fill up; `chunk_from` on the number of items, since each round takes one.
--   In the session prices are cents, texts are trimmed and put in upper case by functions of the
--   `Platform`, and a date is its parts in UTC.
--
-- Not modelled: the transport under the session, the candles it passes on, the database and the calls
-- of the broker; the status that a call of the control plane returns, the cache of live balances and the
-- cancelling of working orders; the engine's recovery, the backtest and the reports; and the other
-- applications of the repository, which are services over the database.
pub mod Prelude
pub mod Pnl
pub mod Streaming
pub mod Bot
pub mod BotV2
