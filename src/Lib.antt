-- ===== src/Lib.antt =====
-- hft-demo: a trading stack of several processes. The feeder parses the exchange's messages and
-- writes book updates and trades into rings in shared memory; a trader per symbol reads them, keeps
-- a local order book and a window over the trade flow, and writes orders into another ring; the
-- executor reads those and measures latencies.
--
-- Common    shared helpers: native numbers, Boolean tests, lists, 64-bit and 32-bit words with their
--           wrap-around, signed integers, bytes, std::memmove.
-- Book      lib/local_order_book.hpp. `Side` is OrderBookSide (a fixed array of rows and a count),
--           `update`, `init`, `get_best`, `levels`, `top` are Update, Init, GetBest, Get and
--           GetTopBids/GetTopAsks; `Book` is OrderBook_. std::lower_bound is `lower_bound`, a search
--           by halving. Book/Levels has the abstract side, a list in strict price order with `put`;
--           Book/Search, Book/Arrays, Book/Refine, Book/Sides and Book/Top relate the two.
-- Flow      lib/trade_flow_window.hpp and .cpp. `Window` is TradeFlowWindow; `on_trade`, `evict`,
--           `pop_oldest` are OnTrade, the loop of EvictOlderThan and PopOldest. Flow/Ring reads the
--           ring as a list, Flow/Volumes has the invariant, Flow/Step one call, Flow/History a
--           sequence of calls.
-- Market    lib/interprocess/ring_buffer_data.hpp and the constants of interprocess.hpp.
-- Parser    lib/binance/parser.cpp. Parser/Decimal is ParseFixedDecimalString, Parser/Fields the
--           other helpers, Parser/Depth, Parser/Trade, Parser/Snapshot and Parser/Combined the four
--           SAX handlers, each a record of the class's members with one function per method and
--           `handle` for the choice of the method, Parser/Calls the four functions that the header
--           declares. A method's Boolean result is the second component of what it returns.
--           Parser/Rows has the rows that depth updates and snapshots share;
--           Parser/Depth/Document, Parser/Trade/Accepts and Parser/Snapshot/Document follow a whole
--           text through a handler; Parser/Combined/Inside has the wrapper of a combined message,
--           Parser/Combined/Forward and Parser/Combined/Trades are about what is inside.
-- Ring      lib/interprocess/spsc_ring_buffer.hpp: Write, Read and ResetConsumer, each as one step,
--           and in Ring/Queue the queue that they implement; Ring/Runs has sequences of calls,
--           Ring/Fill several writes, Ring/Default what a place out of range stands for. Ring/Threads
--           has Write and Read by their single loads and stores, as the steps of a producer and a
--           consumer that interleave in any way.
-- Trader    trader/trader.cpp: TimestampHandler, ApplyUpdate, ResetSnapshot, ProcessTrade and
--           CreateOrder; Trader/Loop is ProcessUpdate, Trader/Main a round of the loop of RunTrader,
--           Trader/Symbols BinanceSymbol. Trader/Batch has a whole batch of updates, Trader/Restart
--           ResetSnapshot on a whole answer, Trader/Invariant a trader beside its neighbours,
--           Trader/Times the times it keeps.
-- Feeder    feeder/feeder.cpp: the two callbacks of RunFeeder, with lib/interprocess/trader_id.hpp;
--           Feeder/Loop is a round of its loop, Feeder/Message a depth message on its whole way.
-- Executor  executor/executor.cpp: the latency sample; Executor/Loop is a round of the loop of
--           RunExecutor over the traders.
-- Observer  observer/observer.cpp: `latency_step` is a round of ProcessLatencyAggregationAttempt,
--           `log_step` one of ProcessLogAttempt; Observer/Percentiles has the percentiles,
--           Observer/Refine, Observer/Aggregation and Observer/Logs relate the rounds to queues,
--           Observer/Routes has the files of the logs, Observer/Attempts the attempts, from the
--           opening of a memory to the return, and the threads of ProcessLog and
--           ProcessLatencyAggregation that repeat them.
-- Logger    lib/interprocess/hot_path_logger.hpp and .cpp: the Formatter and its operators.
--           Logger/File has lib/log_common.cpp, the text of a line, and the formatter of lib/logger.hpp.
-- Memory    lib/interprocess/shared_memory.hpp and interprocess_meta.hpp: `shared_memory` is the
--           constructor of SharedMemory; Memory/Layout is about the places of the objects, Memory/Open
--           about when the constructor throws.
-- Params    lib/interprocess/ipc_params.hpp and .cpp: the names of the shared memories.
-- Client    lib/binance/binance_api_client.cpp: the target of a request, and GetOrderBookSnapshot
--           behind the read of the response.
-- Startup   what RunTrader, RunExecutor and RunFeeder do before their loops: `create` is the creation
--           of a memory, `open_loop` the loop that tries to open one, each by the name that Params has;
--           Startup/Opening and Startup/Processes are about how they end, Startup/Main has
--           trader/main.cpp.
-- System    the parts together: System/Message and System/Tape follow a message of the exchange
--           through the feeder to the trader, System/Order an order to the executor's sample,
--           System/Log a line of a log to the observer's file.
--
-- Parameters. rapidjson's reader is a function from a text to the calls that it makes and whether
-- the text is well formed (Parser/Events); a handler's calls end at the first that returns false.
-- What the array methods that a handler inherits from rapidjson return is an argument, `arrays`.
-- The exchange's responses, the clock, the environment, the size of the CSV file, whether the
-- other process is alive, the mapped region and the result of mlock, and what std::to_chars writes
-- of a double are arguments, and so are what Boost has read of a response and the text of a time.
--
-- Bounds and fuel. The search of a side gets one round more than it has rows, and halves its range
-- in each; the eviction of the window gets as many rounds as it has entries, and removes one in
-- each. ProcessUpdate gets a round more than its queue has updates; a round of the main loop gives
-- it as many as its ring has places, of which one is always free. The loop that opens a memory gets
-- as many attempts as one looks at, and `waits` stands for a loop that then still goes on. Arrays have the sizes of the
-- source: 100 levels a side in the trader's book, 2048 trades, 5000 levels a side in a depth
-- update. The book's depth and the ring's length are arguments.
--
-- Not modelled: the weaker memory orders of a ring's loads and stores; the connections of the network
-- clients and lib/binance/binance_ws_client.cpp, which passes on what Boost reads; an exception of a
-- client in the loop of RunTrader, which ends the process; the mutex and the file of lib/logger.cpp,
-- the clocks of lib/common.hpp, the start and the joining of the observer's threads, and the other
-- entry points, which are I/O only. What the operating system has under the name of a shared memory is
-- a parameter of the start-up, so RemoveSharedMemory has no state of its own.
pub mod Common
pub mod Book
pub mod Flow
pub mod Market
pub mod Parser
pub mod Ring
pub mod Feeder
pub mod Executor
pub mod Logger
pub mod Params
pub mod Memory
pub mod Client
pub mod Startup
pub mod System
pub mod Observer
pub mod Trader
