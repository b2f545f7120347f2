-- ===== src/Lib.antt =====
-- A verification library for the lock-free matching engine.
--
-- The program is a limit order book with price-time priority behind lock-free rings: an ingest
-- thread decodes messages into an engine ring, the engine thread matches them and sends fills
-- and book updates to an output thread, and that thread logs trades, publishes a dashboard and
-- keeps latency statistics. Its tools generate a flow of orders, write it to a file and replay it.
-- The library models these parts:
--
--   src/core/types.h, src/core/order.h      Core/Types, Core/Order
--   memory of the order pool                Core/Store
--   src/core/price_level.h                  Core/PriceLevel: `push_back`, `remove`, `pop_front`,
--                                           `reduce_quantity`, `front`, `is_empty`
--   src/core/order_book.h, .cpp             Core/OrderBook: `add_order` (with `emplace`, `insert`
--                                           and `count_added`), `cancel_order` (with `take_out`
--                                           and `repair_best`), `get_order`, `get_level`, and the
--                                           two rescans of the best prices
--   src/core/memory_pool.h                  Core/MemoryPool: the constructor, `allocate`,
--                                           `deallocate`
--   src/core/matching_engine.h, .cpp        Core/MatchingEngine: `process`, `process_new_order`,
--                                           `process_cancel`, `fill_level` and what they call
--   src/transport/message.h                 Transport/Message
--   src/transport/spsc_queue.h              Transport/SpscQueue: `try_push`, `try_pop`, `size`,
--                                           `empty`; Machine has the two threads access by access;
--                                           PushEach is the loop of a thread that drops what does
--                                           not fit; Transport/Intake is what a receiver of the
--                                           messages relies on
--   src/metrics/latency_tracker.h           Metrics/LatencyTracker: `record` (here `record_ns`),
--                                           `bucket_index`, `bucket_upper`, `percentile`, `mean`;
--                                           Firsts has the least value of each bin
--   src/feed/feed_handler.h, .cpp           Feed/FeedHandler: `parse` and `parse_update` of a frame,
--                                           the sequence check, and the book `live` that is kept by
--                                           `apply_level`, `drop_level`, `add_level`, `reset_book`;
--                                           Decimals has `to_ticks` and `to_lots`, Live the map
--   src/feed/coinbase_feed.h, .cpp          Feed/CoinbaseFeed: `on_message`
--   src/feed/ws_client.h, .cpp              Feed/WsClient: the handlers of the client's one thread,
--                                           as events that come in any order
--   src/metrics/metrics_collector.h, .cpp   Metrics/MetricsCollector
--   src/metrics/trade_logger.h, .cpp        Metrics/TradeLogger: `open` (here `open_log`), `log`
--   src/server/dashboard_hub.h              Server/DashboardHub: `publish_book`, `publish_output`,
--                                           and `snapshot_json`, whose text is in Json
--   src/server/ws_server.h, .cpp            Server/DashboardServer: the sessions and the server as
--                                           handlers of the one thread, in any order;
--                                           Transport/WriteQueue is what its write queues share
--                                           with the client's
--   src/main.cpp                            App/Args: `parse_args`; App/Ingest:
--                                           `run_synthetic_ingest`; App/Engine: `run_engine`;
--                                           App/Output: `run_output`; App/Pipeline: the order in
--                                           which `main` stops the threads
--   tools/synthetic_workload.h              Tools/SyntheticWorkload: the generator's `next`
--   tools/synthetic_generator.cpp,
--   tools/replay_tool.cpp                   Tools/OrderFile: `write_records`, `replay_file`
--
-- How the state is modelled. A pointer to an order is the number of a pool slot counted from 1, and
-- null is 0. The memory is a function from pointers to slots, and a slot holds a node of the free
-- list or an `Order`, as in the pool, where both are written into the same bytes. The memory is
-- passed along explicitly. `PriceLevel`, `OrderBook`, `MemoryPool` and `MatchingEngine` are records
-- with the fields of the classes; the levels are a function from prices, and `order_map_` is a
-- function to Option. An operation takes the memory and its object and returns what the C++ function
-- returns, with the memory and the object after it.
--
-- Core/PriceLevel, Core/OrderBook and Core/MatchingEngine each have an Invariant module that says
-- what the memory looks like when the level, book or engine queues given lists of orders. The
-- modules beside it prove what the operations do to those lists.
-- Core/MatchingEngine/Exchange is an abstract exchange over what is offered at each price
-- (Matching and Sweep say what a taker gets), with no pointers, counters, best prices or map.
--
-- Numbers. Quantities are numbers below 2^32, and `uint32_t` and `uint64_t` arithmetic wraps in the
-- definitions (`add32`, `sub32`, `add64`, `sub64`). A message's quantity is assumed to fit its word,
-- and a pool to have fewer than 2^64 - 1 slots, which is what the types of the source give.
-- `& kIndexMask` is a remainder by the capacity, which the source checks to be a power of two.
--
-- Loops. The rescans are structural. `fill_level` and the two loops of `process_new_order` run on
-- fuel, as much as the quantity that is still wanted, since each round fills something: the
-- theorems on them show that the loop's own condition is false at the end.
--
-- The loops of the engine and output threads run on a list of readings, one for a round, which is
-- what the clock, the stop flag, `try_lock` and `fwrite` give in that round. The first part of a
-- result says whether the loop ended, and theorems say how many readings end it once the flag is
-- up. The replay loop runs on as much fuel as the file has bytes, since every record takes one.
--
-- The world outside. The outcomes of Boost.Beast's operations, simdjson's elements, `double` and its operations, `std::atoi`, what `fopen` and
-- `fwrite` return, random draws, clock readings and the bytes of a struct are parameters. An
-- `unordered_map` that is iterated is a list with one entry for each key, in whatever order.
--
-- Threads. Transport/SpscQueue/Machine interleaves the accesses of the two threads in any order.
-- Every shared index has one writer, a release store is paired with an acquire load, and a slot
-- is handed over by an index, so orders of accesses other than interleavings are not modelled.
--
-- The handler of a frame pushes while the engine thread pops: the theorem on it has the engine thread
-- idle meanwhile. App/Pipeline is a thread behind a ring whose contents are a list, with the
-- thread in front, the thread itself and `main` taking steps in any order.
-- Whether the thread drains another ring as well, as the output thread does, is a parameter. Rounds
-- and OutputRounds there relate it to the loops of `run_engine` and `run_output`.
--
-- Some records have fields that the program does not have, and that nothing reads but the statements:
-- what was sent and handled (App/Pipeline), what the engine thread's pops returned (App/Ingest), and
-- what a websocket client or session was given, queued and wrote.
--
-- Not modelled: the conversions of prices from `double` in types.h beyond what the feed uses,
-- and of a percentile to a rank (which `percentile` takes as its argument), reserve calls, moves
-- and copies (deleted in the source), the text of summaries, printing, pinning of threads,
-- signals and the deadline of main, the clock's calibration (tsc_clock.h), the smoke tools, the
-- benchmarks and the tests.
pub mod Prelude
pub mod Core
pub mod Transport
pub mod Metrics
pub mod Feed
pub mod Server
pub mod App
pub mod Tools
