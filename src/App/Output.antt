-- ===== src/App/Output.antt =====
-- src/main.cpp: the output thread, which drains fills into the log and the dashboard, and latency
-- samples into the trackers. A round takes what the clock, the flag, `fwrite` and the counters give.
pub mod Pending
pub mod Samples
pub mod Drain
pub mod Rounds
pub mod Tallies
pub mod Ends
use lockfree_matching_engine.Prelude.{
  ℕ, zero, suc, ◌+◌, ◌%◌, Bool, true, false, not, ◌&&◌, ◌||◌, Option, none, some, List, [], ◌∷◌,
  ◌++◌, ◌==◌, ltb, length, set, take, drop, if◌then◌else◌, add64,
}
use lockfree_matching_engine.Core.Types.{Side, is_bid}
use lockfree_matching_engine.Transport.Message.{FillMessage, OutputMessage, fill, book_update}
use lockfree_matching_engine.Transport.SpscQueue.{SpscQueue, try_pop}
use lockfree_matching_engine.Feed.CoinbaseFeed.{feed_queue_size}
use lockfree_matching_engine.Core.MatchingEngine.{order_pool_size}
use lockfree_matching_engine.Metrics.LatencyTracker.{LatencyTracker, percentile}
use lockfree_matching_engine.Metrics.MetricsCollector.{
  MetricsCollector, record_match_latency, record_order_latency, increment_orders, increment_matches,
  note_dropped_samples,
}
use lockfree_matching_engine.Metrics.TradeLogger.{TradeLogger, log}
use lockfree_matching_engine.Server.DashboardHub.{
  DashboardHub, FillRow, fill_keep, Stats, publish_output,
}
use lockfree_matching_engine.App.Engine.{
  LatencySample, match_sample, order_sample, latency_queue_size,
}

-- `pending_fills` and `pending_head`: once 48 rows are pending, the oldest is written over.
pub record PendingFills : Type 0 where
  pub rows : List FillRow
  pub head : ℕ

abbrev pub no_pending : PendingFills
no_pending = record { rows = []; head = 0 }

unfoldable pub add_pending : FillRow → PendingFills → PendingFills
add_pending row p =
    if ltb (length p.rows) fill_keep
    then record p { rows = p.rows ++ row ∷ [] }
    else record { rows = set p.rows p.head row; head = (p.head + 1) % fill_keep }

-- `std::rotate`, so that the oldest row comes first.
unfoldable pub rotated : PendingFills → List FillRow
rotated p =
    if not (p.head == 0) && (length p.rows == fill_keep)
    then drop p.head p.rows ++ take p.head p.rows
    else p.rows

pub record OutputThread : Type 0 where
  pub out : SpscQueue OutputMessage
  pub lat : SpscQueue LatencySample
  pub metrics : MetricsCollector
  pub logger : TradeLogger
  pub hub : Option DashboardHub
  pub pending : PendingFills
  pub fill_seq : ℕ
  pub tape_printed : ℕ
  pub iter : ℕ

-- Of a round: the flag, the wall clock, whether `fwrite` succeeds, whether `now >= next_pub`, and what
-- is published then: the rank that `percentile` computes with `double`s, for a percentage and the count
-- of a tracker, the counters of the engine thread as they are loaded, and the number of clients.
pub record OutputReading : Type 0 where
  pub stop : Bool
  pub now_ms : ℕ
  pub wrote : Bool
  pub publish_due : Bool
  pub rank : ℕ → ℕ → ℕ
  pub processed : ℕ
  pub fills : ℕ
  pub pool_free : ℕ
  pub out_dropped : ℕ
  pub clients : ℕ

abbrev pub record_sample : LatencySample → MetricsCollector → MetricsCollector
record_sample (match_sample ns) m = increment_orders (record_match_latency ns m)
record_sample (order_sample ns) m = record_order_latency ns m

-- The loop that drains samples, with `n` rounds left, and whether it found one.
unfoldable pub drain_samples : ℕ → Bool → OutputThread → Bool × OutputThread
drain_samples zero did_work t = (did_work, t)
drain_samples (suc n) did_work t =
    let (sample, lat) = try_pop latency_queue_size t.lat in
    elim sample [
      | none ↦ (did_work, record t { lat = lat })
      | some s ↦ drain_samples n true (record t { lat = lat; metrics = record_sample s t.metrics })
    ]

abbrev pub fill_row : ℕ → ℕ → FillMessage → FillRow
fill_row seq now_ms f = record {
  seq = seq;
  ts_ms = now_ms;
  price = f.price;
  qty = f.quantity;
  taker_is_bid = is_bid f.aggressor_side;
}

-- The row of a fill, if there is a dashboard.
abbrev pub keep_row : ℕ → FillMessage → Option DashboardHub → OutputThread → OutputThread
keep_row now_ms f none t = t
keep_row now_ms f (some hub) t =
    let seq = add64 t.fill_seq 1 in
    record t { fill_seq = seq; pending = add_pending (fill_row seq now_ms f) t.pending }

unfoldable pub handle_fill : OutputReading → FillMessage → OutputThread → OutputThread
unfolding add_pending
handle_fill r f t =
    let t1 = record t {
      logger = log r.wrote f t.logger;
      metrics = increment_matches t.metrics;
      tape_printed = add64 t.tape_printed 1;
    } in
    keep_row r.now_ms f t.hub t1

-- A popped message; a book update is only taken out.
abbrev pub handle_output :
    OutputReading
    → Option OutputMessage × SpscQueue OutputMessage
    → OutputThread
    → Bool × OutputThread
handle_output r (none, q) t = (false, record t { out = q })
handle_output r (some (fill f), q) t = (true, handle_fill r f (record t { out = q }))
handle_output r (some (book_update u), q) t = (true, record t { out = q })

abbrev pub publish_pending : Stats → Option DashboardHub → OutputThread → OutputThread
publish_pending stats none t = t
publish_pending stats (some hub) t = record t {
  hub = some (publish_output stats (rotated t.pending) hub);
  pending = no_pending;
}

abbrev pub percent : OutputReading → ℕ → LatencyTracker → ℕ
percent r p t = percentile (r.rank p t.count) t

abbrev pub published_stats : OutputReading → MetricsCollector → Stats
published_stats r m = record {
  match_p50 = percent r 50 m.match_latency;
  match_p95 = percent r 95 m.match_latency;
  match_p99 = percent r 99 m.match_latency;
  order_p50 = percent r 50 m.order_latency;
  order_p99 = percent r 99 m.order_latency;
  processed = r.processed;
  fills = r.fills;
  pool_free = r.pool_free;
  pool_capacity = order_pool_size;
  dropped = r.out_dropped;
  clients = r.clients;
}

unfoldable pub publish_dashboard : OutputReading → OutputThread → OutputThread
unfolding rotated percentile
publish_dashboard r t = publish_pending (published_stats r t.metrics) t.hub t

-- `!did_work || (++iter & 0xFF) == 0`, and what it guards; the statistics line is only printed.
unfoldable pub check_timers : OutputReading → Bool → OutputThread → OutputThread
check_timers r did_work t =
    let t1 = if did_work then record t { iter = add64 t.iter 1 } else t in
    let due = not did_work || (t1.iter % 256 == 0) in
    if due && r.publish_due then publish_dashboard r t1 else t1

-- A round of the loop, and whether it breaks.
unfoldable pub output_round : OutputReading → OutputThread → Bool × OutputThread
output_round r t =
    let (drained, t1) = drain_samples 4096 false t in
    let (popped, t2) = handle_output r (try_pop feed_queue_size t1.out) t1 in
    let did_work = drained || popped in (not did_work && r.stop, check_timers r did_work t2)

-- The loop for as many rounds as there are readings, or until it breaks; `lat_dropped` is the
-- engine's counter at the end.
unfoldable pub run_output : List OutputReading → ℕ → OutputThread → Bool × OutputThread
run_output [] lat_dropped t = (false, t)
run_output (r ∷ rs) lat_dropped t =
    let (done, t') = output_round r t in
    let rest = run_output rs lat_dropped t' in
    if done
    then (true, record t' { metrics = note_dropped_samples lat_dropped t'.metrics })
    else rest
