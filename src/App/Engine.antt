-- ===== src/App/Engine.antt =====
-- src/main.cpp: the counters, the latency samples, and the engine thread. A round of its loop takes
-- the two clock readings, the stop flag as it is loaded, and what `try_lock` of the hub comes to.
pub mod Drain
use lockfree_matching_engine.Prelude.{
  ℕ, zero, suc, ◌+◌, Bool, true, false, not, ◌&&◌, Option, none, some, List, [], ◌∷◌, ◌==◌, ltb,
  leb, if◌then◌else◌, add64, sub64,
}
use lockfree_matching_engine.Core.Types.{Timestamp}
use lockfree_matching_engine.Core.MatchingEngine.{MatchingEngine, process}
use lockfree_matching_engine.Transport.Message.{
  EngineMessage, new_order, cancel, FillMessage, OutputMessage, fill,
}
use lockfree_matching_engine.Transport.SpscQueue.{SpscQueue, try_push, try_pop}
use lockfree_matching_engine.Transport.SpscQueue.PushEach.{Pushing, push_each}
use lockfree_matching_engine.Feed.CoinbaseFeed.{feed_queue_size}
use lockfree_matching_engine.Server.DashboardHub.{DashboardHub, publish_book}

-- `LatencySample`, by its kind.
pub data LatencySample : Type 0 where
  match_sample : ℕ → LatencySample
  order_sample : ℕ → LatencySample

abbrev pub latency_queue_size : ℕ
latency_queue_size = 65536

-- The engine with its three rings, and of `Counters` what this thread writes: `fills` and
-- `out_dropped` are the counters of `out`.
pub record EngineThread : Type 0 where
  pub input : SpscQueue EngineMessage
  pub eng : MatchingEngine
  pub lat : SpscQueue LatencySample
  pub lat_dropped : ℕ
  pub out : Pushing OutputMessage
  pub processed : ℕ
  pub pool_free : ℕ
  pub since_publish : ℕ
  pub hub : Option DashboardHub

pub record Reading : Type 0 where
  pub t0 : Timestamp
  pub t1 : Timestamp
  pub stop : Bool
  pub owns_lock : Bool

unfoldable pub emit : LatencySample → EngineThread → EngineThread
emit sample t =
    let (ok, lat) = try_push latency_queue_size sample t.lat in
    record t { lat = lat; lat_dropped = if ok then t.lat_dropped else add64 t.lat_dropped 1 }

abbrev pub timestamp_of : EngineMessage → Timestamp
timestamp_of (new_order msg) = msg.timestamp
timestamp_of (cancel msg) = msg.timestamp

-- Only a message that was stamped before `t1`.
unfoldable pub emit_order : Timestamp → Timestamp → EngineThread → EngineThread
unfolding emit
emit_order ingest_ts t1 t =
    if not (ingest_ts == 0) && ltb ingest_ts t1
    then emit (order_sample (sub64 t1 ingest_ts)) t
    else t

abbrev pub fill_outputs : List FillMessage → List OutputMessage
fill_outputs [] = []
fill_outputs (f ∷ fs) = fill f ∷ fill_outputs fs

unfoldable pub push_fills : EngineThread → EngineThread
push_fills t = record t { out = push_each feed_queue_size (fill_outputs t.eng.fills) t.out }

-- Every 1024 messages the free slots of the pool are published.
unfoldable pub publish_pool : EngineThread → EngineThread
publish_pool t =
    if leb 1024 (t.since_publish + 1)
    then record t { since_publish = 0; pool_free = t.eng.pool.available }
    else record t { since_publish = t.since_publish + 1 }

abbrev pub serve_book : Bool → MatchingEngine → Option DashboardHub → Option DashboardHub
serve_book owns_lock eng none = none
serve_book owns_lock eng (some hub) =
    some (if hub.book_wanted then publish_book owns_lock eng.book hub else hub)

abbrev pub serve_hub : Reading → EngineThread → EngineThread
serve_hub r t = record t { hub = serve_book r.owns_lock t.eng t.hub }

abbrev pub process_one : EngineMessage → EngineThread → EngineThread
process_one msg t = record t { eng = process msg t.eng }

abbrev pub count_processed : EngineThread → EngineThread
count_processed t = record t { processed = add64 t.processed 1 }

-- A round that has popped a message.
unfoldable pub handle_message : Reading → EngineMessage → EngineThread → EngineThread
handle_message r msg t =
    let t1 = emit (match_sample (sub64 r.t1 r.t0)) (process_one msg t) in
    let t2 = push_fills (emit_order (timestamp_of msg) r.t1 t1) in
    serve_hub r (publish_pool (count_processed t2))

-- After the pop: a message is handled; without one the loop ends if the flag is up.
abbrev pub after_pop :
    Reading → Option EngineMessage × SpscQueue EngineMessage → EngineThread → Bool × EngineThread
after_pop r (some msg, q) t = (false, handle_message r msg (record t { input = q }))
after_pop r (none, q) t =
    if r.stop then (true, record t { input = q }) else (false, serve_hub r (record t { input = q }))

-- A round of the loop, and whether it breaks.
unfoldable pub engine_round : Reading → EngineThread → Bool × EngineThread
engine_round r t = after_pop r (try_pop feed_queue_size t.input) t

-- What follows the loop; `lat_dropped` is published as it is.
abbrev pub leave : EngineThread → EngineThread
leave t = record t { pool_free = t.eng.pool.available }

-- The loop for as many rounds as there are readings, or until it breaks.
unfoldable pub run_engine : List Reading → EngineThread → Bool × EngineThread
run_engine [] t = (false, t)
run_engine (r ∷ rs) t =
    let (done, t') = engine_round r t in
    let rest = run_engine rs t' in if done then (true, leave t') else rest
