-- ===== src/App/Tests.antt =====
-- The theorems of main.cpp at concrete inputs.
use Prim.Native.String.{String}
use text.Mathlib.Text
use lockfree_matching_engine.Prelude.{
  ◌<◌, Bool, ℕ, zero, suc, ◌-◌, ◌≡◌, refl, true, false, none, List, [], ◌∷◌, length, drop,
  if◌then◌else◌, ℤ, pos, arith,
}
use lockfree_matching_engine.Core.Types.{bid}
use lockfree_matching_engine.Core.Store.{Store, free_node}
use lockfree_matching_engine.Core.MatchingEngine
use lockfree_matching_engine.Transport.Message.{EngineMessage, OutputMessage, cancel, fill}
use lockfree_matching_engine.Transport.SpscQueue.{SpscQueue, new_queue, try_push}
use lockfree_matching_engine.Transport.SpscQueue.Sequential.{Contains, Pushed, try_push_lem}
use lockfree_matching_engine.Transport.SpscQueue.Ring.{new_queue-IsRing}
use lockfree_matching_engine.Feed.CoinbaseFeed.{feed_queue_size}
use lockfree_matching_engine.Metrics.MetricsCollector.{new_collector}
use lockfree_matching_engine.Metrics.TradeLogger.{log_header}
use lockfree_matching_engine.Server.DashboardHub.{FillRow, blank_row, fill_keep}
use lockfree_matching_engine.App.Args.{
  Config, default_config, parsed, parse_args, args_of, parse_args-args_of,
}
use lockfree_matching_engine.App.Engine.{
  match_sample, order_sample, latency_queue_size, EngineThread, Reading, run_engine,
}
use lockfree_matching_engine.App.Engine.Drain.{Drained, run_engine-Drained}
use lockfree_matching_engine.App.Output.{
  OutputThread, OutputReading, no_pending, rotated, run_output,
}
use lockfree_matching_engine.App.Output.Pending.{add_all, rotated-add_all}
use lockfree_matching_engine.App.Output.Ends.{Emptied, run_output-Emptied}
use lockfree_matching_engine.App.Pipeline.{
  Stage, Steps, here, next, push, pop, miss, pushed, popped, failed_pop, raise_stop, finish,
  new_stage, ended,
}
use lockfree_matching_engine.App.Pipeline.Closing.{Finishes, Steps-Finished}
use lockfree_matching_engine.App.Pipeline.Shutdown.{IsStage, Steps-new_stage, Steps-abandoned}
use lockfree_matching_engine.Tools.SyntheticWorkload.{new_generator}
use lockfree_matching_engine.App.Ingest.{IngestThread, Round, run_synthetic_ingest}
use lockfree_matching_engine.App.Ingest.Lossless.{Ingested, run_synthetic_ingest-Ingested}

abbrev digits : ℕ → String
digits zero = "0"
digits (suc n) = "9"

abbrev atoi : String → ℤ
atoi s = if Text.◌==◌ s "9" then pos 9 else pos 0

abbrev dashboard_config : Config
dashboard_config = record default_config { live = false; dash_port = 9 }

parse_args-args_of_example :
    parse_args atoi (args_of digits dashboard_config) default_config ≡ parsed dashboard_config
parse_args-args_of_example =
    parse_args-args_of atoi digits dashboard_config default_config refl refl (omega arith)
      (omega arith)

abbrev no_message : EngineMessage
no_message = cancel (record { id = 0; timestamp = 0 })

abbrev no_output : OutputMessage
no_output = fill (record {
  aggressive_id = 0;
  passive_id = 0;
  price = pos 0;
  quantity = 0;
  timestamp = 0;
  aggressor_side = bid;
})

abbrev empty_memory : Store
empty_memory p = free_node 0

abbrev engine_thread : EngineThread
engine_thread = record {
  input = new_queue no_message;
  eng = MatchingEngine.init 3 empty_memory;
  lat = new_queue (match_sample 0);
  lat_dropped = 0;
  out = record { queue = new_queue no_output; pushed = 0; dropped = 0 };
  processed = 0;
  pool_free = 3;
  since_publish = 0;
  hub = none;
}

abbrev stopped : Reading
stopped = record { t0 = 1; t1 = 2; stop = true; owns_lock = true }

-- A new ring into which one item is pushed.
abbrev ring_of : {A : Type 0} → ℕ → A → SpscQueue A
ring_of size item = (try_push size item (new_queue item)).1

ring_of-Contains :
    {A : Type 0} (size : ℕ) (item : A) → 1 < size → Contains size (ring_of size item) (item ∷ [])
ring_of-Contains {A} size item h = by_result (try_push size item (new_queue item)) (
    try_push_lem size item (new_queue item) []
      (record { behind = 0; seen = 0; ring = new_queue-IsRing size item (omega arith) }))
  where
    by_result : (r : Bool × SpscQueue A) → Pushed size item [] r → Contains size r.1 (item ∷ [])
    by_result (false, q) v = absurd (omega (arith, v.0))
    by_result (true, q) v = v.1

abbrev busy_engine : EngineThread
busy_engine = record engine_thread { input = ring_of feed_queue_size no_message }

run_engine-Drained_example :
    Drained (no_message ∷ []) busy_engine (run_engine (stopped ∷ stopped ∷ []) busy_engine)
run_engine-Drained_example =
    run_engine-Drained (no_message ∷ []) (stopped ∷ stopped ∷ []) busy_engine
      (ring_of-Contains feed_queue_size no_message (omega arith)) (omega arith) (refl, (refl, tt))

abbrev last_reading : OutputReading
last_reading = record {
  stop = true;
  now_ms = 0;
  wrote = true;
  publish_due = true;
  rank = λ p n. n;
  processed = 0;
  fills = 0;
  pool_free = 0;
  out_dropped = 0;
  clients = 0;
}

abbrev output_thread : OutputThread
output_thread = record {
  out = new_queue no_output;
  lat = new_queue (match_sample 0);
  metrics = new_collector;
  logger = record { is_open = true; file = log_header 40; total_logged = 0 };
  hub = none;
  pending = no_pending;
  fill_seq = 0;
  tape_printed = 0;
  iter = 0;
}

abbrev busy_output : OutputThread
busy_output = record output_thread {
  out = ring_of feed_queue_size no_output;
  lat = ring_of latency_queue_size (order_sample 5);
}

abbrev last_readings : List OutputReading
last_readings = last_reading ∷ last_reading ∷ last_reading ∷ []

run_output-Emptied_example :
    Emptied
      (no_output ∷ [])
      (order_sample 5 ∷ [])
      2
      busy_output
      (run_output last_readings 2 busy_output)
run_output-Emptied_example =
    run_output-Emptied last_readings (no_output ∷ []) (order_sample 5 ∷ []) 2 busy_output
      (record {
        out = ring_of-Contains feed_queue_size no_output (omega arith);
        lat = ring_of-Contains latency_queue_size (order_sample 5) (omega arith);
        log_open = refl;
      })
      (refl, refl, (refl, refl, (refl, refl, tt))) (omega arith)

abbrev three_rows : List FillRow
three_rows = blank_row ∷ record blank_row { seq = 1 } ∷ record blank_row { seq = 2 } ∷ []

rotated-add_all_example :
    rotated (add_all three_rows no_pending) ≡ drop (length three_rows - fill_keep) three_rows
rotated-add_all_example = rotated-add_all three_rows

abbrev stage : Stage ℕ
stage = new_stage

abbrev closed_stage : Stage ℕ
closed_stage = record (pushed 8 true 1 stage) { producer_done = true; stop = true }

abbrev emptied_stage : Stage ℕ
emptied_stage = failed_pop 8 true (popped 8 true 1 [] closed_stage)

abbrev closing_steps : Steps 8 true stage closed_stage
closing_steps =
    next (next (next here (push 1 stage refl (omega arith))) (finish (pushed 8 true 1 stage)))
      (raise_stop (record (pushed 8 true 1 stage) { producer_done = true }) refl)

Steps-new_stage_example : IsStage 8 true closed_stage
Steps-new_stage_example = Steps-new_stage 8 true closing_steps

-- A worker behind its failed pop, after it has taken the message.
Steps-Finished_example : (emptied_stage.sent ≡ closed_stage.sent) × Finishes 8 true emptied_stage
Steps-Finished_example = Steps-Finished 8 true closing_steps refl refl (
    next (next here (pop 1 [] closed_stage refl refl))
      (miss (popped 8 true 1 [] closed_stage) refl refl))

Steps-abandoned_example :
    (s : Stage ℕ) × Steps 8 true new_stage s
    × (s.worker ≡ ended)
    × (s.ring ≡ 1 ∷ 2 ∷ [])
    × (s.sent ≡ 1 ∷ 2 ∷ [])
    × (s.handled ≡ [])
Steps-abandoned_example = Steps-abandoned 8 true (1 ∷ 2 ∷ []) (omega arith)

abbrev ingest_thread : IngestThread
ingest_thread = record {
  input = new_queue no_message;
  gen = new_generator;
  ingested = 0;
  taken = [];
}

-- A round in which the first attempt succeeds.
abbrev ingest_round : Round
ingest_round = record {
  shutdown = false;
  draw = record {
    wants_cancel = false;
    idx = 0;
    is_bid = true;
    is_market = false;
    ticks = pos 100;
    quantity = 5;
  };
  now = 7;
  attempts = record { popped = 1; shutdown = false } ∷ [];
}

run_synthetic_ingest-Ingested_example :
    Ingested
      (ingest_round ∷ ingest_round ∷ [])
      []
      ingest_thread
      (run_synthetic_ingest (ingest_round ∷ ingest_round ∷ []) ingest_thread).1
run_synthetic_ingest-Ingested_example =
    run_synthetic_ingest-Ingested (ingest_round ∷ ingest_round ∷ []) [] ingest_thread (record {
      behind = 0;
      seen = 0;
      ring = new_queue-IsRing feed_queue_size no_message (omega arith);
    })
