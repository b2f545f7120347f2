-- ===== src/App/Engine/Drain.antt =====
-- Once the stop flag is up, the engine thread processes what is in its ring and ends.
use lockfree_matching_engine.Prelude.{
  ℕ, ◌+◌, ◌%◌, ◌^◌, ◌<◌, ◌≡◌, refl, sym, ap, ap₂, ◌∙◌, sub64, subst, Bool, true, false, not, ◌&&◌,
  Option, none, some, some-injective, List, [], ◌∷◌, ◌==◌, ltb, leb, length, length-append, arith,
  Bool-cases, inl, inr,
}
use lockfree_matching_engine.Core.Types.{Timestamp}
use lockfree_matching_engine.Core.MatchingEngine.{MatchingEngine, process}
use lockfree_matching_engine.Core.MatchingEngine.Process.{process_all}
use lockfree_matching_engine.Transport.Message.{EngineMessage, FillMessage, OutputMessage}
use lockfree_matching_engine.Transport.SpscQueue.{SpscQueue, try_pop}
use lockfree_matching_engine.Transport.SpscQueue.Sequential.{Contains, try_pop_lem}
use lockfree_matching_engine.Transport.SpscQueue.PushEach.{Pushing, push_each, push_each-total}
use lockfree_matching_engine.Feed.CoinbaseFeed.{feed_queue_size}
use lockfree_matching_engine.App.Engine.{
  match_sample, EngineThread, Reading, emit, timestamp_of, emit_order, fill_outputs, push_fills,
  publish_pool, process_one, count_processed, handle_message, after_pop, engine_round, run_engine,
}

-- What a message changes of the engine, the counters and the ring of messages.
pub record Handled (t t' : EngineThread) (eng : MatchingEngine) (n fills : ℕ) : Type 0 where
  pub eng_lem : t'.eng ≡ eng
  pub processed : t'.processed % 2 ^ 64 ≡ (t.processed + n) % 2 ^ 64
  pub reported :
      (t'.out.pushed + t'.out.dropped) % 2 ^ 64 ≡ (t.out.pushed + t.out.dropped + fills) % 2 ^ 64

length-fill_outputs : (fs : List FillMessage) → length (fill_outputs fs) ≡ length fs
length-fill_outputs [] = refl
length-fill_outputs (f ∷ fs) = omega (arith, length-fill_outputs fs)

-- The samples touch neither the engine nor these counters.
record Quiet (t t' : EngineThread) : Type 0 where
  pub eng : t'.eng ≡ t.eng
  pub out : t'.out ≡ t.out
  pub processed : t'.processed ≡ t.processed
  pub input : t'.input ≡ t.input

emit_order-Quiet :
    (ingest_ts t1 : Timestamp) (t : EngineThread) → Quiet t (emit_order ingest_ts t1 t)
unfolding emit_order
emit_order-Quiet ingest_ts t1 t = elim (Bool-cases (not (ingest_ts == 0) && ltb ingest_ts t1)) [
  | inl e ↦ rw e (record { eng = refl; out = refl; processed = refl; input = refl })
  | inr e ↦ rw e (record { eng = refl; out = refl; processed = refl; input = refl })
]

publish_pool-Quiet : (t : EngineThread) → Quiet t (publish_pool t)
unfolding publish_pool
publish_pool-Quiet t = elim (Bool-cases (leb 1024 (t.since_publish + 1))) [
  | inl e ↦ rw e (record { eng = refl; out = refl; processed = refl; input = refl })
  | inr e ↦ rw e (record { eng = refl; out = refl; processed = refl; input = refl })
]

pub record HandledOne (msg : EngineMessage) (t t' : EngineThread) : Type 0 where
  pub handled : Handled t t' (process msg t.eng) 1 (length (process msg t.eng).fills)
  pub input : t'.input ≡ t.input

pub handle_message-HandledOne :
    (r : Reading) (msg : EngineMessage) (t : EngineThread)
    → HandledOne msg t (handle_message r msg t)
unfolding handle_message push_fills emit
handle_message-HandledOne r msg t =
    let eng = process msg t.eng in
    let t1 = emit (match_sample (sub64 r.t1 r.t0)) (process_one msg t) in
    let t2 = emit_order (timestamp_of msg) r.t1 t1 in
    let t3 = count_processed (push_fills t2) in
    let q1 = emit_order-Quiet (timestamp_of msg) r.t1 t1 in
    let q2 = publish_pool-Quiet t3 in
    let out : (publish_pool t3).out ≡ push_each feed_queue_size (fill_outputs eng.fills) t.out =
      q2.out
      ∙ ap₂
          (λ (e : MatchingEngine) (o : Pushing OutputMessage).
            push_each feed_queue_size (fill_outputs e.fills) o)
          q1.eng q1.out in
    let total = push_each-total feed_queue_size (fill_outputs eng.fills) t.out in
    record {
      handled = record {
        eng_lem = q2.eng ∙ q1.eng;
        processed = omega (arith, q2.processed, q1.processed);
        reported =
            subst
              (λ (o : Pushing OutputMessage).
                (o.pushed + o.dropped) % 2 ^ 64
                ≡ (t.out.pushed + t.out.dropped + length eng.fills) % 2 ^ 64)
              (sym out) (omega (arith, total, length-fill_outputs eng.fills));
      };
      input = q2.input ∙ q1.input;
    }

-- The flag is up in each round.
abbrev pub AllStopped : List Reading → Type 0
AllStopped [] = Unit {0}
AllStopped (r ∷ rs) = (r.stop ≡ true) × AllStopped rs

-- The loop has ended, with all the items handled.
pub record Drained (items : List EngineMessage) (t : EngineThread) (r : Bool × EngineThread)
    : Type 0 where
  pub done : r.0 ≡ true
  pub empty : Contains feed_queue_size r.1.input []
  pub handled :
      Handled t r.1 (process_all items t.eng).1 (length items) (length (process_all items t.eng).0)
  pub pool_free : r.1.pool_free ≡ r.1.eng.pool.available

pub engine_round-none :
    (r : Reading) (t : EngineThread)
    → r.stop ≡ true
    → (try_pop feed_queue_size t.input).0 ≡ none
    → engine_round r t ≡ (true, record t { input = (try_pop feed_queue_size t.input).1 })
unfolding engine_round
engine_round-none r t up e = by_result (try_pop feed_queue_size t.input) e
  where
    by_result :
        (p : Option EngineMessage × SpscQueue EngineMessage)
        → p.0 ≡ none
        → after_pop r p t ≡ (true, record t { input = p.1 })
    by_result (none, q) e = rw up
    by_result (some msg, q) e = cc

pub engine_round-some :
    (r : Reading) (t : EngineThread) (msg : EngineMessage)
    → (try_pop feed_queue_size t.input).0 ≡ some msg
    → engine_round r t
      ≡ (false, handle_message r msg (record t { input = (try_pop feed_queue_size t.input).1 }))
unfolding engine_round
engine_round-some r t msg e = by_result (try_pop feed_queue_size t.input) e
  where
    by_result :
        (p : Option EngineMessage × SpscQueue EngineMessage)
        → p.0 ≡ some msg
        → after_pop r p t ≡ (false, handle_message r msg (record t { input = p.1 }))
    by_result (none, q) e = cc
    by_result (some other, q) e =
        ap (λ m. (false, handle_message r m (record t { input = q }))) (some-injective other msg e)

-- For a ring with any messages, the engine thread that finds the stop flag up in each round
-- breaks its loop within one round more than there are messages. The ring is then empty, the
-- engine is the one that has processed the messages in their order, the messages are added to
-- `processed` and the number of their fills to the sum of `fills` and `out_dropped`, modulo
-- 2^64, and `pool_free` is what the pool has available.
pub run_engine-Drained :
    (items : List EngineMessage) (rs : List Reading) (t : EngineThread)
    → Contains feed_queue_size t.input items
    → length items < length rs
    → AllStopped rs
    → Drained items t (run_engine rs t)
unfolding run_engine process_all
run_engine-Drained items [] t c n up = absurd (omega arith)
run_engine-Drained [] (r ∷ rs) t c n up =
    let (e, c') = try_pop_lem feed_queue_size t.input [] c in
    rw (engine_round-none r t up.0 e) (record {
      done = refl;
      empty = c';
      handled = record { eng_lem = refl; processed = omega arith; reported = omega arith };
      pool_free = refl;
    })
run_engine-Drained (msg ∷ items) (r ∷ rs) t c n up =
    let (e, c') = try_pop_lem feed_queue_size t.input (msg ∷ items) c in
    let t1 = record t { input = (try_pop feed_queue_size t.input).1 } in
    let t2 = handle_message r msg t1 in
    let one = handle_message-HandledOne r msg t1 in
    let later =
      run_engine-Drained items rs t2
        (subst (λ q. Contains feed_queue_size q items) (sym one.input) c') (omega arith) up.1 in
    let t3 = (run_engine rs t2).1 in
    let rest =
      subst
        (λ (e : MatchingEngine).
          Handled t2 t3 (process_all items e).1 (length items) (length (process_all items e).0))
        one.handled.eng_lem later.handled in
    let fills = length-append (process msg t.eng).fills (process_all items (process msg t.eng)).0 in
    rw (engine_round-some r t msg e) (record {
      done = later.done;
      empty = later.empty;
      handled = record {
        eng_lem = rest.eng_lem;
        processed = omega (arith, one.handled.processed, rest.processed);
        reported = omega (arith, one.handled.reported, rest.reported, fills);
      };
      pool_free = later.pool_free;
    })
