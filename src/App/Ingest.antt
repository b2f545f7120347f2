-- ===== src/App/Ingest.antt =====
-- src/main.cpp: the synthetic ingest thread, which waits for room in its ring instead of dropping. An
-- attempt to push takes how many messages the engine thread has popped since the last one, and the
-- shutdown flag as it is loaded if the push fails.
pub mod Waiting
pub mod Lossless
use lockfree_matching_engine.Prelude.{
  ℕ, zero, suc, Bool, true, false, Option, none, some, List, [], ◌∷◌, ◌++◌, if◌then◌else◌, add64,
}
use lockfree_matching_engine.Core.Types.{Timestamp}
use lockfree_matching_engine.Transport.Message.{EngineMessage}
use lockfree_matching_engine.Transport.SpscQueue.{SpscQueue, try_push, try_pop}
use lockfree_matching_engine.Feed.CoinbaseFeed.{feed_queue_size, stamp}
use lockfree_matching_engine.Tools.SyntheticWorkload.{Draw, WorkloadGenerator, next}

abbrev pub InputQueue : Type 0
InputQueue = SpscQueue EngineMessage

-- `taken`, kept for the statements, is what the pops of the engine thread have returned, in order.
pub record IngestThread : Type 0 where
  pub input : InputQueue
  pub gen : WorkloadGenerator
  pub ingested : ℕ
  pub taken : List EngineMessage

pub record Attempt : Type 0 where
  pub popped : ℕ
  pub shutdown : Bool

-- What a round of the loop reads: the flag, the draws of the generator, the clock, and its attempts.
pub record Round : Type 0 where
  pub shutdown : Bool
  pub draw : Draw
  pub now : Timestamp
  pub attempts : List Attempt

-- How a wait for room ends: the message is in, the thread returns, or no attempt is left.
pub data Wait : Type 0 where
  pushed returned waiting : Wait

abbrev pub returned_by : Option EngineMessage → List EngineMessage
returned_by none = []
returned_by (some msg) = msg ∷ []

-- The engine thread pops so often: what its pops return, and the ring then.
unfoldable pub pop_times : ℕ → InputQueue → List EngineMessage × InputQueue
pop_times zero q = ([], q)
pop_times (suc n) q =
    let (msg, q1) = try_pop feed_queue_size q in
    let (msgs, q2) = pop_times n q1 in (returned_by msg ++ msgs, q2)

-- How a wait ended, what the engine thread got meanwhile, and the ring.
abbrev pub Tried : Type 0
Tried = Wait × List EngineMessage × InputQueue

abbrev pub after_pops : List EngineMessage → Tried → Tried
after_pops got r = (r.0, got ++ r.1, r.2)

-- After an attempt: `rest` is what the attempts that follow come to.
abbrev pub after_push : Bool → Bool × InputQueue → (InputQueue → Tried) → Tried
after_push shutdown (true, q) rest = (pushed, [], q)
after_push true (false, q) rest = (returned, [], q)
after_push false (false, q) rest = rest q

unfoldable pub push_wait : List Attempt → EngineMessage → InputQueue → Tried
push_wait [] msg q = (waiting, [], q)
push_wait (a ∷ attempts) msg q =
    let (got, q1) = pop_times a.popped q in
    after_pops got
      (after_push a.shutdown (try_push feed_queue_size msg q1) λ q'. push_wait attempts msg q')

-- After the wait: `rest` is what the rounds that follow come to.
abbrev pub after_wait :
    WorkloadGenerator
    → Tried
    → IngestThread
    → (IngestThread → Bool × IngestThread)
    → Bool × IngestThread
after_wait gen (pushed, got, q) t rest =
    rest (record { input = q; gen = gen; ingested = add64 t.ingested 1; taken = t.taken ++ got })
after_wait gen (returned, got, q) t rest =
    (true, record t { input = q; gen = gen; taken = t.taken ++ got })
after_wait gen (waiting, got, q) t rest =
    (false, record t { input = q; gen = gen; taken = t.taken ++ got })

-- The loop for as many rounds as are given, and whether it has returned.
unfoldable pub run_synthetic_ingest : List Round → IngestThread → Bool × IngestThread
run_synthetic_ingest [] t = (false, t)
run_synthetic_ingest (r ∷ rs) t =
    let (gen, msg) = next r.draw t.gen in
    let looped =
      after_wait gen (push_wait r.attempts (stamp r.now msg) t.input) t
        λ t'. run_synthetic_ingest rs t' in
    if r.shutdown then (true, t) else looped
