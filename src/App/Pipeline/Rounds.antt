-- ===== src/App/Pipeline/Rounds.antt =====
-- The rounds of the loop of `run_engine` as steps of a worker behind its ring.
use lockfree_matching_engine.Prelude.{
  ◌≡◌, refl, sym, ap, ◌∙◌, subst, inl, Bool, true, false, Bool-cases, inr, Option, none, some, List,
  [], ◌∷◌, ◌++◌,
}
use lockfree_matching_engine.Core.MatchingEngine.{MatchingEngine, process}
use lockfree_matching_engine.Core.MatchingEngine.Process.{process_all}
use lockfree_matching_engine.Transport.Message.{EngineMessage}
use lockfree_matching_engine.Transport.SpscQueue.{SpscQueue, try_pop}
use lockfree_matching_engine.Transport.SpscQueue.Sequential.{Contains, Popped, try_pop_lem}
use lockfree_matching_engine.Feed.CoinbaseFeed.{feed_queue_size}
use lockfree_matching_engine.App.Engine.{EngineThread, Reading, serve_hub, after_pop, engine_round}
use lockfree_matching_engine.App.Engine.Drain.{
  handle_message-HandledOne, engine_round-none, engine_round-some,
}
use lockfree_matching_engine.App.Pipeline.{
  WorkerAt, looping, ended, Stage, popped, failed_pop, pop, miss, retry, leave, Steps, here, next,
}

process_all-snoc :
    (ms : List EngineMessage) (msg : EngineMessage) (e : MatchingEngine)
    → (process_all (ms ++ msg ∷ []) e).1 ≡ process msg (process_all ms e).1
unfolding process_all
process_all-snoc [] msg e = refl
process_all-snoc (m ∷ ms) msg e = process_all-snoc ms msg (process m e)

-- The thread's ring has what the stage's ring has, and its engine, which was `from`, has processed
-- what the stage has handled.
pub record Stands (from : MatchingEngine) (t : EngineThread) (s : Stage EngineMessage)
    : Type 0 where
  pub input : Contains feed_queue_size t.input s.ring
  pub eng : t.eng ≡ (process_all s.handled from).1

abbrev pub after_round : Bool → WorkerAt
after_round true = ended
after_round false = looping

-- What a round comes to on the stage.
pub record Stepped (from : MatchingEngine) (s : Stage EngineMessage) (out : Bool × EngineThread)
    : Type 0 where
  pub stage : Stage EngineMessage
  pub steps : Steps feed_queue_size false s stage
  pub stands : Stands from out.1 stage
  pub worker : stage.worker ≡ after_round out.0

engine_round-quiet :
    (r : Reading) (t : EngineThread)
    → r.stop ≡ false
    → (try_pop feed_queue_size t.input).0 ≡ none
    → engine_round r t
      ≡ (false, serve_hub r (record t { input = (try_pop feed_queue_size t.input).1 }))
unfolding engine_round
engine_round-quiet r t down e = by_result (try_pop feed_queue_size t.input) e
  where
    by_result :
        (p : Option EngineMessage × SpscQueue EngineMessage)
        → p.0 ≡ none
        → after_pop r p t ≡ (false, serve_hub r (record t { input = p.1 }))
    by_result (none, q) e = rw down refl
    by_result (some msg, q) e = cc

module _ (from : MatchingEngine) (r : Reading) (t : EngineThread) (s : Stage EngineMessage)
    (at_top : s.worker ≡ looping) (flag : r.stop ≡ s.stop) (v : Stands from t s) where
  left : SpscQueue EngineMessage
  left = (try_pop feed_queue_size t.input).1

  missed_stage : Stage EngineMessage
  missed_stage = failed_pop feed_queue_size false s

  empty_round :
      s.ring ≡ []
      → (try_pop feed_queue_size t.input).0 ≡ none
      → Contains feed_queue_size left []
      → Stepped from s (engine_round r t)
  unfolding left missed_stage
  empty_round e none_left c =
      let now_empty : Contains feed_queue_size left s.ring =
        subst (Contains feed_queue_size left) (sym e) c in
      elim (Bool-cases r.stop) [
        | inl up ↦ rw (engine_round-none r t up none_left) (record {
          stage = record missed_stage { worker = ended };
          steps = next (next here (miss s at_top e)) (leave missed_stage refl (sym flag ∙ up));
          stands = record { input = now_empty; eng = v.eng };
          worker = refl;
        })
        | inr down ↦ rw (engine_round-quiet r t down none_left) (record {
          stage = record missed_stage { worker = looping };
          steps =
              next (next here (miss s at_top e)) (retry missed_stage refl (inl (sym flag ∙ down)));
          stands = record { input = now_empty; eng = v.eng };
          worker = refl;
        })
      ]

  full_round :
      (msg : EngineMessage) (ms : List EngineMessage)
      → s.ring ≡ msg ∷ ms
      → (try_pop feed_queue_size t.input).0 ≡ some msg
      → Contains feed_queue_size left ms
      → Stepped from s (engine_round r t)
  unfolding left
  full_round msg ms e one c =
      let t1 = record t { input = left } in
      let h = handle_message-HandledOne r msg t1 in
      rw (engine_round-some r t msg one) (record {
        stage = popped feed_queue_size false msg ms s;
        steps = next here (pop msg ms s at_top e);
        stands = record {
          input = subst (λ q. Contains feed_queue_size q ms) (sym h.input) c;
          eng =
              h.handled.eng_lem
              ∙ ap (process msg) v.eng
              ∙ sym (process_all-snoc s.handled msg from);
        };
        worker = refl;
      })

  -- A round of the engine thread whose ring, engine and flag are those of a worker before its pop
  -- is some steps of that worker, after which the rings and the engine still agree, and the worker
  -- has ended if the loop breaks, and else is before its pop.
  pub engine_round-Stepped : Stepped from s (engine_round r t)
  unfolding left
  engine_round-Stepped = by_ring s.ring refl (try_pop_lem feed_queue_size t.input s.ring v.input)
    where
      by_ring :
          (xs : List EngineMessage)
          → s.ring ≡ xs
          → Popped feed_queue_size xs (try_pop feed_queue_size t.input)
          → Stepped from s (engine_round r t)
      by_ring [] e p = empty_round e p.0 p.1
      by_ring (msg ∷ ms) e p = full_round msg ms e p.0 p.1
