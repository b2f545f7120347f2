-- ===== src/App/Pipeline/OutputRounds.antt =====
-- The rounds of the loop of `run_output` as steps of a worker behind the ring of fills, whose other
-- ring is that of the samples.
use lockfree_matching_engine.Prelude.{
  ◌≡◌, refl, sym, ap, ◌∙◌, subst, inr, Bool, true, false, not, ◌&&◌, ◌||◌, List, [], ◌∷◌, ◌++◌,
  append_assoc, append-nil, drop,
}
use lockfree_matching_engine.Transport.Message.{FillMessage, OutputMessage}
use lockfree_matching_engine.Feed.CoinbaseFeed.{feed_queue_size}
use lockfree_matching_engine.App.Engine.{LatencySample}
use lockfree_matching_engine.App.Output.{OutputThread, OutputReading, output_round}
use lockfree_matching_engine.App.Output.Samples.{some_left}
use lockfree_matching_engine.App.Output.Drain.{fills_in, Holding}
use lockfree_matching_engine.App.Output.Rounds.{Drawn, output_round-Drawn}
use lockfree_matching_engine.App.Output.Ends.{fills_in-append}
use lockfree_matching_engine.App.Pipeline.{
  looping, ended, Stage, popped, failed_pop, pop, miss, retry, leave, Steps, here, next,
}
use lockfree_matching_engine.App.Pipeline.Rounds.{after_round}

-- The thread's ring of fills has what the stage's ring has, and its log, which had `old`, has the fills
-- of what the stage has handled.
pub record Logs (old : List FillMessage) (samples : List LatencySample) (t : OutputThread)
    (s : Stage OutputMessage) : Type 0 where
  pub holding : Holding s.ring samples t
  pub records : t.logger.file.records ≡ old ++ fills_in s.handled

-- What a round comes to on the stage.
pub record Stepped (old : List FillMessage) (samples : List LatencySample) (s : Stage OutputMessage)
    (out : Bool × OutputThread) : Type 0 where
  pub stage : Stage OutputMessage
  pub steps : Steps feed_queue_size true s stage
  pub logs : Logs old samples out.1 stage
  pub worker : stage.worker ≡ after_round out.0

and-right : (b c d : Bool) → d ≡ (b && c) → d ≡ true → c ≡ true
and-right true c d e h = sym e ∙ h
and-right false c d e h = cc

busy : (b c d : Bool) → d ≡ (not (b || true) && c) → d ≡ false
busy true c d e = e
busy false c d e = e

module _ (old : List FillMessage) (samples : List LatencySample) (r : OutputReading)
    (t : OutputThread) (s : Stage OutputMessage) (at_top : s.worker ≡ looping)
    (flag : r.stop ≡ s.stop) (v : Logs old samples t s) where
  missed_stage : Stage OutputMessage
  missed_stage = failed_pop feed_queue_size true s

  missed_Logs :
      (out : OutputThread)
      → s.ring ≡ []
      → Holding [] (drop 4096 samples) out
      → out.logger.file.records ≡ t.logger.file.records ++ []
      → Logs old (drop 4096 samples) out s
  missed_Logs out e h logged = record {
    holding = subst (λ xs. Holding xs (drop 4096 samples) out) (sym e) h;
    records = logged ∙ append-nil t.logger.file.records ∙ v.records;
  }

  empty_round :
      (out : Bool × OutputThread)
      → s.ring ≡ []
      → Drawn r.stop [] samples t out
      → Stepped old (drop 4096 samples) s out
  unfolding missed_stage
  empty_round (true, t') e d =
      let up = and-right (not (some_left samples || false)) r.stop true d.done refl in
      let l = missed_Logs t' e d.holding d.consumed.records in
      record {
        stage = record missed_stage { worker = ended };
        steps = next (next here (miss s at_top e)) (leave missed_stage refl (sym flag ∙ up));
        logs = record { holding = l.holding; records = l.records };
        worker = refl;
      }
  empty_round (false, t') e d =
      let l = missed_Logs t' e d.holding d.consumed.records in
      record {
        stage = record missed_stage { worker = looping };
        steps = next (next here (miss s at_top e)) (retry missed_stage refl (inr refl));
        logs = record { holding = l.holding; records = l.records };
        worker = refl;
      }

  full_round :
      (m : OutputMessage) (ms : List OutputMessage) (out : Bool × OutputThread)
      → s.ring ≡ m ∷ ms
      → Drawn r.stop (m ∷ ms) samples t out
      → Stepped old (drop 4096 samples) s out
  full_round m ms out e d = record {
    stage = popped feed_queue_size true m ms s;
    steps = next here (pop m ms s at_top e);
    logs = record {
      holding = d.holding;
      records =
          d.consumed.records
          ∙ ap (λ rs. rs ++ fills_in (m ∷ [])) v.records
          ∙ append_assoc old (fills_in s.handled) (fills_in (m ∷ []))
          ∙ ap (λ fs. old ++ fs) (sym (fills_in-append s.handled (m ∷ [])));
    };
    worker = sym (ap after_round (busy (some_left samples) r.stop out.0 d.done));
  }

  -- A round of the output thread, in which the log is written, whose ring of fills and flag are
  -- those of a worker before its pop is some steps of that worker, after which the rings still agree
  -- and the log has what was handled, and the worker has ended if the loop breaks, and else is before
  -- its pop.
  pub output_round-Stepped : r.wrote ≡ true → Stepped old (drop 4096 samples) s (output_round r t)
  output_round-Stepped wrote =
      by_ring s.ring refl (output_round-Drawn r s.ring samples t v.holding wrote)
    where
      by_ring :
          (xs : List OutputMessage)
          → s.ring ≡ xs
          → Drawn r.stop xs samples t (output_round r t)
          → Stepped old (drop 4096 samples) s (output_round r t)
      by_ring [] e d = empty_round (output_round r t) e d
      by_ring (m ∷ ms) e d = full_round m ms (output_round r t) e d
