-- ===== src/App/Output/Rounds.antt =====
-- A round of the output thread: what it takes out of the rings, and whether the loop ends.
use lockfree_matching_engine.Prelude.{
  ◌≡◌, refl, sym, ap, ap₂, ◌∙◌, subst, Bool, true, false, not, ◌&&◌, ◌||◌, List, [], ◌∷◌, ◌++◌,
  length, take, drop,
}
use lockfree_matching_engine.Transport.Message.{OutputMessage}
use lockfree_matching_engine.Transport.SpscQueue.{try_pop}
use lockfree_matching_engine.Transport.SpscQueue.Sequential.{Contains, try_pop_lem}
use lockfree_matching_engine.Feed.CoinbaseFeed.{feed_queue_size}
use lockfree_matching_engine.Metrics.TradeLogger.{TradeLogger}
use lockfree_matching_engine.App.Engine.{LatencySample, latency_queue_size}
use lockfree_matching_engine.App.Output.{
  OutputThread, OutputReading, drain_samples, handle_output, output_round,
}
use lockfree_matching_engine.App.Output.Samples.{
  add_matches, record_samples-add_matches, some_left, drain_samples-Sampled,
}
use lockfree_matching_engine.App.Output.Drain.{
  fills_in, Holding, Consumed, check_timers-Same, any_left, handle_output-Dealt,
}

-- A round: what it has taken out of the rings, and whether the loop ends.
pub record Drawn (stop : Bool) (outs : List OutputMessage) (samples : List LatencySample)
    (t : OutputThread) (r : Bool × OutputThread) : Type 0 where
  pub done : r.0 ≡ (not (some_left samples || any_left outs) && stop)
  pub holding : Holding (drop 1 outs) (drop 4096 samples) r.1
  pub consumed : Consumed (fills_in (take 1 outs)) (take 4096 samples) t r.1

-- With the flag up the loop ends if there was nothing.
pub record Rounded (outs : List OutputMessage) (samples : List LatencySample) (t : OutputThread)
    (r : Bool × OutputThread) : Type 0 where
  pub done : r.0 ≡ not (some_left samples || any_left outs)
  pub holding : Holding (drop 1 outs) (drop 4096 samples) r.1
  pub consumed : Consumed (fills_in (take 1 outs)) (take 4096 samples) t r.1

some_left-take : (samples : List LatencySample) → some_left (take 4096 samples) ≡ some_left samples
some_left-take [] = refl
some_left-take (s ∷ ss) = refl

pub output_round-Drawn :
    (r : OutputReading) (outs : List OutputMessage) (samples : List LatencySample)
    (t : OutputThread)
    → Holding outs samples t
    → r.wrote ≡ true
    → Drawn r.stop outs samples t (output_round r t)
unfolding output_round
output_round-Drawn r outs samples t h wrote =
    let r1 = drain_samples 4096 false t in
    let s1 = drain_samples-Sampled 4096 samples false t h.lat in
    let r2 = handle_output r (try_pop feed_queue_size r1.1.out) r1.1 in
    let out1 = subst (λ q. Contains feed_queue_size q outs) (sym s1.out) h.out in
    let s2 =
      handle_output-Dealt r outs (try_pop feed_queue_size r1.1.out) r1.1
        (try_pop_lem feed_queue_size r1.1.out outs out1)
        (ap (λ (l : TradeLogger). l.is_open) s1.logger ∙ h.log_open) wrote in
    let s3 = check_timers-Same r (r1.0 || r2.0) r2.1 in
    let did : (r1.0 || r2.0) ≡ (some_left samples || any_left outs) =
      ap₂ ◌||◌ (s1.did_work ∙ some_left-take samples) s2.did_work in
    record {
      done = ap (λ d. not d && r.stop) did;
      holding = record {
        out = subst (λ q. Contains feed_queue_size q (drop 1 outs)) (sym s3.out) s2.out;
        lat =
            subst (λ q. Contains latency_queue_size q (drop 4096 samples)) (sym (s3.lat ∙ s2.lat))
              s1.lat;
        log_open = ap (λ (l : TradeLogger). l.is_open) s3.logger ∙ s2.log_open;
      };
      consumed = record {
        records =
            ap (λ (l : TradeLogger). l.file.records) s3.logger
            ∙ s2.consumed.records
            ∙ ap (λ (l : TradeLogger). l.file.records ++ fills_in (take 1 outs)) s1.logger;
        metrics =
            s3.metrics
            ∙ s2.consumed.metrics
            ∙ ap (add_matches (length (fills_in (take 1 outs)))) s1.metrics
            ∙ sym (
                record_samples-add_matches (take 4096 samples) (length (fills_in (take 1 outs)))
                  t.metrics);
      };
    }

pub output_round-Rounded :
    (r : OutputReading) (outs : List OutputMessage) (samples : List LatencySample)
    (t : OutputThread)
    → Holding outs samples t
    → r.stop ≡ true
    → r.wrote ≡ true
    → Rounded outs samples t (output_round r t)
output_round-Rounded r outs samples t h stop wrote =
    let d = output_round-Drawn r outs samples t h wrote in
    let idle = not (some_left samples || any_left outs) in
    record {
      done = d.done ∙ ap (λ st. idle && st) stop ∙ and_true idle;
      holding = d.holding;
      consumed = d.consumed;
    }
  where
    and_true : (b : Bool) → (b && true) ≡ b
    and_true true = refl
    and_true false = refl
