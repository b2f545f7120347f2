-- ===== src/App/Output/Ends.antt =====
-- Once the stop flag is up, the output thread empties both of its rings and ends.
use lockfree_matching_engine.Prelude.{
  ℕ, zero, suc, ◌+◌, ◌<◌, ◌≡◌, refl, sym, ap, ap₂, ◌∙◌, subst, Bool, true, false, not, ◌||◌, List,
  [], ◌∷◌, ◌++◌, length, length-drop, length-append, take, drop, take-append-drop, append_assoc,
  arith, Bool-cases, inl, inr,
}
use lockfree_matching_engine.Transport.Message.{FillMessage, OutputMessage, fill, book_update}
use lockfree_matching_engine.Transport.SpscQueue.Sequential.{Contains}
use lockfree_matching_engine.Feed.CoinbaseFeed.{feed_queue_size}
use lockfree_matching_engine.Metrics.MetricsCollector.{
  MetricsCollector, increment_matches, note_dropped_samples,
}
use lockfree_matching_engine.App.Engine.{LatencySample, latency_queue_size}
use lockfree_matching_engine.App.Output.{OutputThread, OutputReading, output_round, run_output}
use lockfree_matching_engine.App.Output.Samples.{
  record_samples, add_matches, record_samples-append, record_samples-add_matches, some_left,
}
use lockfree_matching_engine.App.Output.Tallies.{Tallied, consumed-Tallied}
use lockfree_matching_engine.App.Output.Drain.{fills_in, Holding, Consumed, any_left}
use lockfree_matching_engine.App.Output.Rounds.{Rounded, output_round-Rounded}

-- The flag is up in each round, and the log can be written.
abbrev pub AllStopped : List OutputReading → Type 0
AllStopped [] = Unit {0}
AllStopped (r ∷ rs) = (r.stop ≡ true) × (r.wrote ≡ true) × AllStopped rs

pub fills_in-append :
    (xs ys : List OutputMessage) → fills_in (xs ++ ys) ≡ fills_in xs ++ fills_in ys
fills_in-append [] ys = refl
fills_in-append (fill f ∷ xs) ys = ap (◌∷◌ f) (fills_in-append xs ys)
fills_in-append (book_update u ∷ xs) ys = fills_in-append xs ys

add_matches-add :
    (m n : ℕ) (c : MetricsCollector) → add_matches n (add_matches m c) ≡ add_matches (m + n) c
add_matches-add zero n c = ap (λ k. add_matches k c) (zero_add n)
  where
    zero_add : (n : ℕ) → n ≡ 0 + n
    zero_add n = omega arith
add_matches-add (suc m) n c =
    add_matches-add m n (increment_matches c) ∙ ap (λ k. add_matches k c) (suc_add m n)
  where
    suc_add : (m n : ℕ) → suc (m + n) ≡ suc m + n
    suc_add m n = omega arith

-- What is consumed in two parts.
Consumed-trans :
    (f g : List FillMessage) (ss us : List LatencySample) {t t1 t2 : OutputThread}
    → Consumed f ss t t1
    → Consumed g us t1 t2
    → Consumed (f ++ g) (ss ++ us) t t2
Consumed-trans f g ss us {t} a b = record {
  records = b.records ∙ ap (λ rs. rs ++ g) a.records ∙ append_assoc t.logger.file.records f g;
  metrics =
      b.metrics
      ∙ ap (λ c. record_samples us (add_matches (length g) c)) a.metrics
      ∙ ap (record_samples us)
          (sym (record_samples-add_matches ss (length g) (add_matches (length f) t.metrics)))
      ∙ sym
          (record_samples-append ss us (add_matches (length g) (add_matches (length f) t.metrics)))
      ∙ ap (record_samples (ss ++ us)) (
          add_matches-add (length f) (length g) t.metrics
          ∙ ap (λ n. add_matches n t.metrics) (sym (length-append f g)));
}

-- The loop has ended with both rings empty, and what was in them has gone into the log and into the
-- metrics.
record EmptiedBy (outs : List OutputMessage) (samples : List LatencySample) (lat_dropped : ℕ)
    (t : OutputThread) (r : Bool × OutputThread) : Type 0 where
  pub done : r.0 ≡ true
  pub out : Contains feed_queue_size r.1.out []
  pub lat : Contains latency_queue_size r.1.lat []
  pub records : r.1.logger.file.records ≡ t.logger.file.records ++ fills_in outs
  pub metrics :
      r.1.metrics
      ≡ note_dropped_samples lat_dropped
          (record_samples samples (add_matches (length (fills_in outs)) t.metrics))

run_output-done :
    (r : OutputReading) (rs : List OutputReading) (lat_dropped : ℕ) (t : OutputThread)
    → (output_round r t).0 ≡ true
    → run_output (r ∷ rs) lat_dropped t ≡ (
      true,
      record (output_round r t).1 {
        metrics = note_dropped_samples lat_dropped (output_round r t).1.metrics;
      },
    )
unfolding run_output
run_output-done r rs lat_dropped t e = rw e

run_output-more :
    (r : OutputReading) (rs : List OutputReading) (lat_dropped : ℕ) (t : OutputThread)
    → (output_round r t).0 ≡ false
    → run_output (r ∷ rs) lat_dropped t ≡ run_output rs lat_dropped (output_round r t).1
unfolding run_output
run_output-more r rs lat_dropped t e = rw e

more_rounds :
    (r : OutputReading) (rs : List OutputReading) (outs : List OutputMessage)
    (samples : List LatencySample) (lat_dropped : ℕ) (t : OutputThread)
    → Rounded outs samples t (output_round r t)
    → (some_left samples || any_left outs) ≡ true
    → EmptiedBy
        (drop 1 outs)
        (drop 4096 samples)
        lat_dropped
        (output_round r t).1
        (run_output rs lat_dropped (output_round r t).1)
    → EmptiedBy outs samples lat_dropped t (run_output (r ∷ rs) lat_dropped t)
more_rounds r rs outs samples lat_dropped t one left later =
    let f = fills_in (take 1 outs) in
    let g = fills_in (drop 1 outs) in
    let t1 = (output_round r t).1 in
    let t2 = (run_output rs lat_dropped t1).1 in
    let counted = record_samples (drop 4096 samples) (add_matches (length g) t1.metrics) in
    let all =
      Consumed-trans f g (take 4096 samples) (drop 4096 samples)
        {t2 = record t2 { metrics = counted }} one.consumed
        (record { records = later.records; metrics = refl }) in
    let fills : f ++ g ≡ fills_in outs =
      sym (fills_in-append (take 1 outs) (drop 1 outs)) ∙ ap fills_in (take-append-drop 1 outs) in
    rw (run_output-more r rs lat_dropped t (one.done ∙ ap not left)) (record {
      done = later.done;
      out = later.out;
      lat = later.lat;
      records = all.records ∙ ap (λ fs. t.logger.file.records ++ fs) fills;
      metrics =
          later.metrics
          ∙ ap (note_dropped_samples lat_dropped) (
              all.metrics
              ∙ ap₂
                  (λ ss (fs : List FillMessage).
                    record_samples ss (add_matches (length fs) t.metrics))
                  (take-append-drop 4096 samples) fills);
    })

last_round :
    (r : OutputReading) (rs : List OutputReading) (outs : List OutputMessage)
    (samples : List LatencySample) (lat_dropped : ℕ) (t : OutputThread)
    → Rounded outs samples t (output_round r t)
    → (some_left samples || any_left outs) ≡ false
    → EmptiedBy outs samples lat_dropped t (run_output (r ∷ rs) lat_dropped t)
last_round r rs [] [] lat_dropped t one none_left =
    rw (run_output-done r rs lat_dropped t one.done) (record {
      done = refl;
      out = one.holding.out;
      lat = one.holding.lat;
      records = one.consumed.records;
      metrics = ap (note_dropped_samples lat_dropped) one.consumed.metrics;
    })
last_round r rs [] (s ∷ ss) lat_dropped t one none_left = cc
last_round r rs (m ∷ ms) [] lat_dropped t one none_left = cc
last_round r rs (m ∷ ms) (s ∷ ss) lat_dropped t one none_left = cc

run_output-EmptiedBy :
    (rs : List OutputReading) (outs : List OutputMessage) (samples : List LatencySample)
    (lat_dropped : ℕ) (t : OutputThread)
    → Holding outs samples t
    → AllStopped rs
    → length outs + length samples < length rs
    → EmptiedBy outs samples lat_dropped t (run_output rs lat_dropped t)
run_output-EmptiedBy [] outs samples lat_dropped t h up n = absurd (omega arith)
run_output-EmptiedBy (r ∷ rs) outs samples lat_dropped t h up n =
    let one = output_round-Rounded r outs samples t h up.0 up.1 in
    elim (Bool-cases (some_left samples || any_left outs)) [
      | inl left ↦ more_rounds r rs outs samples lat_dropped t one left (
          run_output-EmptiedBy rs (drop 1 outs) (drop 4096 samples) lat_dropped (output_round r t).1
            one.holding up.2 (fewer outs samples left n))
      | inr none_left ↦ last_round r rs outs samples lat_dropped t one none_left
    ]
  where
    fewer :
        (outs : List OutputMessage) (samples : List LatencySample)
        → (some_left samples || any_left outs) ≡ true
        → length outs + length samples < suc (length rs)
        → length (drop 1 outs) + length (drop 4096 samples) < length rs
    fewer [] [] left n = cc
    fewer [] (s ∷ ss) left n = omega (arith, length-drop 4096 (s ∷ ss))
    fewer (m ∷ ms) samples left n = omega (arith, length-drop 4096 samples)

-- The loop has ended with both rings empty. All the fills are in the log behind those before, in
-- their order, and the metrics have the fills, the samples and the lost samples.
pub record Emptied (outs : List OutputMessage) (samples : List LatencySample) (lat_dropped : ℕ)
    (t : OutputThread) (r : Bool × OutputThread) : Type 0 where
  pub done : r.0 ≡ true
  pub out : Contains feed_queue_size r.1.out []
  pub lat : Contains latency_queue_size r.1.lat []
  pub records : r.1.logger.file.records ≡ t.logger.file.records ++ fills_in outs
  pub metrics : Tallied (length (fills_in outs)) samples lat_dropped t.metrics r.1.metrics

-- For rings with any fills, book updates and samples, and an open log whose writes succeed, the
-- output thread that finds the stop flag up in each round breaks its loop within one round more
-- than there are items. Both rings are then empty; all the fills are in the log, behind those
-- before and in their order; the tracker of match latencies has recorded the times of the match
-- samples and that of order latencies those of the order samples, in their order; and the
-- orders, one for each match sample, the fills and the lost samples are added to their counters,
-- modulo 2^64.
pub run_output-Emptied :
    (rs : List OutputReading) (outs : List OutputMessage) (samples : List LatencySample)
    (lat_dropped : ℕ) (t : OutputThread)
    → Holding outs samples t
    → AllStopped rs
    → length outs + length samples < length rs
    → Emptied outs samples lat_dropped t (run_output rs lat_dropped t)
run_output-Emptied rs outs samples lat_dropped t h up n =
    let e = run_output-EmptiedBy rs outs samples lat_dropped t h up n in
    record {
      done = e.done;
      out = e.out;
      lat = e.lat;
      records = e.records;
      metrics =
          subst (Tallied (length (fills_in outs)) samples lat_dropped t.metrics) (sym e.metrics)
            (consumed-Tallied (length (fills_in outs)) samples lat_dropped t.metrics);
    }
