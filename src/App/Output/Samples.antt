-- ===== src/App/Output/Samples.antt =====
-- What the loop over the latency samples takes out of its ring, and where the samples go.
use lockfree_matching_engine.Prelude.{
  ℕ, zero, suc, ◌≡◌, refl, ap, ◌∙◌, Bool, true, false, ◌||◌, none, some, List, [], ◌∷◌, ◌++◌, take,
  drop,
}
use lockfree_matching_engine.Transport.SpscQueue.{try_pop}
use lockfree_matching_engine.Transport.SpscQueue.Sequential.{Contains, try_pop_lem}
use lockfree_matching_engine.Metrics.MetricsCollector.{MetricsCollector, increment_matches}
use lockfree_matching_engine.App.Engine.{
  LatencySample, match_sample, order_sample, latency_queue_size,
}
use lockfree_matching_engine.App.Output.{OutputThread, record_sample, drain_samples}

abbrev pub record_samples : List LatencySample → MetricsCollector → MetricsCollector
record_samples [] m = m
record_samples (s ∷ ss) m = record_samples ss (record_sample s m)

abbrev pub add_matches : ℕ → MetricsCollector → MetricsCollector
add_matches zero m = m
add_matches (suc n) m = add_matches n (increment_matches m)

pub record_samples-append :
    (xs ys : List LatencySample) (m : MetricsCollector)
    → record_samples (xs ++ ys) m ≡ record_samples ys (record_samples xs m)
record_samples-append [] ys m = refl
record_samples-append (x ∷ xs) ys m = record_samples-append xs ys (record_sample x m)

record_sample-increment :
    (s : LatencySample) (m : MetricsCollector)
    → record_sample s (increment_matches m) ≡ increment_matches (record_sample s m)
record_sample-increment (match_sample ns) m = refl
record_sample-increment (order_sample ns) m = refl

record_samples-increment :
    (ss : List LatencySample) (m : MetricsCollector)
    → record_samples ss (increment_matches m) ≡ increment_matches (record_samples ss m)
record_samples-increment [] m = refl
record_samples-increment (s ∷ ss) m =
    ap (record_samples ss) (record_sample-increment s m)
    ∙ record_samples-increment ss (record_sample s m)

-- Fills and samples are counted apart.
pub record_samples-add_matches :
    (ss : List LatencySample) (n : ℕ) (m : MetricsCollector)
    → record_samples ss (add_matches n m) ≡ add_matches n (record_samples ss m)
record_samples-add_matches ss zero m = refl
record_samples-add_matches ss (suc n) m =
    record_samples-add_matches ss n (increment_matches m)
    ∙ ap (add_matches n) (record_samples-increment ss m)

abbrev pub some_left : List LatencySample → Bool
some_left [] = false
some_left (s ∷ ss) = true

-- The first `n` samples are out of the ring and in the trackers, and nothing else has changed.
pub record Sampled (n : ℕ) (samples : List LatencySample) (did : Bool) (t : OutputThread)
    (r : Bool × OutputThread) : Type 0 where
  pub lat : Contains latency_queue_size r.1.lat (drop n samples)
  pub did_work : r.0 ≡ (did || some_left (take n samples))
  pub metrics : r.1.metrics ≡ record_samples (take n samples) t.metrics
  pub out : r.1.out ≡ t.out
  pub logger : r.1.logger ≡ t.logger

drain_samples-none :
    (n : ℕ) (did : Bool) (t : OutputThread)
    → (try_pop latency_queue_size t.lat).0 ≡ none
    → drain_samples (suc n) did t ≡ (did, record t { lat = (try_pop latency_queue_size t.lat).1 })
unfolding drain_samples
drain_samples-none n did t e = rw (e, drain_samples)

drain_samples-some :
    (n : ℕ) (did : Bool) (t : OutputThread) (s : LatencySample)
    → (try_pop latency_queue_size t.lat).0 ≡ some s
    → drain_samples (suc n) did t
      ≡ drain_samples n true (record t {
        lat = (try_pop latency_queue_size t.lat).1;
        metrics = record_sample s t.metrics;
      })
unfolding drain_samples
drain_samples-some n did t s e = rw (e, drain_samples)

drain_samples-zero : (did : Bool) (t : OutputThread) → drain_samples zero did t ≡ (did, t)
unfolding drain_samples
drain_samples-zero did t = refl

or_false : (b : Bool) → b ≡ (b || false)
or_false true = refl
or_false false = refl

or_true : (b c : Bool) → (true || c) ≡ (b || true)
or_true true c = refl
or_true false c = refl

pub drain_samples-Sampled :
    (n : ℕ) (samples : List LatencySample) (did : Bool) (t : OutputThread)
    → Contains latency_queue_size t.lat samples
    → Sampled n samples did t (drain_samples n did t)
drain_samples-Sampled zero samples did t c =
    rw (drain_samples-zero did t)
      (record { lat = c; did_work = or_false did; metrics = refl; out = refl; logger = refl })
drain_samples-Sampled (suc n) [] did t c =
    let (e, c') = try_pop_lem latency_queue_size t.lat [] c in
    rw (drain_samples-none n did t e)
      (record { lat = c'; did_work = or_false did; metrics = refl; out = refl; logger = refl })
drain_samples-Sampled (suc n) (s ∷ ss) did t c =
    let (e, c') = try_pop_lem latency_queue_size t.lat (s ∷ ss) c in
    let t' = record t {
      lat = (try_pop latency_queue_size t.lat).1;
      metrics = record_sample s t.metrics;
    } in
    let r = drain_samples-Sampled n ss true t' c' in
    rw (drain_samples-some n did t s e) (record {
      lat = r.lat;
      did_work = r.did_work ∙ or_true did (some_left (take n ss));
      metrics = r.metrics;
      out = r.out;
      logger = r.logger;
    })
