-- ===== src/App/Output/Drain.antt =====
-- What the parts of a round of the output thread take out of the rings, and where it goes.
use lockfree_matching_engine.Prelude.{
  ℕ, ◌≡◌, refl, sym, ap, ◌∙◌, subst, Bool, true, false, Option, none, some, some-injective, List,
  [], ◌∷◌, ◌++◌, length, take, drop, append-nil, if◌then◌else◌, add64,
}
use lockfree_matching_engine.Transport.Message.{FillMessage, OutputMessage, fill, book_update}
use lockfree_matching_engine.Transport.SpscQueue.{SpscQueue}
use lockfree_matching_engine.Transport.SpscQueue.Sequential.{Contains, Popped}
use lockfree_matching_engine.Feed.CoinbaseFeed.{feed_queue_size}
use lockfree_matching_engine.Metrics.MetricsCollector.{increment_matches}
use lockfree_matching_engine.Metrics.TradeLogger.{TradeLogger, log, append_record}
use lockfree_matching_engine.Server.DashboardHub.{DashboardHub, Stats}
use lockfree_matching_engine.App.Engine.{LatencySample, latency_queue_size}
use lockfree_matching_engine.App.Output.{
  OutputThread, OutputReading, keep_row, handle_fill, handle_output, publish_pending,
  publish_dashboard, check_timers,
}
use lockfree_matching_engine.App.Output.Samples.{record_samples, add_matches}

abbrev pub fills_in : List OutputMessage → List FillMessage
fills_in [] = []
fills_in (fill f ∷ ms) = f ∷ fills_in ms
fills_in (book_update u ∷ ms) = fills_in ms

-- The rings hold these items.
pub record Holding (outs : List OutputMessage) (samples : List LatencySample) (t : OutputThread)
    : Type 0 where
  pub out : Contains feed_queue_size t.out outs
  pub lat : Contains latency_queue_size t.lat samples
  pub log_open : t.logger.is_open ≡ true

-- Fills have gone into the log in their order, and both they and the samples into the metrics.
pub record Consumed (fills : List FillMessage) (samples : List LatencySample) (t t' : OutputThread)
    : Type 0 where
  pub records : t'.logger.file.records ≡ t.logger.file.records ++ fills
  pub metrics : t'.metrics ≡ record_samples samples (add_matches (length fills) t.metrics)

-- The rings, the log and the metrics are left alone.
pub record Same (t t' : OutputThread) : Type 0 where
  pub out : t'.out ≡ t.out
  pub lat : t'.lat ≡ t.lat
  pub logger : t'.logger ≡ t.logger
  pub metrics : t'.metrics ≡ t.metrics

Same-refl : (t : OutputThread) → Same t t
Same-refl t = record { out = refl; lat = refl; logger = refl; metrics = refl }

keep_row-Same :
    (now_ms : ℕ) (f : FillMessage) (hub : Option DashboardHub) (t : OutputThread)
    → Same t (keep_row now_ms f hub t)
keep_row-Same now_ms f none t = Same-refl t
keep_row-Same now_ms f (some hub) t = record {
  out = refl;
  lat = refl;
  logger = refl;
  metrics = refl;
}

publish_pending-Same :
    (stats : Stats) (hub : Option DashboardHub) (t : OutputThread)
    → Same t (publish_pending stats hub t)
publish_pending-Same stats none t = Same-refl t
publish_pending-Same stats (some hub) t = record {
  out = refl;
  lat = refl;
  logger = refl;
  metrics = refl;
}

publish_dashboard-Same : (r : OutputReading) (t : OutputThread) → Same t (publish_dashboard r t)
unfolding publish_dashboard
publish_dashboard-Same r t = publish_pending-Same _ t.hub t

pub check_timers-Same :
    (r : OutputReading) (did : Bool) (t : OutputThread) → Same t (check_timers r did t)
unfolding check_timers
check_timers-Same r did t = guarded _ (ticked did)
  where
    tick : OutputThread
    tick = if did then record t { iter = add64 t.iter 1 } else t

    ticked : (d : Bool) → Same t (if d then record t { iter = add64 t.iter 1 } else t)
    ticked true = record { out = refl; lat = refl; logger = refl; metrics = refl }
    ticked false = Same-refl t

    guarded :
        (due : Bool) {t1 : OutputThread}
        → Same t t1
        → Same t (if due then publish_dashboard r t1 else t1)
    guarded true {t1} s =
        let p = publish_dashboard-Same r t1 in
        record {
          out = p.out ∙ s.out;
          lat = p.lat ∙ s.lat;
          logger = p.logger ∙ s.logger;
          metrics = p.metrics ∙ s.metrics;
        }
    guarded false s = s

abbrev pub any_left : List OutputMessage → Bool
any_left [] = false
any_left (m ∷ ms) = true

-- One message, if there is one, is out of its ring and dealt with.
pub record Dealt (outs : List OutputMessage) (t : OutputThread) (r : Bool × OutputThread)
    : Type 0 where
  pub did_work : r.0 ≡ any_left outs
  pub out : Contains feed_queue_size r.1.out (drop 1 outs)
  pub lat : r.1.lat ≡ t.lat
  pub log_open : r.1.logger.is_open ≡ true
  pub consumed : Consumed (fills_in (take 1 outs)) [] t r.1

log-written :
    (f : FillMessage) (wrote : Bool) (l : TradeLogger)
    → l.is_open ≡ true
    → wrote ≡ true
    → log wrote f l
      ≡ record l { file = append_record f l.file; total_logged = add64 l.total_logged 1 }
unfolding log
log-written f wrote l open_log h = rw (h, open_log)

handle_fill-Dealt :
    (r : OutputReading) (f : FillMessage) (outs : List OutputMessage) (q : SpscQueue OutputMessage)
    (t : OutputThread)
    → Contains feed_queue_size q outs
    → t.logger.is_open ≡ true
    → r.wrote ≡ true
    → Dealt (fill f ∷ outs) t (true, handle_fill r f (record t { out = q }))
unfolding handle_fill
handle_fill-Dealt r f outs q t c open_log wrote =
    let written = log-written f r.wrote t.logger open_log wrote in
    let t1 = record t {
      out = q;
      logger = log r.wrote f t.logger;
      metrics = increment_matches t.metrics;
      tape_printed = add64 t.tape_printed 1;
    } in
    let s = keep_row-Same r.now_ms f t.hub t1 in
    record {
      did_work = refl;
      out = subst (λ q'. Contains feed_queue_size q' outs) (sym s.out) c;
      lat = s.lat;
      log_open = ap (λ (l : TradeLogger). l.is_open) (s.logger ∙ written) ∙ open_log;
      consumed = record {
        records = ap (λ (l : TradeLogger). l.file.records) (s.logger ∙ written);
        metrics = s.metrics;
      };
    }

pub handle_output-Dealt :
    (r : OutputReading) (outs : List OutputMessage)
    (p : Option OutputMessage × SpscQueue OutputMessage) (t : OutputThread)
    → Popped feed_queue_size outs p
    → t.logger.is_open ≡ true
    → r.wrote ≡ true
    → Dealt outs t (handle_output r p t)
handle_output-Dealt r [] (none, q) t h open_log wrote = record {
  did_work = refl;
  out = h.1;
  lat = refl;
  log_open = open_log;
  consumed = record { records = sym (append-nil t.logger.file.records); metrics = refl };
}
handle_output-Dealt r [] (some m, q) t h open_log wrote = cc
handle_output-Dealt r (x ∷ outs) (none, q) t h open_log wrote = cc
handle_output-Dealt r (x ∷ outs) (some (fill f), q) t h open_log wrote =
    subst (λ m. Dealt (m ∷ outs) t (handle_output r (some (fill f), q) t))
      (some-injective (fill f) x h.0) (handle_fill-Dealt r f outs q t h.1 open_log wrote)
handle_output-Dealt r (x ∷ outs) (some (book_update u), q) t h open_log wrote =
    subst (λ m. Dealt (m ∷ outs) t (handle_output r (some (book_update u), q) t))
      (some-injective (book_update u) x h.0)
      (record {
        did_work = refl;
        out = h.1;
        lat = refl;
        log_open = open_log;
        consumed = record { records = sym (append-nil t.logger.file.records); metrics = refl };
      })
