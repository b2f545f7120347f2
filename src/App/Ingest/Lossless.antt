-- ===== src/App/Ingest/Lossless.antt =====
-- The synthetic ingest thread loses no message.
use lockfree_matching_engine.Prelude.{
  ◌+◌, ◌%◌, ◌^◌, ◌≡◌, ◌≢◌, refl, sym, ◌∙◌, ap₂, append-nil, subst, Bool, true, false, List, [], ◌∷◌,
  ◌++◌, append_assoc, length, if◌then◌else◌, add64, arith,
}
use lockfree_matching_engine.Transport.Message.{EngineMessage}
use lockfree_matching_engine.Transport.Intake.{with_time}
use lockfree_matching_engine.Transport.SpscQueue.Sequential.{Contains}
use lockfree_matching_engine.Feed.CoinbaseFeed.{feed_queue_size, stamp}
use lockfree_matching_engine.Feed.CoinbaseFeed.Batch.{stamp-with_time}
use lockfree_matching_engine.Tools.SyntheticWorkload.{WorkloadGenerator, next}
use lockfree_matching_engine.App.Ingest.{
  IngestThread, Round, pushed, returned, waiting, Tried, after_wait, run_synthetic_ingest,
}
use lockfree_matching_engine.App.Ingest.Waiting.{
  Delivers, Delivers-after, none_more, Waited, push_wait-Waited, Served, push_wait-pushed,
}

-- In every round the flag is down until the message is in.
abbrev pub AllServed : List Round → Type 0
AllServed [] = Unit {0}
AllServed (r ∷ rs) = (r.shutdown ≡ false) × Served r.attempts × AllServed rs

-- The messages that the generator makes in these rounds, each with the clock of its round.
abbrev pub flow : List Round → WorkloadGenerator → List EngineMessage
flow [] g = []
flow (r ∷ rs) g = with_time r.now (next r.draw g).1 ∷ flow rs (next r.draw g).0

-- The ring held `old`, and then the pops returned `got`. The first messages of the flow went in behind them, and nothing else, and
-- each of them was counted. If the engine thread pops often enough, the whole flow did.
pub record Ingested (rounds : List Round) (old : List EngineMessage) (t t' : IngestThread)
    : Type 0 where
  pub got : List EngineMessage
  pub messages : List EngineMessage
  pub unsent : List EngineMessage
  pub first : messages ++ unsent ≡ flow rounds t.gen
  pub logged : t'.taken ≡ t.taken ++ got
  pub delivered : Delivers got t'.input (old ++ messages)
  pub counted : t'.ingested % 2 ^ 64 ≡ (t.ingested + length messages) % 2 ^ 64
  pub complete : AllServed rounds → unsent ≡ []

Ingested-nothing :
    (rounds : List Round) (old got : List EngineMessage) (t t' : IngestThread)
    → t'.taken ≡ t.taken ++ got
    → t'.ingested ≡ t.ingested
    → (AllServed rounds → flow rounds t.gen ≡ [])
    → Delivers got t'.input (old ++ [])
    → Ingested rounds old t t'
Ingested-nothing rounds old got t t' log e all d = record {
  got = got;
  messages = [];
  unsent = flow rounds t.gen;
  first = refl;
  logged = log;
  delivered = d;
  counted = omega (arith, e);
  complete = all;
}

returned-late : returned ≢ pushed
returned-late e = cc

waiting-late : waiting ≢ pushed
waiting-late e = cc

by_wait :
    (r : Round) (rs : List Round) (old : List EngineMessage) (t : IngestThread) (w : Tried)
    (rest : IngestThread → Bool × IngestThread)
    → Waited old (stamp r.now (next r.draw t.gen).1) w
    → (Served r.attempts → w.0 ≡ pushed)
    → ((left : List EngineMessage) (u : IngestThread)
        → Contains feed_queue_size u.input left
        → Ingested rs left u (rest u).1)
    → Ingested (r ∷ rs) old t (after_wait (next r.draw t.gen).0 w t rest).1
by_wait r rs old t (pushed, got, q) rest d in_time more =
    let msg = stamp r.now (next r.draw t.gen).1 in
    let u : IngestThread = record {
      input = q;
      gen = (next r.draw t.gen).0;
      ingested = add64 t.ingested 1;
      taken = t.taken ++ got;
    } in
    let i = more d.left u d.holds in
    record {
      got = got ++ i.got;
      messages = msg ∷ i.messages;
      unsent = i.unsent;
      first = ap₂ (◌∷◌) (stamp-with_time r.now (next r.draw t.gen).1) i.first;
      logged = i.logged ∙ append_assoc t.taken got i.got;
      delivered =
          subst (Delivers (got ++ i.got) (rest u).1.input) (append_assoc old (msg ∷ []) i.messages)
            (Delivers-after i.got (rest u).1.input got d.left i.messages (old ++ msg ∷ [])
              d.in_order i.delivered);
      counted = omega (arith, i.counted);
      complete = λ s. i.complete s.2;
    }
by_wait r rs old t (returned, got, q) rest d in_time more =
    Ingested-nothing (r ∷ rs) old got t _ refl refl (λ s. absurd (returned-late (in_time s.1))) d
by_wait r rs old t (waiting, got, q) rest d in_time more =
    Ingested-nothing (r ∷ rs) old got t _ refl refl (λ s. absurd (waiting-late (in_time s.1))) d

by_flag :
    (b : Bool) (rounds : List Round) (old : List EngineMessage) (t : IngestThread)
    (looped : Bool × IngestThread)
    → Contains feed_queue_size t.input old
    → (AllServed rounds → b ≡ false)
    → Ingested rounds old t looped.1
    → Ingested rounds old t (if b then (true, t) else looped).1
by_flag true rounds old t looped c down i =
    Ingested-nothing rounds old [] t t (sym (append-nil t.taken)) refl
      (λ s. absurd (true_false (down s))) (none_more t.input old c)
  where
    true_false : true ≢ false
    true_false e = cc
by_flag false rounds old t looped c down i = i

-- For a ring that holds some messages and any rounds of `run_synthetic_ingest`, with any pops of
-- the engine thread between its attempts: what the engine thread's pops returned, followed by
-- what the ring then holds, is what the ring held followed by the first messages of the
-- generator's flow, each with the clock's time as its timestamp, in order and without a gap;
-- `ingested` has counted them, modulo 2^64; and if in every round the shutdown flag is down
-- until the engine thread has popped before an attempt, these are all the messages of the flow.
pub run_synthetic_ingest-Ingested :
    (rounds : List Round) (old : List EngineMessage) (t : IngestThread)
    → Contains feed_queue_size t.input old
    → Ingested rounds old t (run_synthetic_ingest rounds t).1
unfolding run_synthetic_ingest
run_synthetic_ingest-Ingested [] old t c =
    Ingested-nothing [] old [] t t (sym (append-nil t.taken)) refl (λ s. refl)
      (none_more t.input old c)
run_synthetic_ingest-Ingested (r ∷ rs) old t c =
    let msg = stamp r.now (next r.draw t.gen).1 in
    by_flag r.shutdown (r ∷ rs) old t _ c (λ s. s.0)
      (by_wait r rs old t _ (run_synthetic_ingest rs)
        (push_wait-Waited r.attempts msg t.input old c)
        (push_wait-pushed r.attempts msg t.input old c)
        λ left u d. run_synthetic_ingest-Ingested rs left u d)
