-- ===== src/App/Pipeline.antt =====
-- src/main.cpp: a thread behind a ring and how `main` shuts it down. The engine thread behind the
-- ingest thread, and the output thread behind the engine thread, have the same shape: a failed pop,
-- then a load of the stop flag, which `main` raises when the thread in front is joined.
pub mod Shutdown
pub mod Closing
pub mod Rounds
pub mod OutputRounds
use lockfree_matching_engine.Prelude.{
  ℕ, ◌+◌, ◌<◌, ◌≡◌, ◌⊎◌, Bool, true, false, List, [], ◌∷◌, ◌++◌, length,
}

-- Where the worker stands: before its pop, between a failed pop and the load of the flag, or behind
-- its loop.
pub data WorkerAt : Type 0 where
  looping missed ended : WorkerAt

-- `sent`, `handled` and `late` are kept for the statements: what went into the ring, what came out,
-- and what went in since the last pop failed.
pub record Stage (A : Type 0) : Type 0 where
  pub ring : List A
  pub producer_done : Bool
  pub stop : Bool
  pub worker : WorkerAt
  pub sent : List A
  pub handled : List A
  pub late : List A

abbrev pub new_stage : {A : Type 0} → Stage A
new_stage = record {
  ring = [];
  producer_done = false;
  stop = false;
  worker = looping;
  sent = [];
  handled = [];
  late = [];
}

-- `other_ring` is whether the worker drains another ring too: it loads the flag only if it found
-- nothing there either, and else goes on though the flag may be up.
module _ {A : Type 0} (capacity : ℕ) (other_ring : Bool) where
  abbrev pub pushed : A → Stage A → Stage A
  pushed m s = record s {
    ring = s.ring ++ m ∷ [];
    sent = s.sent ++ m ∷ [];
    late = s.late ++ m ∷ [];
  }

  abbrev pub popped : A → List A → Stage A → Stage A
  popped m ms s = record s { ring = ms; handled = s.handled ++ m ∷ []; worker = looping }

  abbrev pub failed_pop : Stage A → Stage A
  failed_pop s = record s { worker = missed; late = [] }

  -- A step of one of the three threads. The producer does not push after its end, and `main` raises
  -- the flag after it has joined the producer.
  pub data Step : Stage A → Stage A → Type 0 where
    push :
        (m : A) (s : Stage A)
        → s.producer_done ≡ false
        → length s.ring + 1 < capacity
        → Step s (pushed m s)
    finish : (s : Stage A) → Step s (record s { producer_done = true })
    raise_stop : (s : Stage A) → s.producer_done ≡ true → Step s (record s { stop = true })
    pop :
        (m : A) (ms : List A) (s : Stage A)
        → s.worker ≡ looping
        → s.ring ≡ m ∷ ms
        → Step s (popped m ms s)
    miss : (s : Stage A) → s.worker ≡ looping → s.ring ≡ [] → Step s (failed_pop s)
    retry :
        (s : Stage A)
        → s.worker ≡ missed
        → (s.stop ≡ false) ⊎ (other_ring ≡ true)
        → Step s (record s { worker = looping })
    leave : (s : Stage A) → s.worker ≡ missed → s.stop ≡ true → Step s (record s { worker = ended })

  pub data Steps (s : Stage A) : Stage A → Type 0 where
    here : Steps s s
    next : {t u : Stage A} → Steps s t → Step t u → Steps s u
