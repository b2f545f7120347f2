-- ===== src/Transport/SpscQueue/Machine.antt =====
-- transport/spsc_queue.h: the two threads. Each access of `head_`, `tail_` or a slot is one step, and
-- the steps of the two threads interleave in any order. (A release store is paired with an
-- acquire load of the same index, so a thread that sees an index sees the slots written before.)
use lockfree_matching_engine.Prelude.{
  ℕ, ◌+◌, ◌<◌, ◌≡◌, refl, true, false, List, [], ◌∷◌, ◌++◌, length,
}
use lockfree_matching_engine.Transport.SpscQueue.{
  SpscQueue, new_queue, reload_tail, write_slot, looks_empty, reload_head, read_slot, looks_full,
  publish_head, publish_tail,
}
use lockfree_matching_engine.Transport.SpscQueue.Ring.{IsRing, new_queue-IsRing}

-- Where a thread stands in `try_push` or `try_pop`.
pub data Producer {ℓ} (A : Type ℓ) : Type ℓ where
  idle : Producer A
  reloading writing publishing : A → Producer A

pub data Consumer {ℓ} (A : Type ℓ) : Type ℓ where
  idle reloading reading : Consumer A
  publishing : A → Consumer A

-- The queue, the threads, and the items that have gone in and come out, oldest first.
pub record Machine {ℓ} (A : Type ℓ) : Type ℓ where
  pub queue : SpscQueue A
  pub producer : Producer A
  pub consumer : Consumer A
  pub pushed : List A
  pub popped : List A

module _ {ℓ} {A : Type ℓ} (capacity : ℕ) where
  abbrev pub start : A → Machine A
  start blank = record {
    queue = new_queue blank;
    producer = Producer.idle;
    consumer = Consumer.idle;
    pushed = [];
    popped = [];
  }

  pub data Step (m : Machine A) : Machine A → Type ℓ where
    push_fast :
        (item : A)
        → m.producer ≡ Producer.idle
        → looks_full capacity m.queue ≡ false
        → Step m (record m { producer = Producer.writing item })
    push_slow :
        (item : A)
        → m.producer ≡ Producer.idle
        → looks_full capacity m.queue ≡ true
        → Step m (record m { producer = Producer.reloading item })
    push_retried :
        (item : A)
        → m.producer ≡ Producer.reloading item
        → looks_full capacity (reload_tail m.queue) ≡ false
        → Step m (record m { queue = reload_tail m.queue; producer = Producer.writing item })
    push_refused :
        (item : A)
        → m.producer ≡ Producer.reloading item
        → looks_full capacity (reload_tail m.queue) ≡ true
        → Step m (record m { queue = reload_tail m.queue; producer = Producer.idle })
    push_write :
        (item : A)
        → m.producer ≡ Producer.writing item
        → Step m (record m { queue = write_slot item m.queue; producer = Producer.publishing item })
    push_publish :
        (item : A)
        → m.producer ≡ Producer.publishing item
        → Step m (record m {
          queue = publish_head capacity m.queue;
          producer = Producer.idle;
          pushed = m.pushed ++ item ∷ [];
        })
    pop_fast :
        m.consumer ≡ Consumer.idle
        → looks_empty m.queue ≡ false
        → Step m (record m { consumer = Consumer.reading })
    pop_slow :
        m.consumer ≡ Consumer.idle
        → looks_empty m.queue ≡ true
        → Step m (record m { consumer = Consumer.reloading })
    pop_retried :
        m.consumer ≡ Consumer.reloading
        → looks_empty (reload_head m.queue) ≡ false
        → Step m (record m { queue = reload_head m.queue; consumer = Consumer.reading })
    pop_refused :
        m.consumer ≡ Consumer.reloading
        → looks_empty (reload_head m.queue) ≡ true
        → Step m (record m { queue = reload_head m.queue; consumer = Consumer.idle })
    pop_read :
        m.consumer ≡ Consumer.reading
        → Step m (record m { consumer = Consumer.publishing (read_slot m.queue) })
    pop_publish :
        (item : A)
        → m.consumer ≡ Consumer.publishing item
        → Step m (record m {
          queue = publish_tail capacity m.queue;
          consumer = Consumer.idle;
          popped = m.popped ++ item ∷ [];
        })

  pub data Steps (m : Machine A) : Machine A → Type ℓ where
    none : Steps m m
    then : {before after : Machine A} → Steps m before → Step before after → Steps m after

  -- What a thread in the middle of an operation may rely on.
  abbrev pub Producing : SpscQueue A → List A → ℕ → Producer A → Type ℓ
  Producing q items behind Producer.idle = Unit {ℓ}
  Producing q items behind (Producer.reloading item) = Unit {ℓ}
  Producing q items behind (Producer.writing item) =
      (behind + length items + 1 < capacity) × Unit {ℓ}
  Producing q items behind (Producer.publishing item) =
      (behind + length items + 1 < capacity) × (q.buffer q.head ≡ item)

  abbrev pub Consuming : List A → ℕ → Consumer A → Type ℓ
  Consuming items seen Consumer.idle = Unit {ℓ}
  Consuming items seen Consumer.reloading = Unit {ℓ}
  Consuming items seen Consumer.reading = (0 < seen) × Unit {ℓ}
  Consuming items seen (Consumer.publishing item) =
      (0 < seen) × (rest : List A) × (items ≡ item ∷ rest)

  pub record IsMachine (m : Machine A) : Type ℓ where
    pub items : List A
    pub behind : ℕ
    pub seen : ℕ
    pub ring : IsRing capacity m.queue items behind seen
    pub history : m.pushed ≡ m.popped ++ items
    pub producing : Producing m.queue items behind m.producer
    pub consuming : Consuming items seen m.consumer

  pub start-IsMachine : (blank : A) → 1 < capacity → IsMachine (start blank)
  start-IsMachine blank h = record {
    items = [];
    behind = 0;
    seen = 0;
    ring = new_queue-IsRing capacity blank h;
    history = refl;
    producing = tt;
    consuming = tt;
  }
