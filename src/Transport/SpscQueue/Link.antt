-- ===== src/Transport/SpscQueue/Link.antt =====
-- `SPSCQueue::try_push` and `try_pop` are the steps of a thread, one after the other.
use lockfree_matching_engine.Prelude.{
  ◌≡◌, refl, Bool, true, false, Option, [], ◌∷◌, ◌++◌, Bool-cases, inl, inr, ℕ, some, none,
}
use lockfree_matching_engine.Transport.SpscQueue.{
  SpscQueue, reload_tail, looks_empty, reload_head, read_slot, looks_full, store_item, load_item,
  try_push, try_pop,
}
use lockfree_matching_engine.Transport.SpscQueue.Machine.{Producer, Consumer, Machine, Step, Steps}

module _ {ℓ} {A : Type ℓ} (capacity : ℕ) where
  -- A machine after an operation of one thread, with the items that the operation moved.
  abbrev pub after_push : Machine A → A → Bool × SpscQueue A → Machine A
  after_push m item (true, q) = record m {
    queue = q;
    producer = Producer.idle;
    pushed = m.pushed ++ item ∷ [];
  }
  after_push m item (false, q) = record m { queue = q; producer = Producer.idle }

  abbrev pub after_pop : Machine A → Option A × SpscQueue A → Machine A
  after_pop m (some item, q) = record m {
    queue = q;
    consumer = Consumer.idle;
    popped = m.popped ++ item ∷ [];
  }
  after_pop m (none, q) = record m { queue = q; consumer = Consumer.idle }

  stores :
      (m m' : Machine A) (item : A)
      → Steps capacity m (record m' { producer = Producer.writing item })
      → Steps capacity m (after_push m' item (store_item capacity item m'.queue))
  stores m m' item s =
      Steps.then (Steps.then s (Step.push_write item refl)) (Step.push_publish item refl)

  -- In a state whose producer is idle, the steps of the producer can run one after the other
  -- from a call of `try_push` to its return, and they end with the queue that `try_push` leaves,
  -- and with the item among those that went in exactly if it returns true.
  pub try_push-Steps :
      (m : Machine A) (item : A)
      → m.producer ≡ Producer.idle
      → Steps capacity m (after_push m item (try_push capacity item m.queue))
  unfolding try_push
  try_push-Steps m item idle = elim (Bool-cases (looks_full capacity m.queue)) [
    | inr room ↦ rw room (stores m m item (Steps.then Steps.none (Step.push_fast item idle room)))
    | inl full ↦ elim (Bool-cases (looks_full capacity (reload_tail m.queue))) [
      | inl still ↦
          rw (full, still)
            (Steps.then (Steps.then Steps.none (Step.push_slow item idle full))
              (Step.push_refused item refl still))
      | inr room ↦
          rw (full, room)
            (stores m (record m { queue = reload_tail m.queue }) item
              (Steps.then (Steps.then Steps.none (Step.push_slow item idle full))
                (Step.push_retried item refl room)))
    ]
  ]

  loads :
      (m m' : Machine A)
      → Steps capacity m (record m' { consumer = Consumer.reading })
      → Steps capacity m (after_pop m' (load_item capacity m'.queue))
  loads m m' s =
      Steps.then (Steps.then s (Step.pop_read refl)) (Step.pop_publish (read_slot m'.queue) refl)

  -- In a state whose consumer is idle, the steps of the consumer can run one after the other
  -- from a call of `try_pop` to its return, and they end with the queue that `try_pop` leaves,
  -- and with the item that it returns, if any, among those that came out.
  pub try_pop-Steps :
      (m : Machine A)
      → m.consumer ≡ Consumer.idle
      → Steps capacity m (after_pop m (try_pop capacity m.queue))
  unfolding try_pop
  try_pop-Steps m idle = elim (Bool-cases (looks_empty m.queue)) [
    | inr seen ↦ rw seen (loads m m (Steps.then Steps.none (Step.pop_fast idle seen)))
    | inl stale ↦ elim (Bool-cases (looks_empty (reload_head m.queue))) [
      | inl still ↦
          rw (stale, still)
            (Steps.then (Steps.then Steps.none (Step.pop_slow idle stale))
              (Step.pop_refused refl still))
      | inr found ↦
          rw (stale, found)
            (loads m (record m { queue = reload_head m.queue })
              (Steps.then (Steps.then Steps.none (Step.pop_slow idle stale))
                (Step.pop_retried refl found)))
    ]
  ]
