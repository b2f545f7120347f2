-- ===== src/Transport/SpscQueue/Moves.antt =====
-- transport/spsc_queue.h: what a step of one of the two threads keeps of the queue.
use lockfree_matching_engine.Prelude.{
  ℕ, suc, ◌+◌, ◌-◌, ◌<◌, ◌≡◌, refl, sym, ◌∙◌, ap, subst, false, arith, List, [], ◌∷◌, ◌++◌,
  append_assoc, length, ==_refl,
}
use lockfree_matching_engine.Transport.SpscQueue.{
  SpscQueue, reload_tail, looks_empty, reload_head, read_slot, looks_full, write_slot, publish_head,
  publish_tail,
}
use lockfree_matching_engine.Transport.SpscQueue.Ring.{
  IsRing, looks_full_lem, looks_empty_lem, reload_tail-IsRing, reload_head-IsRing,
  write_slot-IsRing, publish_head-IsRing, publish_tail-IsRing,
}
use lockfree_matching_engine.Transport.SpscQueue.Machine.{
  Producer, Consumer, Machine, Producing, Consuming, IsMachine,
}

module _ {ℓ} {A : Type ℓ} (capacity : ℕ) where
  -- Accesses of the other thread that change nothing for the producer.
  Producing-same :
      (q q' : SpscQueue A) (items : List A) (behind : ℕ) (p : Producer A)
      → q'.head ≡ q.head
      → q'.buffer ≡ q.buffer
      → Producing capacity q items behind p
      → Producing capacity q' items behind p
  Producing-same q q' items behind Producer.idle h b d = tt
  Producing-same q q' items behind (Producer.reloading item) h b d = tt
  Producing-same q q' items behind (Producer.writing item) h b d = d
  Producing-same q q' items behind (Producer.publishing item) h b d = (d.0, rw (h, b) d.1)

  -- An item that leaves gives the producer room.
  Producing-popped :
      (q : SpscQueue A) (x : A) (xs : List A) (behind : ℕ) (p : Producer A)
      → Producing capacity q (x ∷ xs) behind p
      → Producing capacity (publish_tail capacity q) xs (behind + 1) p
  Producing-popped q x xs behind Producer.idle d = tt
  Producing-popped q x xs behind (Producer.reloading item) d = tt
  Producing-popped q x xs behind (Producer.writing item) d = (omega (arith, d.0), tt)
  Producing-popped q x xs behind (Producer.publishing item) d = (omega (arith, d.0), d.1)

  Consuming-pushed :
      (items : List A) (item : A) (seen : ℕ) (c : Consumer A)
      → Consuming capacity items seen c
      → Consuming capacity (items ++ item ∷ []) seen c
  Consuming-pushed items item seen Consumer.idle d = tt
  Consuming-pushed items item seen Consumer.reloading d = tt
  Consuming-pushed items item seen Consumer.reading d = d
  Consuming-pushed items item seen (Consumer.publishing x) d =
      let (some_seen, rest, e) = d in (some_seen, rest ++ item ∷ [], ap (λ xs. xs ++ item ∷ []) e)

  module _ (q : SpscQueue A) (items : List A) (behind seen : ℕ)
      (v : IsRing capacity q items behind seen) where
    pub has_room : looks_full capacity q ≡ false → behind + length items + 1 < capacity
    has_room h = let e = looks_full_lem capacity q items behind seen v in ground (arith, v.room)

    pub has_item : looks_empty q ≡ false → 0 < seen
    has_item h = let e = looks_empty_lem capacity q items behind seen v in ground arith

  -- The consumer reads the oldest item.
  pub first_item :
      (q : SpscQueue A) (items : List A) (behind seen : ℕ)
      → IsRing capacity q items behind seen
      → 0 < seen
      → (rest : List A) × (items ≡ read_slot q ∷ rest)
  first_item q [] behind seen v h = absurd (omega (arith, v.seen_some))
  first_item q (x ∷ xs) behind seen v h = (xs, ap (λ y. y ∷ xs) (sym v.slots.0))

  pub step_publish_tail :
      (m : Machine A) (v : IsMachine capacity m) (item : A)
      → m.consumer ≡ Consumer.publishing item
      → IsMachine capacity (record m {
        queue = publish_tail capacity m.queue;
        consumer = Consumer.idle;
        popped = m.popped ++ item ∷ [];
      })
  step_publish_tail m v item c =
      let (some_seen, rest, e) = subst (Consuming capacity v.items v.seen) c v.consuming in
      let seen_is : v.seen ≡ suc (v.seen - 1) = omega arith in
      let ring =
        subst (λ k. IsRing capacity m.queue (item ∷ rest) v.behind k) seen_is
          (subst (λ xs. IsRing capacity m.queue xs v.behind v.seen) e v.ring) in
      record {
        items = rest;
        behind = v.behind + 1;
        seen = v.seen - 1;
        ring = publish_tail-IsRing capacity m.queue item rest v.behind (v.seen - 1) ring;
        history =
            v.history ∙ ap (λ xs. m.popped ++ xs) e ∙ sym (append_assoc m.popped (item ∷ []) rest);
        producing =
            Producing-popped m.queue item rest v.behind m.producer
              (subst (λ xs. Producing capacity m.queue xs v.behind m.producer) e v.producing);
        consuming = tt;
      }

  -- The producer goes on, in what it may rely on.
  pub producer_moves :
      (m : Machine A) (v : IsMachine capacity m) (p : Producer A)
      → Producing capacity m.queue v.items v.behind p
      → IsMachine capacity (record m { producer = p })
  producer_moves m v p d = record {
    items = v.items;
    behind = v.behind;
    seen = v.seen;
    ring = v.ring;
    history = v.history;
    producing = d;
    consuming = v.consuming;
  }

  -- The producer reloads the tail first: it has seen all that the consumer took.
  pub producer_reloads :
      (m : Machine A) (v : IsMachine capacity m) (p : Producer A)
      → Producing capacity (reload_tail m.queue) v.items 0 p
      → IsMachine capacity (record m { queue = reload_tail m.queue; producer = p })
  producer_reloads m v p d = record {
    items = v.items;
    behind = 0;
    seen = v.seen;
    ring = reload_tail-IsRing capacity m.queue v.items v.behind v.seen v.ring;
    history = v.history;
    producing = d;
    consuming = v.consuming;
  }

  pub consumer_moves :
      (m : Machine A) (v : IsMachine capacity m) (c : Consumer A)
      → Consuming capacity v.items v.seen c
      → IsMachine capacity (record m { consumer = c })
  consumer_moves m v c d = record {
    items = v.items;
    behind = v.behind;
    seen = v.seen;
    ring = v.ring;
    history = v.history;
    producing = v.producing;
    consuming = d;
  }

  pub consumer_reloads :
      (m : Machine A) (v : IsMachine capacity m) (c : Consumer A)
      → Consuming capacity v.items (length v.items) c
      → IsMachine capacity (record m { queue = reload_head m.queue; consumer = c })
  consumer_reloads m v c d = record {
    items = v.items;
    behind = v.behind;
    seen = length v.items;
    ring = reload_head-IsRing capacity m.queue v.items v.behind v.seen v.ring;
    history = v.history;
    producing =
        Producing-same m.queue (reload_head m.queue) v.items v.behind m.producer refl refl
          v.producing;
    consuming = d;
  }

  pub step_write :
      (m : Machine A) (v : IsMachine capacity m) (item : A)
      → m.producer ≡ Producer.writing item
      → IsMachine capacity
          (record m { queue = write_slot item m.queue; producer = Producer.publishing item })
  step_write m v item p =
      let d = subst (Producing capacity m.queue v.items v.behind) p v.producing in
      record {
        items = v.items;
        behind = v.behind;
        seen = v.seen;
        ring = write_slot-IsRing capacity m.queue v.items v.behind v.seen v.ring item;
        history = v.history;
        producing = (d.0, rw ==_refl);
        consuming = v.consuming;
      }

  pub step_publish_head :
      (m : Machine A) (v : IsMachine capacity m) (item : A)
      → m.producer ≡ Producer.publishing item
      → IsMachine capacity (record m {
        queue = publish_head capacity m.queue;
        producer = Producer.idle;
        pushed = m.pushed ++ item ∷ [];
      })
  step_publish_head m v item p =
      let d = subst (Producing capacity m.queue v.items v.behind) p v.producing in
      record {
        items = v.items ++ item ∷ [];
        behind = v.behind;
        seen = v.seen;
        ring = publish_head-IsRing capacity m.queue v.items v.behind v.seen v.ring item d.1 d.0;
        history = ap (λ xs. xs ++ item ∷ []) v.history ∙ append_assoc m.popped v.items (item ∷ []);
        producing = tt;
        consuming = Consuming-pushed v.items item v.seen m.consumer v.consuming;
      }
