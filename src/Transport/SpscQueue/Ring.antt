-- ===== src/Transport/SpscQueue/Ring.antt =====
-- transport/spsc_queue.h: what the ring holds, and what each access does to that.
use lockfree_matching_engine.Prelude.{
  ℕ, zero, suc, ◌+◌, ◌-◌, ◌%◌, ◌≤◌, ◌<◌, ◌≡◌, sym, ◌∙◌, ap, subst, false, arith, List, [], ◌∷◌,
  ◌++◌, length, length-append, ◌==◌, inl, inr, update, wrap-lt, wrap-wrap, wrap-zero, wrap-round,
  wrap-differs, wrapped, wrap-suc, wrap-small, wrap-around,
}
use lockfree_matching_engine.Transport.SpscQueue.{
  SpscQueue, new_queue, next_index, reload_tail, write_slot, looks_empty, reload_head, read_slot,
  looks_full, publish_head, publish_tail, size,
}

module _ {ℓ} {A : Type ℓ} (capacity : ℕ) where
  -- The items stand in the slots from index `i` on.
  abbrev pub Slots : (ℕ → A) → ℕ → List A → Type ℓ
  Slots buffer i [] = Unit {ℓ}
  Slots buffer i (x ∷ xs) = (buffer i ≡ x) × Slots buffer (next_index capacity i) xs

  -- The ring holds `items`, oldest first. Since the producer's last look at `tail_` the consumer
  -- has taken `behind` items; of the items, the consumer has seen `seen`.
  pub record IsRing (q : SpscQueue A) (items : List A) (behind seen : ℕ) : Type ℓ where
    pub slots : Slots q.buffer q.tail items
    pub head : q.head ≡ (q.tail + length items) % capacity
    pub tail : q.tail ≡ (q.tail_cache + behind) % capacity
    pub head_cache : q.head_cache ≡ (q.tail + seen) % capacity
    pub tail_cache_in : q.tail_cache < capacity
    pub room : behind + length items < capacity
    pub seen_some : seen ≤ length items

  -- A write ahead of the items leaves their slots alone.
  Slots-write :
      (buffer : ℕ → A) (i : ℕ) (xs : List A) (item : A) (k : ℕ)
      → i < capacity
      → length xs ≤ k
      → k < capacity
      → Slots buffer i xs
      → Slots (update buffer ((i + k) % capacity) item) i xs
  Slots-write buffer i [] item k h l m s = tt
  Slots-write buffer i (x ∷ xs) item zero h l m s = absurd (omega arith)
  Slots-write buffer i (x ∷ xs) item (suc k) h l m s =
      let differs : (i == (i + suc k) % capacity) ≡ false =
        rw (wrap-zero capacity i h) at
          (wrap-differs capacity i 0 (suc k) h (omega arith) m (ground arith)) in
      let same : ((i + 1) % capacity + k) % capacity ≡ (i + suc k) % capacity =
        wrap-suc capacity i k in
      (
        rw differs s.0,
        subst (λ j. Slots (update buffer j item) (next_index capacity i) xs) same
            (Slots-write buffer (next_index capacity i) xs item k (wrap-lt capacity i 1 h)
              (omega arith) (omega arith) s.1),
      )

  Slots-append :
      (buffer : ℕ → A) (i : ℕ) (xs : List A) (item : A)
      → i < capacity
      → Slots buffer i xs
      → buffer ((i + length xs) % capacity) ≡ item
      → Slots buffer i (xs ++ item ∷ [])
  Slots-append buffer i [] item h s e = (ap buffer (sym (wrap-zero capacity i h)) ∙ e, tt)
  Slots-append buffer i (x ∷ xs) item h s e = (
    s.0,
    Slots-append buffer (next_index capacity i) xs item (wrap-lt capacity i 1 h) s.1
        (ap buffer (wrap-suc capacity i (length xs)) ∙ e),
  )

  module _ (q : SpscQueue A) (items : List A) (behind seen : ℕ)
      (v : IsRing q items behind seen) where
    pub tail_in : q.tail < capacity
    tail_in = rw v.tail (wrap-lt capacity q.tail_cache behind v.tail_cache_in)

    head_in : q.head < capacity
    head_in = rw v.head (wrap-lt capacity q.tail (length items) tail_in)

    pub looks_full_lem : looks_full capacity q ≡ ((behind + length items + 1) == capacity)
    looks_full_lem =
        let a : next_index capacity q.head
            ≡ (q.tail_cache + (behind + (length items + 1))) % capacity =
          ap (next_index capacity) v.head
          ∙ wrap-wrap capacity q.tail (length items) 1
          ∙ ap (λ t. (t + (length items + 1)) % capacity) v.tail
          ∙ wrap-wrap capacity q.tail_cache behind (length items + 1) in
        let le : behind + (length items + 1) ≤ capacity = omega (arith, v.room) in
        let e = wrap-round capacity q.tail_cache (behind + (length items + 1)) v.tail_cache_in le in
        rw (a, e) (ground arith)

    pub looks_empty_lem : looks_empty q ≡ (seen == 0)
    looks_empty_lem =
        let le : seen ≤ capacity = omega (arith, v.room, v.seen_some) in
        let e = wrap-round capacity q.tail seen tail_in le in
        rw v.head_cache (ground (arith, v.room, v.seen_some))

    pub reload_tail-IsRing : IsRing (reload_tail q) items 0 seen
    reload_tail-IsRing = record {
      slots = v.slots;
      head = v.head;
      tail = sym (wrap-zero capacity q.tail tail_in);
      head_cache = v.head_cache;
      tail_cache_in = tail_in;
      room = omega (arith, v.room);
      seen_some = v.seen_some;
    }

    pub reload_head-IsRing : IsRing (reload_head q) items behind (length items)
    reload_head-IsRing = record {
      slots = v.slots;
      head = v.head;
      tail = v.tail;
      head_cache = v.head;
      tail_cache_in = v.tail_cache_in;
      room = v.room;
      seen_some = omega arith;
    }

    -- A write to the slot at `head_` touches no item.
    pub write_slot-IsRing : (item : A) → IsRing (write_slot item q) items behind seen
    write_slot-IsRing item = record {
      slots =
          subst (λ h. Slots (update q.buffer h item) q.tail items) (sym v.head)
            (Slots-write q.buffer q.tail items item (length items) tail_in (omega arith)
              (omega (arith, v.room)) v.slots);
      head = v.head;
      tail = v.tail;
      head_cache = v.head_cache;
      tail_cache_in = v.tail_cache_in;
      room = v.room;
      seen_some = v.seen_some;
    }

    pub publish_head-IsRing :
        (item : A)
        → q.buffer q.head ≡ item
        → behind + length items + 1 < capacity
        → IsRing (publish_head capacity q) (items ++ item ∷ []) behind seen
    publish_head-IsRing item written room = record {
      slots =
          Slots-append q.buffer q.tail items item tail_in v.slots
            (ap q.buffer (sym v.head) ∙ written);
      head =
          ap (next_index capacity) v.head
          ∙ wrap-wrap capacity q.tail (length items) 1
          ∙ ap (λ k. (q.tail + k) % capacity) (sym (length-append items (item ∷ [])));
      tail = v.tail;
      head_cache = v.head_cache;
      tail_cache_in = v.tail_cache_in;
      room = omega (arith, length-append items (item ∷ []));
      seen_some = omega (arith, length-append items (item ∷ []), v.seen_some);
    }

  -- A read of the slot at `tail_` gives the oldest item.
  pub read_slot-IsRing :
      (q : SpscQueue A) (x : A) (xs : List A) (behind seen : ℕ)
      → IsRing q (x ∷ xs) behind seen
      → read_slot q ≡ x
  read_slot-IsRing q x xs behind seen v = v.slots.0

  pub publish_tail-IsRing :
      (q : SpscQueue A) (x : A) (xs : List A) (behind seen : ℕ)
      → IsRing q (x ∷ xs) behind (suc seen)
      → IsRing (publish_tail capacity q) xs (behind + 1) seen
  publish_tail-IsRing q x xs behind seen v = record {
    slots = v.slots.1;
    head = v.head ∙ sym (wrap-suc capacity q.tail (length xs));
    tail = ap (next_index capacity) v.tail ∙ wrap-wrap capacity q.tail_cache behind 1;
    head_cache = v.head_cache ∙ sym (wrap-suc capacity q.tail seen);
    tail_cache_in = v.tail_cache_in;
    room = omega (arith, v.room);
    seen_some = omega (arith, v.seen_some);
  }

  pub new_queue-IsRing : (blank : A) → 1 < capacity → IsRing (new_queue blank) [] 0 0
  new_queue-IsRing blank h = record {
    slots = tt;
    head = sym (wrap-zero capacity 0 (omega arith));
    tail = sym (wrap-zero capacity 0 (omega arith));
    head_cache = sym (wrap-zero capacity 0 (omega arith));
    tail_cache_in = omega arith;
    room = omega arith;
    seen_some = omega arith;
  }

  -- `size` of a queue at rest is the number of its items.
  pub size_lem :
      (q : SpscQueue A) (items : List A) (behind seen : ℕ)
      → IsRing q items behind seen
      → size capacity q ≡ length items
  unfolding size
  size_lem q items behind seen v =
      let t = tail_in q items behind seen v in
      let k : length items ≤ capacity = omega (arith, v.room) in
      elim (wrapped capacity q.tail (length items) t k) [
        | inl (l, w) ↦
            let e : q.head + capacity - q.tail ≡ length items + capacity = omega (arith, v.head) in
            rw e (wrap-around capacity (length items) (omega (arith, v.room)))
        | inr (l, w) ↦
            let e : q.head + capacity - q.tail ≡ length items = omega (arith, v.head) in
            rw e (wrap-small capacity (length items) (omega (arith, v.room)))
      ]
