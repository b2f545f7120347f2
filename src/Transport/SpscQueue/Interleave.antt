-- ===== src/Transport/SpscQueue/Interleave.antt =====
-- transport/spsc_queue.h: what holds of the queue however the steps of its two threads interleave.
use lockfree_matching_engine.Prelude.{
  ℕ, ◌+◌, ◌<◌, ◌≡◌, ◌∙◌, ap, subst, true, false, arith, List, ◌++◌, append-nil, length, ◌==◌,
  List-cases, inl, inr, wrap-differs, wrap-zero,
}
use lockfree_matching_engine.Transport.SpscQueue.{
  reload_tail, looks_empty, reload_head, read_slot, looks_full,
}
use lockfree_matching_engine.Transport.SpscQueue.Ring.{
  tail_in, looks_full_lem, looks_empty_lem, reload_tail-IsRing, reload_head-IsRing,
}
use lockfree_matching_engine.Transport.SpscQueue.Machine.{
  Producer, Consumer, Machine, start, Step, Steps, Consuming, IsMachine, start-IsMachine,
}
use lockfree_matching_engine.Transport.SpscQueue.Moves.{
  has_room, has_item, first_item, producer_moves, producer_reloads, consumer_moves,
  consumer_reloads, step_write, step_publish_head, step_publish_tail,
}

module _ {ℓ} {A : Type ℓ} (capacity : ℕ) where
  Step-IsMachine :
      (m m' : Machine A) → IsMachine capacity m → Step capacity m m' → IsMachine capacity m'
  Step-IsMachine m m' v (Step.push_fast item p h) =
      producer_moves capacity m v (Producer.writing item)
        (has_room capacity m.queue v.items v.behind v.seen v.ring h, tt)
  Step-IsMachine m m' v (Step.push_slow item p h) =
      producer_moves capacity m v (Producer.reloading item) tt
  Step-IsMachine m m' v (Step.push_retried item p h) =
      let ring = reload_tail-IsRing capacity m.queue v.items v.behind v.seen v.ring in
      producer_reloads capacity m v (Producer.writing item)
        (has_room capacity (reload_tail m.queue) v.items 0 v.seen ring h, tt)
  Step-IsMachine m m' v (Step.push_refused item p h) =
      producer_reloads capacity m v Producer.idle tt
  Step-IsMachine m m' v (Step.push_write item p) = step_write capacity m v item p
  Step-IsMachine m m' v (Step.push_publish item p) = step_publish_head capacity m v item p
  Step-IsMachine m m' v (Step.pop_fast c h) =
      consumer_moves capacity m v Consumer.reading
        (has_item capacity m.queue v.items v.behind v.seen v.ring h, tt)
  Step-IsMachine m m' v (Step.pop_slow c h) = consumer_moves capacity m v Consumer.reloading tt
  Step-IsMachine m m' v (Step.pop_retried c h) =
      let ring = reload_head-IsRing capacity m.queue v.items v.behind v.seen v.ring in
      consumer_reloads capacity m v Consumer.reading
        (has_item capacity (reload_head m.queue) v.items v.behind (length v.items) ring h, tt)
  Step-IsMachine m m' v (Step.pop_refused c h) = consumer_reloads capacity m v Consumer.idle tt
  Step-IsMachine m m' v (Step.pop_read c) =
      let d = subst (Consuming capacity v.items v.seen) c v.consuming in
      let (rest, e) = first_item capacity m.queue v.items v.behind v.seen v.ring d.0 in
      consumer_moves capacity m v (Consumer.publishing (read_slot m.queue)) (d.0, rest, e)
  Step-IsMachine m m' v (Step.pop_publish item c) = step_publish_tail capacity m v item c

  Steps-IsMachine :
      (m m' : Machine A) → IsMachine capacity m → Steps capacity m m' → IsMachine capacity m'
  Steps-IsMachine m m' v Steps.none = v
  Steps-IsMachine m m' v (Steps.then {before} steps step) =
      Step-IsMachine before m' (Steps-IsMachine m before v steps) step

  module _ (blank : A) (large : 1 < capacity) (m : Machine A)
      (reached : Steps capacity (start capacity blank) m) where
    reached-IsMachine : IsMachine capacity m
    reached-IsMachine = Steps-IsMachine _ m (start-IsMachine capacity blank large) reached

    -- In every state that interleaved steps of the two threads reach from a new queue with a
    -- capacity above 1: the items that went in are those that came out, in the same order,
    -- followed by the items in between, of which there are fewer than the capacity.
    pub fifo : (items : List A) × (m.pushed ≡ m.popped ++ items) × (length items < capacity)
    fifo = let v = reached-IsMachine in (v.items, v.history, omega (arith, v.ring.room))

    -- In every state that interleaved steps of the two threads reach from a new queue with a
    -- capacity above 1: when the producer is about to write a slot and the consumer is about to
    -- read one, the two slots differ.
    pub no_race :
        (item : A)
        → m.producer ≡ Producer.writing item
        → m.consumer ≡ Consumer.reading
        → (m.queue.head == m.queue.tail) ≡ false
    no_race item p c =
        let v = reached-IsMachine in
        let d = subst (Consuming capacity v.items v.seen) c v.consuming in
        let t = tail_in capacity m.queue v.items v.behind v.seen v.ring in
        let some_item : (length v.items == 0) ≡ false = ground (arith, v.ring.seen_some) in
        let differs =
          wrap-differs capacity m.queue.tail (length v.items) 0 t (omega (arith, v.ring.room))
            (omega arith) some_item in
        rw v.ring.head (rw (wrap-zero capacity m.queue.tail t) at differs)

    -- In every state that interleaved steps of the two threads reach from a new queue with a
    -- capacity above 1: if the queue looks full after a reload of the tail, so that a push is
    -- refused, then it holds as many items as it can, one less than the capacity.
    pub refused-full :
        looks_full capacity (reload_tail m.queue) ≡ true
        → (items : List A) × (m.pushed ≡ m.popped ++ items) × (length items + 1 ≡ capacity)
    refused-full h =
        let v = reached-IsMachine in
        let ring = reload_tail-IsRing capacity m.queue v.items v.behind v.seen v.ring in
        let e = looks_full_lem capacity (reload_tail m.queue) v.items 0 v.seen ring in
        (v.items, v.history, ground arith)

    -- In every state that interleaved steps of the two threads reach from a new queue with a
    -- capacity above 1: if the queue looks empty after a reload of the head, so that a pop is
    -- refused, then all that went in has come out.
    pub refused-empty : looks_empty (reload_head m.queue) ≡ true → m.pushed ≡ m.popped
    refused-empty h =
        let v = reached-IsMachine in
        let ring = reload_head-IsRing capacity m.queue v.items v.behind v.seen v.ring in
        let e =
          looks_empty_lem capacity (reload_head m.queue) v.items v.behind (length v.items) ring in
        elim (List-cases v.items) [
          | inl z ↦ v.history ∙ ap (λ xs. m.popped ++ xs) z ∙ append-nil m.popped
          | inr (x, xs, z) ↦ let l = ap length z in absurd (ground arith)
        ]
