-- ===== src/Transport/Tests.antt =====
-- The theorems of transport/ at concrete inputs: a queue with a capacity of two, which holds one item.
use lockfree_matching_engine.Prelude.{
  ℕ, ◌<◌, ◌≡◌, refl, Bool, true, false, arith, List, [], ◌∷◌, ◌++◌, length, ◌==◌,
}
use lockfree_matching_engine.Transport.SpscQueue.{
  SpscQueue, new_queue, reload_head, write_slot, publish_head, try_push, try_pop,
}
use lockfree_matching_engine.Transport.SpscQueue.Ring.{new_queue-IsRing}
use lockfree_matching_engine.Transport.SpscQueue.Sequential.{
  Contains, Pushed, Popped, try_push_lem, try_pop_lem,
}
use lockfree_matching_engine.Transport.SpscQueue.Machine.{
  Producer, Consumer, Machine, start, Step, Steps,
}
use lockfree_matching_engine.Transport.SpscQueue.Interleave.{fifo, no_race}

abbrev two : SpscQueue ℕ
two = new_queue 0

two-Contains : Contains 2 two []
two-Contains = record { behind = 0; seen = 0; ring = new_queue-IsRing 2 0 (omega arith) }

try_push_lem_example : Pushed 2 5 [] (try_push 2 5 two)
try_push_lem_example = try_push_lem 2 5 two [] two-Contains

abbrev one_pushed : SpscQueue ℕ
one_pushed = (try_push 2 5 two).1

one_pushed-Contains : Contains 2 one_pushed (5 ∷ [])
one_pushed-Contains = by_result (try_push 2 5 two) (try_push_lem 2 5 two [] two-Contains)
  where
    by_result : (r : Bool × SpscQueue ℕ) → Pushed 2 5 [] r → Contains 2 r.1 (5 ∷ [])
    by_result (false, q) v = absurd (omega (arith, v.0))
    by_result (true, q) v = v.1

try_pop_lem_example : Popped 2 (5 ∷ []) (try_pop 2 one_pushed)
try_pop_lem_example = try_pop_lem 2 one_pushed (5 ∷ []) one_pushed-Contains

-- The producer puts 5 into the queue, the consumer starts to take it, and the producer looks again.
abbrev m0 : Machine ℕ
m0 = start 2 0

abbrev m1 : Machine ℕ
m1 = record m0 { producer = Producer.writing 5 }

abbrev m2 : Machine ℕ
m2 = record m1 { queue = write_slot 5 m1.queue; producer = Producer.publishing 5 }

abbrev m3 : Machine ℕ
m3 = record m2 { queue = publish_head 2 m2.queue; producer = Producer.idle; pushed = 5 ∷ [] }

abbrev m4 : Machine ℕ
m4 = record m3 { consumer = Consumer.reloading }

abbrev m5 : Machine ℕ
m5 = record m4 { queue = reload_head m4.queue; consumer = Consumer.reading }

abbrev m6 : Machine ℕ
m6 = record m5 { producer = Producer.reloading 6 }

m3-Steps : Steps 2 m0 m3
m3-Steps =
    Steps.then
      (Steps.then (Steps.then Steps.none (Step.push_fast 5 refl refl)) (Step.push_write 5 refl))
      (Step.push_publish 5 refl)

m5-Steps : Steps 2 m0 m5
m5-Steps = Steps.then (Steps.then m3-Steps (Step.pop_slow refl refl)) (Step.pop_retried refl refl)

m6-Steps : Steps 2 m0 m6
m6-Steps = Steps.then m5-Steps (Step.push_slow 6 refl refl)

fifo_example : (items : List ℕ) × (m6.pushed ≡ m6.popped ++ items) × (length items < 2)
fifo_example = fifo 2 0 (omega arith) m6 m6-Steps

-- With a capacity of four the producer may go on to write 6 while the consumer reads 5.
abbrev r3 : Machine ℕ
r3 = record m2 { queue = publish_head 4 m2.queue; producer = Producer.idle; pushed = 5 ∷ [] }

abbrev r5 : Machine ℕ
r5 = record r3 { queue = reload_head r3.queue; consumer = Consumer.reading }

abbrev r6 : Machine ℕ
r6 = record r5 { producer = Producer.writing 6 }

r3-Steps : Steps 4 (start 4 0) r3
r3-Steps =
    Steps.then
      (Steps.then (Steps.then Steps.none (Step.push_fast 5 refl refl)) (Step.push_write 5 refl))
      (Step.push_publish 5 refl)

r6-Steps : Steps 4 (start 4 0) r6
r6-Steps =
    Steps.then
      (Steps.then (Steps.then r3-Steps (Step.pop_slow refl refl)) (Step.pop_retried refl refl))
      (Step.push_fast 6 refl refl)

no_race_example : (r6.queue.head == r6.queue.tail) ≡ false
no_race_example = no_race 4 0 (omega arith) r6 r6-Steps 6 refl refl
