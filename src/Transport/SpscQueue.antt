-- ===== src/Transport/SpscQueue.antt =====
-- transport/spsc_queue.h: the bounded ring of one producer and one consumer. `Capacity` is a power of
-- two, so that `& kIndexMask` is the remainder by it, of a wrapped difference too.
pub mod Ring
pub mod Sequential
pub mod Machine
pub mod Moves
pub mod Interleave
pub mod Link
pub mod PushEach
use lockfree_matching_engine.Prelude.{
  ℕ, ◌+◌, ◌-◌, ◌%◌, Bool, true, false, Option, some, none, ◌==◌, if◌then◌else◌, update,
}

pub record SpscQueue {ℓ} (A : Type ℓ) : Type ℓ where
  pub buffer : ℕ → A
  pub head : ℕ
  pub tail : ℕ
  pub tail_cache : ℕ
  pub head_cache : ℕ

-- `(index + 1) & kIndexMask`
abbrev pub next_index : ℕ → ℕ → ℕ
next_index capacity i = (i + 1) % capacity

-- What the threads do between two accesses of the indices they share: the producer's full test,
-- load of `tail_`, write of a slot and store of `head_`, and the like of the consumer.
module _ {ℓ} {A : Type ℓ} where
  -- The slots of a new queue hold `T{}`.
  abbrev pub new_queue : A → SpscQueue A
  new_queue blank = record {
    buffer = λ i. blank;
    head = 0;
    tail = 0;
    tail_cache = 0;
    head_cache = 0;
  }

  abbrev pub reload_tail : SpscQueue A → SpscQueue A
  reload_tail q = record q { tail_cache = q.tail }

  abbrev pub write_slot : A → SpscQueue A → SpscQueue A
  write_slot item q = record q { buffer = update q.buffer q.head item }

  abbrev pub looks_empty : SpscQueue A → Bool
  looks_empty q = q.tail == q.head_cache

  abbrev pub reload_head : SpscQueue A → SpscQueue A
  reload_head q = record q { head_cache = q.head }

  abbrev pub read_slot : SpscQueue A → A
  read_slot q = q.buffer q.tail

  abbrev pub empty : SpscQueue A → Bool
  empty q = q.head == q.tail

module _ {ℓ} {A : Type ℓ} (capacity : ℕ) where
  abbrev pub looks_full : SpscQueue A → Bool
  looks_full q = next_index capacity q.head == q.tail_cache

  abbrev pub publish_head : SpscQueue A → SpscQueue A
  publish_head q = record q { head = next_index capacity q.head }

  abbrev pub publish_tail : SpscQueue A → SpscQueue A
  publish_tail q = record q { tail = next_index capacity q.tail }

  abbrev pub store_item : A → SpscQueue A → Bool × SpscQueue A
  store_item item q = (true, publish_head (write_slot item q))

  unfoldable pub try_push : A → SpscQueue A → Bool × SpscQueue A
  try_push item q =
      if looks_full q
      then (let q' = reload_tail q in if looks_full q' then (false, q') else store_item item q')
      else store_item item q

  abbrev pub load_item : SpscQueue A → Option A × SpscQueue A
  load_item q = (some (read_slot q), publish_tail q)

  -- No item stands for `false`.
  unfoldable pub try_pop : SpscQueue A → Option A × SpscQueue A
  try_pop q =
      if looks_empty q
      then (let q' = reload_head q in if looks_empty q' then (none, q') else load_item q')
      else load_item q

  -- `(h - t) & kIndexMask`
  unfoldable pub size : SpscQueue A → ℕ
  size q = (q.head + capacity - q.tail) % capacity
