-- ===== src/Core/MemoryPool.antt =====
-- core/memory_pool.h: a free list threaded through the unused slots. The slot with index `i` has
-- the pointer `i + 1`; the list's node is the slot's own content.
pub mod FreeList
use lockfree_matching_engine.Prelude.{ℕ, zero, suc, ◌==◌, if◌then◌else◌, add64, sub64, update}
use lockfree_matching_engine.Core.Order.{Ptr, null}
use lockfree_matching_engine.Core.Store.{Slot, free_node, object, Store}

pub record MemoryPool : Type 0 where
  pub free_head : Ptr
  pub available : ℕ

-- `slot_ptr(index)`
abbrev pub slot_ptr : ℕ → Ptr
slot_ptr index = suc index

-- `node->next`, read from the slot. (The read of a slot that holds an object is undefined.)
abbrev pub node_next : Slot → Ptr
node_next (free_node n) = n
node_next (object o) = null

-- The constructor's loop, for `i` from `PoolSize` down to 1.
unfoldable pub link_slots : ℕ → Store → Ptr → Store × Ptr
link_slots zero s head = (s, head)
link_slots (suc i) s head = link_slots i (update s (slot_ptr i) (free_node head)) (slot_ptr i)

-- The constructor over fresh memory, whatever that holds.
unfoldable pub init : ℕ → Store → Store × MemoryPool
unfolding link_slots
init pool_size memory =
    let (s, head) = link_slots pool_size memory null in
    (s, record { free_head = head; available = pool_size })

-- Null when exhausted. The slot's content is left as it is: raw memory.
unfoldable pub allocate : Store → MemoryPool → Ptr × MemoryPool
allocate s m = if m.free_head == null then (null, m) else (
  m.free_head,
  record m { free_head = node_next (s m.free_head); available = sub64 m.available 1 },
)

unfoldable pub deallocate : Ptr → Store → MemoryPool → Store × MemoryPool
deallocate p s m = (
  update s p (free_node m.free_head),
  record m { free_head = p; available = add64 m.available 1 },
)
