-- ===== src/Core/MatchingEngine/Invariant.antt =====
-- core/matching_engine.h: the invariant of the engine. The book and the pool share the memory:
-- every slot is free, or holds an order that waits in the book.
use lockfree_matching_engine.Prelude.{ℕ, ◌+◌, ◌^◌, ◌<◌, ◌≡◌, true, false, List, has, ◌==◌}
use lockfree_matching_engine.Core.Order.{Ptr}
use lockfree_matching_engine.Core.Store.{Slot, free_node, object, Store, is_object, deref}
use lockfree_matching_engine.Core.PriceLevel.Invariant.{unlinked, SameOrders}
use lockfree_matching_engine.Core.OrderBook.Invariant.{Queues, IsBook}
use lockfree_matching_engine.Core.MemoryPool.{MemoryPool}
use lockfree_matching_engine.Core.MemoryPool.FreeList.{IsPool, IsPool-frame, not-object_of_free}
use lockfree_matching_engine.Core.MatchingEngine.{MatchingEngine}

-- No order that waits is filled, with the exception of `r`.
abbrev pub UnfilledBut : Ptr → Store → Queues → Type 0
UnfilledBut r s q =
    (x : ℕ) (y : Ptr)
    → has y (q x) ≡ true
    → (y == r) ≡ false
    → (deref s y).filled_quantity < (deref s y).quantity

-- An engine with a pool of `n` slots, the waiting orders `q` and the free slots `fs`.
pub record IsEngine (n : ℕ) (e : MatchingEngine) (q : Queues) (fs : List Ptr) : Type 0 where
  pub book : IsBook e.store e.book q
  pub unfilled :
      (x : ℕ) (y : Ptr)
      → has y (q x) ≡ true
      → (deref e.store y).filled_quantity < (deref e.store y).quantity
  pub pool : IsPool e.store e.pool fs
  pub room : e.book.bid_count + e.book.ask_count + e.pool.available ≡ n
  pub small : n + 1 < 2 ^ 64

same_if_free : (a b : Slot) → is_object b ≡ false → unlinked a ≡ unlinked b → a ≡ b
same_if_free (free_node m) (free_node n) h e = e
same_if_free (object o) (free_node n) h e = cc
same_if_free a (object o) h e = cc

-- Links of orders do not reach the free list.
pub IsPool-same :
    (s t : Store) (m : MemoryPool) (fs : List Ptr) → SameOrders s t → IsPool s m fs → IsPool t m fs
IsPool-same s t m fs same v =
    IsPool-frame s t m fs v
      (λ y i. same_if_free (t y) (s y) (not-object_of_free s fs y v.chain i) (same y))
