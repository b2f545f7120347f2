-- ===== src/Core/MatchingEngine/Safety.antt =====
-- What every sequence of messages leaves true of the engine in core/matching_engine.h.
use lockfree_matching_engine.Prelude.{
  ℕ, arith, ◌+◌, ◌^◌, ◌<◌, ◌≡◌, List, [], true, false, some, has, length,
}
use lockfree_matching_engine.Core.Types.{OrderId}
use lockfree_matching_engine.Core.Order.{Ptr}
use lockfree_matching_engine.Core.Store.{Store, deref, is_object}
use lockfree_matching_engine.Core.MemoryPool.FreeList.{IsPool, not-object_of_free}
use lockfree_matching_engine.Core.MatchingEngine.{MatchingEngine, init}
use lockfree_matching_engine.Core.MatchingEngine.NewOrder.{Holds}
use lockfree_matching_engine.Core.MatchingEngine.Rest.{waits-live}
use lockfree_matching_engine.Core.MatchingEngine.Process.{
  AllFit, process_all, process_all-init, exchange_all,
}
use lockfree_matching_engine.Transport.Message.{EngineMessage}

-- `free` is what `free_head` leads to through memory: as many distinct slots as the pool counts,
-- none of which holds an object. With the orders of the book there are n of them.
pub record Slots (n : ℕ) (e : MatchingEngine) : Type 0 where
  pub free : List Ptr
  pub pool : IsPool e.store e.pool free
  pub unused : (r : Ptr) → has r free ≡ true → is_object (e.store r) ≡ false
  pub counted : e.book.bid_count + e.book.ask_count + length free ≡ n

room_left :
    (n : ℕ) (e : MatchingEngine) (free : List Ptr)
    → IsPool e.store e.pool free
    → e.book.bid_count + e.book.ask_count + e.pool.available ≡ n
    → e.book.bid_count + e.book.ask_count + length free ≡ n
room_left n e free v room = omega (arith, room, v.count)

module _ (n : ℕ) (memory : Store) (msgs : List EngineMessage) (small : n + 1 < 2 ^ 64)
    (fit : AllFit msgs) where
  after : MatchingEngine
  after = (process_all msgs (init n memory)).1

  held : Holds n after (exchange_all n msgs (λ p. [])).1
  unfolding after
  held = (process_all-init n memory msgs small fit).1

  -- After any sequence of messages whose quantities are below 2^32, sent to a new engine with n
  -- slots, n + 1 < 2^64: if both sides have orders, the best bid is below the best ask.
  pub process_all-uncrossed :
      0 < (process_all msgs (init n memory)).1.book.bid_count
      → 0 < (process_all msgs (init n memory)).1.book.ask_count
      → (process_all msgs (init n memory)).1.book.best_bid
        < (process_all msgs (init n memory)).1.book.best_ask
  unfolding after
  process_all-uncrossed = held.engine.book.quoted.uncrossed

  -- After any sequence of messages whose quantities are below 2^32, sent to a new engine with n
  -- slots, n + 1 < 2^64: the list that `free_head` leads to through memory has distinct slots,
  -- none of which holds an object, and as many as the pool counts as available; with the orders
  -- that the two counters of the book count, they add up to n.
  pub process_all-room : Slots n (process_all msgs (init n memory)).1
  unfolding after
  process_all-room = record {
    free = held.free;
    pool = held.engine.pool;
    unused = λ r i.
        not-object_of_free (process_all msgs (init n memory)).1.store held.free r
          held.engine.pool.chain i;
    counted =
        room_left n (process_all msgs (init n memory)).1 held.free held.engine.pool
          held.engine.room;
  }

  -- After any sequence of messages whose quantities are below 2^32, sent to a new engine with n
  -- slots, n + 1 < 2^64: a pointer that the map has under an identifier points to an object, not
  -- to a free slot, and that is an order with this identifier which is not filled.
  pub process_all-map :
      (id : OrderId) (r : Ptr)
      → (process_all msgs (init n memory)).1.book.order_map id ≡ some r
      → let e = (process_all msgs (init n memory)).1 in
        (is_object (e.store r) ≡ true)
        × ((deref e.store r).id ≡ id)
        × ((deref e.store r).filled_quantity < (deref e.store r).quantity)
  unfolding after
  process_all-map id r m =
      let v = held.engine in
      let (e, i) = v.book.known id r m in
      ((waits-live _ _ held.queues _ r v.book i).0, e, v.unfilled _ r i)
