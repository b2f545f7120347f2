-- ===== src/Core/OrderBook/AddOrder.antt =====
-- `OrderBook::add_order` on all its branches.
use lockfree_matching_engine.Prelude.{
  ℕ, ◌+◌, ◌^◌, ◌≤◌, ◌<◌, ◌≡◌, refl, ◌∙◌, true, false, none, some, arith, leb, Bool-cases, ◌⊎◌, inl,
  inr, ℤ, pos, negsuc,
}
use lockfree_matching_engine.Core.Types.{max_price_ticks}
use lockfree_matching_engine.Core.Order.{Ptr}
use lockfree_matching_engine.Core.Store.{Store, deref}
use lockfree_matching_engine.Core.OrderBook.{OrderBook, insert, emplace, add_order}
use lockfree_matching_engine.Core.OrderBook.Invariant.{Queues, IsBook, NoCross}
use lockfree_matching_engine.Core.OrderBook.Insert.{Joins, Inserted, insert_lem}

-- A price that `add_order` refuses.
abbrev pub BadPrice : ℤ → Type 0
BadPrice (pos p) = max_price_ticks ≤ p
BadPrice (negsuc n) = Unit {0}

module _ (s : Store) (b : OrderBook) (r : Ptr) where
  add_order-range :
      (p : ℕ) → (deref s r).price ≡ pos p → p < max_price_ticks → add_order r s b ≡ emplace r p s b
  unfolding add_order
  add_order-range p e h =
      let f : leb max_price_ticks p ≡ false = ground arith in rw (add_order, e, f)

  add_order-taken :
      (p : ℕ) (other : Ptr)
      → b.order_map (deref s r).id ≡ some other
      → emplace r p s b ≡ (false, s, b)
  unfolding emplace
  add_order-taken p other e = rw (emplace, e)

  add_order-new :
      (p : ℕ)
      → b.order_map (deref s r).id ≡ none
      → emplace r p s b ≡ (true, (insert r p s b).0, (insert r p s b).1)
  unfolding emplace
  add_order-new p e = rw (emplace, e)

  add_order-BadPrice :
      (x : ℤ) → (deref s r).price ≡ x → BadPrice x → add_order r s b ≡ (false, s, b)
  unfolding add_order
  add_order-BadPrice (pos p) e k =
      let f : leb max_price_ticks p ≡ true = ground arith in rw (add_order, e, f)
  add_order-BadPrice (negsuc n) e k = rw (add_order, e)

  -- `add_order` of an order whose price is out of range, or whose identifier is in the map,
  -- returns false and changes neither the memory nor the book.
  pub add_order_refuses :
      BadPrice (deref s r).price ⊎ ((other : Ptr) × (b.order_map (deref s r).id ≡ some other))
      → add_order r s b ≡ (false, s, b)
  add_order_refuses (inl k) = add_order-BadPrice (deref s r).price refl k
  add_order_refuses (inr (other, k)) = refused (deref s r).price refl
    where
      refused : (x : ℤ) → (deref s r).price ≡ x → add_order r s b ≡ (false, s, b)
      refused (negsuc n) e = add_order-BadPrice (negsuc n) e tt
      refused (pos p) e = elim (Bool-cases (leb max_price_ticks p)) [
        | inl f ↦ add_order-BadPrice (pos p) e (ground arith)
        | inr f ↦ add_order-range p e (ground arith) ∙ add_order-taken p other k
      ]

-- An order in the pool that is in no queue, has a price in range, is not filled, has a quantity
-- below 2^32 and a new identifier, and crosses no order of the other side, is accepted by
-- `add_order` if the counters are below 2^64: it goes to the back of the queue of its price, and
-- levels, counters, best prices and map stay those of the queues.
pub add_order_accepts :
    (s : Store) (b : OrderBook) (q : Queues) (p : ℕ) (r : Ptr)
    → IsBook s b q
    → Joins s q p r
    → b.order_map (deref s r).id ≡ none
    → b.bid_count + b.ask_count + 1 < 2 ^ 64
    → NoCross (deref s r).side p b
    → let (added, t, c) = add_order r s b in (added ≡ true) × Inserted s b q p r (t, c)
add_order_accepts s b q p r v j new small cross =
    rw (add_order-range s b r p j.price j.in_range, add_order-new s b r p new)
      (refl, insert_lem s b q p r v j new (deref s r).side refl small cross)
