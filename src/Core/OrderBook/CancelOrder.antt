-- ===== src/Core/OrderBook/CancelOrder.antt =====
-- `OrderBook::cancel_order` on all its branches.
use lockfree_matching_engine.Prelude.{
  ℕ, ◌+◌, ◌^◌, ◌<◌, ◌≡◌, refl, true, false, none, some, List, ◌∷◌, ◌++◌, has-split,
}
use lockfree_matching_engine.Core.Types.{OrderId}
use lockfree_matching_engine.Core.Order.{Ptr}
use lockfree_matching_engine.Core.Store.{Store, deref}
use lockfree_matching_engine.Core.OrderBook.{OrderBook, level_index, take_out, cancel_order}
use lockfree_matching_engine.Core.OrderBook.Invariant.{Queues, IsBook}
use lockfree_matching_engine.Core.OrderBook.TakeOut.{TakenOut, take_out_lem}

module _ (s : Store) (b : OrderBook) (id : OrderId) where
  -- An identifier that is not in the map: `false`, and nothing changes.
  pub cancel_order-unknown : b.order_map id ≡ none → cancel_order id s b ≡ (false, s, b)
  unfolding cancel_order
  cancel_order-unknown e = rw (cancel_order, e)

  pub cancel_order-known :
      (r : Ptr)
      → b.order_map id ≡ some r
      → cancel_order id s b ≡ (true, (take_out r id s b).0, (take_out r id s b).1)
  unfolding cancel_order
  cancel_order-known r e = rw (cancel_order, e)

-- The order `r` was in the queue of some price, with that identifier, and has left it.
pub record Cancelled (s : Store) (b : OrderBook) (q : Queues) (id : OrderId) (r : Ptr)
    (out : Store × OrderBook) : Type 0 where
  pub price : ℕ
  pub ahead : List Ptr
  pub behind : List Ptr
  pub at : q price ≡ ahead ++ r ∷ behind
  pub same_id : (deref s r).id ≡ id
  pub taken : TakenOut s b q price r ahead behind out

-- `cancel_order` of an identifier that the map of a well-formed book knows, whose two counters
-- add up to less than 2^64, returns true, takes its order out of its queue, wherever it stands
-- there, and leaves levels, counters, best prices and map of the queues without it.
pub cancel_order_lem :
    (s : Store) (b : OrderBook) (q : Queues) (id : OrderId) (r : Ptr)
    → IsBook s b q
    → b.bid_count + b.ask_count < 2 ^ 64
    → b.order_map id ≡ some r
    → let (found, t, c) = cancel_order id s b in (found ≡ true) × Cancelled s b q id r (t, c)
cancel_order_lem s b q id r v small m =
    let (e, i) = v.known id r m in
    let (xs, ys, at) = has-split r (q (level_index (deref s r).price)) i in
    rw (cancel_order-known s b id r m, ← e)
      (
        refl,
        record {
          price = level_index (deref s r).price;
          ahead = xs;
          behind = ys;
          at = at;
          same_id = refl;
          taken =
              take_out_lem s b q (level_index (deref s r).price) r xs ys v at (deref s r).side refl
                small;
        },
      )
