-- ===== src/Core/MatchingEngine.antt =====
-- core/matching_engine.h and core/matching_engine.cpp: price-time priority matching.
pub mod Invariant
pub mod Release
pub mod Matching
pub mod FillQueue
pub mod Sweep
pub mod Round
pub mod Sides
pub mod MatchBuy
pub mod MatchSell
pub mod Rest
pub mod Exchange
pub mod Depth
pub mod NewOrder
pub mod ProcessCancel
pub mod Process
pub mod Prices
pub mod Safety
pub mod FillFront
pub mod FillLevel
use lockfree_matching_engine.Prelude.{
  ℕ, zero, suc, ◌+◌, Bool, true, false, not, ◌&&◌, ◌||◌, List, [], ◌∷◌, ◌++◌, ◌==◌, ltb, leb,
  if◌then◌else◌, ℤ, pos, negsuc, update, min, sub32, add32, ltb_ℤ,
}
use lockfree_matching_engine.Core.Types.{
  OrderId, Price, Quantity, Timestamp, Side, bid, ask, OrderType, is_limit, max_price_ticks,
}
use lockfree_matching_engine.Core.Order.{
  Ptr, null, Order, default_order, remaining_quantity, is_filled,
}
use lockfree_matching_engine.Core.Store.{Slot, object, Store, deref, modify, with_filled}
use lockfree_matching_engine.Core.PriceLevel
use lockfree_matching_engine.Core.PriceLevel.{is_empty, front}
use lockfree_matching_engine.Core.OrderBook
use lockfree_matching_engine.Core.OrderBook.{OrderBook, empty_book, has_bids, has_asks}
use lockfree_matching_engine.Core.MemoryPool
use lockfree_matching_engine.Core.MemoryPool.{MemoryPool}
use lockfree_matching_engine.Transport.Message.{
  NewOrderMessage, CancelMessage, FillMessage, EngineMessage, new_order, cancel,
}

-- The book and the pool share the memory of the orders.
pub record MatchingEngine : Type 0 where
  pub store : Store
  pub book : OrderBook
  pub pool : MemoryPool
  pub fills : List FillMessage

abbrev pub order_pool_size : ℕ
order_pool_size = 1_000_000

-- The constructor, with a pool of `pool_size` orders over fresh memory.
unfoldable pub init : ℕ → Store → MatchingEngine
unfolding MemoryPool.init
init pool_size memory =
    let (s, m) = MemoryPool.init pool_size memory in
    record { store = s; book = empty_book; pool = m; fills = [] }

-- `order->~Order(); pool_.deallocate(order);`
unfoldable pub release : Ptr → MatchingEngine → MatchingEngine
unfolding MemoryPool.deallocate
release order e =
    let (s, m) = MemoryPool.deallocate order e.store e.pool in record e { store = s; pool = m }

unfoldable pub cancel_in_book : OrderId → MatchingEngine → MatchingEngine
unfolding OrderBook.cancel_order
cancel_in_book id e =
    let (found, s, b) = OrderBook.cancel_order id e.store e.book in record e { store = s; book = b }

-- `passive->filled_quantity += qty; level.reduce_quantity(qty); fills_.push_back(...)`
unfoldable pub record_fill :
    (level_price : ℕ) (aggressive_id : OrderId) (aggressor_side : Side) (ts : Timestamp)
    (passive : Ptr) (qty : Quantity)
    → MatchingEngine
    → MatchingEngine
unfolding PriceLevel.reduce_quantity
record_fill level_price aggressive_id aggressor_side ts passive qty e = record e {
  store = modify passive (λ o. with_filled (add32 o.filled_quantity qty) o) e.store;
  book = record e.book {
    levels =
        update e.book.levels level_price
          (PriceLevel.reduce_quantity qty (e.book.levels level_price));
  };
  fills =
      e.fills
      ++ record {
        aggressive_id = aggressive_id;
        passive_id = (deref e.store passive).id;
        price = pos level_price;
        quantity = qty;
        timestamp = ts;
        aggressor_side = aggressor_side;
      }
        ∷ [];
}

-- `if (passive->is_filled())`
unfoldable pub drop_if_filled : Ptr → MatchingEngine → MatchingEngine
unfolding release cancel_in_book
drop_if_filled passive e =
    if is_filled (deref e.store passive)
    then release passive (cancel_in_book (deref e.store passive).id e)
    else e

module _ (level_price : ℕ) (aggressive_id : OrderId) (aggressor_side : Side) (ts : Timestamp) where
  -- One round of the loop of `fill_level`.
  unfoldable pub fill_front : Quantity → MatchingEngine → Quantity × MatchingEngine
  unfolding record_fill drop_if_filled
  fill_front remaining e =
      let passive = front (e.book.levels level_price) in
      let qty = min remaining (remaining_quantity (deref e.store passive)) in
      let e' = record_fill level_price aggressive_id aggressor_side ts passive qty e in
      (sub32 remaining qty, drop_if_filled passive e')

  -- The loop of `fill_level`, on fuel. Every round lowers `remaining`.
  unfoldable pub fill_loop : ℕ → Quantity → MatchingEngine → Quantity × MatchingEngine
  unfolding fill_front
  fill_loop zero remaining e = (remaining, e)
  fill_loop (suc fuel) remaining e =
      elim (ltb 0 remaining && not (is_empty (e.book.levels level_price))) [
        | true ↦ let (remaining', e') = fill_front remaining e in fill_loop fuel remaining' e'
        | false ↦ (remaining, e)
      ]

unfoldable pub fill_level :
    (level_price : ℕ) (aggressive_id : OrderId) (aggressor_side : Side) (ts : Timestamp)
    (remaining : Quantity)
    → MatchingEngine
    → Quantity × MatchingEngine
unfolding fill_loop
fill_level level_price aggressive_id aggressor_side ts remaining e =
    fill_loop level_price aggressive_id aggressor_side ts remaining remaining e

-- `is_limit && level_price > msg.price`
abbrev pub beyond_buy : NewOrderMessage → ℕ → Bool
beyond_buy msg level_price = is_limit msg.kind && ltb_ℤ msg.price (pos level_price)

-- `is_limit && level_price < msg.price`
abbrev pub beyond_sell : NewOrderMessage → ℕ → Bool
beyond_sell msg level_price = is_limit msg.kind && ltb_ℤ (pos level_price) msg.price

-- The loop over the ask levels, on fuel.
unfoldable pub match_buy :
    NewOrderMessage → ℕ → Quantity → MatchingEngine → Quantity × MatchingEngine
unfolding fill_level
match_buy msg zero remaining e = (remaining, e)
match_buy msg (suc fuel) remaining e =
    elim (ltb 0 remaining && has_asks e.book && not (beyond_buy msg e.book.best_ask)) [
      | true ↦
          let (remaining', e') =
            fill_level e.book.best_ask msg.id msg.side msg.timestamp remaining e in
          match_buy msg fuel remaining' e'
      | false ↦ (remaining, e)
    ]

-- The loop over the bid levels, on fuel.
unfoldable pub match_sell :
    NewOrderMessage → ℕ → Quantity → MatchingEngine → Quantity × MatchingEngine
unfolding fill_level
match_sell msg zero remaining e = (remaining, e)
match_sell msg (suc fuel) remaining e =
    elim (ltb 0 remaining && has_bids e.book && not (beyond_sell msg e.book.best_bid)) [
      | true ↦
          let (remaining', e') =
            fill_level e.book.best_bid msg.id msg.side msg.timestamp remaining e in
          match_sell msg fuel remaining' e'
      | false ↦ (remaining, e)
    ]

-- The loop for a side. Every round fills something, so `quantity` rounds are enough.
unfoldable pub match_for : Side → NewOrderMessage → MatchingEngine → Quantity × MatchingEngine
unfolding match_buy match_sell
match_for bid msg e = match_buy msg msg.quantity msg.quantity e
match_for ask msg e = match_sell msg msg.quantity msg.quantity e

unfoldable pub match_order : NewOrderMessage → MatchingEngine → Quantity × MatchingEngine
unfolding match_for
match_order msg e = match_for msg.side msg e

abbrev pub resting_order : NewOrderMessage → Quantity → Order
resting_order msg remaining = record {
  id = msg.id;
  side = msg.side;
  kind = msg.kind;
  price = msg.price;
  quantity = msg.quantity;
  filled_quantity = sub32 msg.quantity remaining;
  timestamp = msg.timestamp;
  prev = null;
  next = null;
}

-- The order in its slot, and in the book unless its identifier is taken.
unfoldable pub place : Ptr → NewOrderMessage → Quantity → MatchingEngine → MatchingEngine
unfolding release OrderBook.add_order
place order msg remaining e =
    let s = update e.store order (object (resting_order msg remaining)) in
    let (added, s', b) = OrderBook.add_order order s e.book in
    let e' = record e { store = s'; book = b } in if added then e' else release order e'

unfoldable pub rest : NewOrderMessage → Quantity → MatchingEngine → MatchingEngine
unfolding place MemoryPool.allocate
rest msg remaining e =
    let (order, m) = MemoryPool.allocate e.store e.pool in
    if order == null
    then record e { pool = m }
    else place order msg remaining (record e { pool = m })

-- `msg.price < 0 || msg.price >= MAX_PRICE_TICKS`
abbrev pub out_of_range : Price → Bool
out_of_range (pos p) = leb max_price_ticks p
out_of_range (negsuc n) = true

unfoldable pub process_new_order : NewOrderMessage → MatchingEngine → MatchingEngine
unfolding match_order rest
process_new_order msg e =
    let e' = record e { fills = [] } in
    if msg.quantity == 0
    then e'
    else if is_limit msg.kind && out_of_range msg.price
    then e'
    else (let (remaining, matched) = match_order msg e' in
        if ltb 0 remaining && is_limit msg.kind then rest msg remaining matched else matched)

unfoldable pub process_cancel : CancelMessage → MatchingEngine → Bool × MatchingEngine
unfolding OrderBook.get_order release cancel_in_book
process_cancel msg e =
    let order = OrderBook.get_order msg.id e.book in
    if order == null then (false, e) else (true, release order (cancel_in_book msg.id e))

unfoldable pub process : EngineMessage → MatchingEngine → MatchingEngine
unfolding process_new_order process_cancel
process (new_order msg) e = process_new_order msg e
process (cancel msg) e = (process_cancel msg (record e { fills = [] })).1
