-- ===== src/Core/OrderBook/Invariant.antt =====
-- core/order_book.h: what the book, the map and the memory hold when the level of each price
-- queues the orders that `q` gives.
use lockfree_matching_engine.Prelude.{
  ℕ, ◌+◌, ◌%◌, ◌^◌, ◌≤◌, ◌<◌, ◌≡◌, refl, fun_ext, sym, ap, subst, ◌∙◌, true, false, Option, some,
  arith, ◌==◌, Bool-cases, inl, inr, List, [], ◌∷◌, ◌++◌, has, length, pos, update,
}
use lockfree_matching_engine.Core.Types.{OrderId, Side, bid, ask, max_price_ticks}
use lockfree_matching_engine.Core.Order.{Ptr, null}
use lockfree_matching_engine.Core.Store.{Store, deref}
use lockfree_matching_engine.Core.PriceLevel.{PriceLevel, is_empty}
use lockfree_matching_engine.Core.PriceLevel.Chain.{Chain-frame}
use lockfree_matching_engine.Core.PriceLevel.Invariant.{IsLevel, total, unlinked, details-same}
use lockfree_matching_engine.Core.OrderBook.{OrderBook, level_index}
use lockfree_matching_engine.Core.OrderBook.Counts.{count_side, counted_order, count_sides-length}
use lockfree_matching_engine.Core.OrderBook.Quotes.{Quoted}

-- The orders that wait at each price, oldest first.
abbrev pub Queues : Type 0
Queues = ℕ → List Ptr

-- An order that waits at price `p`: it is in the map, and filled to its quantity at most.
pub record Resting (s : Store) (order_map : OrderId → Option Ptr) (p : ℕ) (r : Ptr) : Type 0 where
  pub price : (deref s r).price ≡ pos p
  pub in_range : p < max_price_ticks
  pub bounded : (deref s r).filled_quantity ≤ (deref s r).quantity
  pub small : (deref s r).quantity < 2 ^ 32
  pub mapped : order_map (deref s r).id ≡ some r

pub record IsBook (s : Store) (b : OrderBook) (q : Queues) : Type 0 where
  pub level : (p : ℕ) → IsLevel s (b.levels p) (q p)
  pub resting : (p : ℕ) (r : Ptr) → has r (q p) ≡ true → Resting s b.order_map p r
  pub known :
      (id : OrderId) (r : Ptr)
      → b.order_map id ≡ some r
      → ((deref s r).id ≡ id) × (has r (q (level_index (deref s r).price)) ≡ true)
  pub quoted : Quoted b (λ p. count_side bid s (q p)) (λ p. count_side ask s (q p))

pub total-frame :
    (s t : Store) (ps : List Ptr)
    → ((r : Ptr) → has r ps ≡ true → t r ≡ s r)
    → total t ps ≡ total s ps
unfolding total
total-frame s t [] h = refl
total-frame s t (p ∷ ps) h = rw (h p (ground arith), total-frame s t ps (λ r i. h r (ground arith)))

-- What leaves the orders of a level alone leaves the level alone.
pub IsLevel-frame :
    (s t : Store) (l : PriceLevel) (ps : List Ptr)
    → IsLevel s l ps
    → ((r : Ptr) → has r ps ≡ true → t r ≡ s r)
    → IsLevel t l ps
IsLevel-frame s t l ps v h = record {
  head = v.head;
  tail = v.tail;
  chain = Chain-frame s t null ps null v.chain h;
  distinct = v.distinct;
  quantity = v.quantity ∙ ap (λ n. n % 2 ^ 32) (sym (total-frame s t ps h));
  count = v.count;
}

pub Resting-same :
    (s t : Store) (f : OrderId → Option Ptr) (p : ℕ) (r : Ptr)
    → unlinked (t r) ≡ unlinked (s r)
    → Resting s f p r
    → Resting t f p r
Resting-same s t f p r e v =
    let d = details-same (t r) (s r) e in
    record {
      price = ap (λ o. o.price) d ∙ v.price;
      in_range = v.in_range;
      bounded = rw (ap (λ o. o.filled_quantity) d, ap (λ o. o.quantity) d) v.bounded;
      small = rw (ap (λ o. o.quantity) d) v.small;
      mapped = ap f (ap (λ o. o.id) d) ∙ v.mapped;
    }

pub is_empty-length :
    (s : Store) (l : PriceLevel) (ps : List Ptr) → IsLevel s l ps → is_empty l ≡ (length ps == 0)
is_empty-length s l [] v = rw v.head
is_empty-length s l (p ∷ ps) v = rw v.head (v.chain.0.not_null ∙ ground arith)

module _ {s : Store} {b : OrderBook} {q : Queues} (v : IsBook s b q) where
  pub empty-counts :
      (x : ℕ) → is_empty (b.levels x) ≡ ((count_side bid s (q x) + count_side ask s (q x)) == 0)
  empty-counts x = rw (is_empty-length s (b.levels x) (q x) (v.level x), count_sides-length s (q x))

  pub bids_in : (x : ℕ) → 0 < count_side bid s (q x) → x < max_price_ticks
  bids_in x h = let (r, i, _) = counted_order bid s (q x) h in (v.resting x r i).in_range

  pub asks_in : (x : ℕ) → 0 < count_side ask s (q x) → x < max_price_ticks
  asks_in x h = let (r, i, _) = counted_order ask s (q x) h in (v.resting x r i).in_range

  -- An order waits at one price only.
  pub one_price : (x y : ℕ) (r : Ptr) → has r (q x) ≡ true → has r (q y) ≡ true → x ≡ y
  one_price x y r i j = cc ((v.resting x r i).price, (v.resting y r j).price)

  pub apart : (x y : ℕ) (r : Ptr) → (x == y) ≡ false → has r (q x) ≡ true → has r (q y) ≡ false
  apart x y r ne i = elim (Bool-cases (has r (q y))) [
    | inl j ↦ absurd (ground (arith, one_price x y r i j))
    | inr j ↦ j
  ]

-- The new queues when `r` joins the queue at `p`.
abbrev pub enqueue : Queues → ℕ → Ptr → Queues
enqueue q p r = update q p (q p ++ r ∷ [])

-- The counters and best prices read neither the levels nor the map.
pub Quoted-levels :
    {b : OrderBook} {bids asks : ℕ → ℕ} (levels : ℕ → PriceLevel) (f : OrderId → Option Ptr)
    → Quoted b bids asks
    → Quoted (record b { levels = levels; order_map = f }) bids asks
Quoted-levels levels f v = record {
  bid_count = v.bid_count;
  ask_count = v.ask_count;
  bid_bound = v.bid_bound;
  ask_bound = v.ask_bound;
  bid_held = v.bid_held;
  ask_held = v.ask_held;
  uncrossed = v.uncrossed;
  bid_sentinel = v.bid_sentinel;
  ask_sentinel = v.ask_sentinel;
  bid_range = v.bid_range;
  ask_range = v.ask_range;
}

-- The counters and best prices depend on the numbers of orders only.
pub Quoted-same :
    {b : OrderBook} {bids asks bids' asks' : ℕ → ℕ}
    → ((x : ℕ) → bids' x ≡ bids x)
    → ((x : ℕ) → asks' x ≡ asks x)
    → Quoted b bids asks
    → Quoted b bids' asks'
Quoted-same {b} {bids} {asks'} h k v =
    subst (λ f. Quoted b f asks') (sym (fun_ext h))
      (subst (λ f. Quoted b bids f) (sym (fun_ext k)) v)

-- A new order at `p` on this side crosses no order of the other side.
abbrev pub NoCross : Side → ℕ → OrderBook → Type 0
NoCross bid p b = 0 < b.ask_count → p < b.best_ask
NoCross ask p b = 0 < b.bid_count → b.best_bid < p
