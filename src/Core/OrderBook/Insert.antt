-- ===== src/Core/OrderBook/Insert.antt =====
-- `OrderBook::add_order`, past its two checks: the order joins the queue of its price.
use lockfree_matching_engine.Prelude.{
  ℕ, ◌+◌, ◌^◌, ◌<◌, ◌≡◌, refl, sym, ap, subst, ◌∙◌, true, false, Option, none, some, arith, ◌==◌,
  ==→eq, ==_refl, Bool-cases, inl, inr, if◌then◌else◌, [], ◌∷◌, ◌++◌, has, has-ne, has-append, pos,
  update,
}
use lockfree_matching_engine.Core.Types.{OrderId, Side, bid, ask, max_price_ticks}
use lockfree_matching_engine.Core.Order.{Ptr, null}
use lockfree_matching_engine.Core.Store.{Store, is_object, deref}
use lockfree_matching_engine.Core.PriceLevel.{PriceLevel, State, push_back}
use lockfree_matching_engine.Core.PriceLevel.Invariant.{
  IsLevel, SameOrders, SameOutside, details-same,
}
use lockfree_matching_engine.Core.PriceLevel.PushBack.{Requeued, push_back_lem}
use lockfree_matching_engine.Core.OrderBook.{OrderBook, level_index, insert, count_added}
use lockfree_matching_engine.Core.OrderBook.Counts.{count_side}
use lockfree_matching_engine.Core.OrderBook.Quotes.{Quoted, count_added-bid, count_added-ask}
use lockfree_matching_engine.Core.OrderBook.Invariant.{
  Queues, Resting, IsBook, IsLevel-frame, Resting-same, enqueue, apart, asks_in, NoCross,
  Quoted-levels, Quoted-same,
}
use lockfree_matching_engine.Core.OrderBook.Recount.{one_joined, none_joined}

-- An order that may join the queue at `p`: in range, not filled, and in no queue yet.
pub record Joins (s : Store) (q : Queues) (p : ℕ) (r : Ptr) : Type 0 where
  pub live : is_object (s r) ≡ true
  pub not_null : (r == null) ≡ false
  pub fresh : (x : ℕ) → has r (q x) ≡ false
  pub price : (deref s r).price ≡ pos p
  pub in_range : p < max_price_ticks
  pub unfilled : (deref s r).filled_quantity < (deref s r).quantity
  pub small : (deref s r).quantity < 2 ^ 32

-- What an insertion leaves: the book of the queues with `r` behind the others at `p`.
pub record Inserted (s : Store) (b : OrderBook) (q : Queues) (p : ℕ) (r : Ptr)
    (out : Store × OrderBook) : Type 0 where
  pub book : IsBook out.0 out.1 (enqueue q p r)
  pub total : out.1.bid_count + out.1.ask_count ≡ b.bid_count + b.ask_count + 1
  pub same : SameOrders s out.0
  pub outside : SameOutside (r ∷ q p) s out.0

module _ (s : Store) (b : OrderBook) (q : Queues) (p : ℕ) (r : Ptr) (v : IsBook s b q)
    (j : Joins s q p r) (unused : b.order_map (deref s r).id ≡ none) where
  pushed : State
  pushed = push_back r (s, b.levels p)

  pushed_lem : Requeued s (r ∷ q p) (q p ++ r ∷ []) pushed
  unfolding pushed
  pushed_lem = push_back_lem s (b.levels p) r (q p) (v.level p) j.live j.not_null (j.fresh p)

  levels' : ℕ → PriceLevel
  levels' = update b.levels p pushed.1

  map' : OrderId → Option Ptr
  map' = update b.order_map (deref s r).id (some r)

  elsewhere-same : (x : ℕ) (y : Ptr) → (x == p) ≡ false → has y (q x) ≡ true → pushed.0 y ≡ s y
  elsewhere-same x y ne i =
      let a = apart v x p y ne i in
      let n = has-ne y r (q x) i (j.fresh x) in pushed_lem.outside y (ground arith)

  insert-IsLevel : (x : ℕ) → IsLevel pushed.0 (levels' x) (enqueue q p r x)
  unfolding levels'
  insert-IsLevel x = elim (Bool-cases (x == p)) [
    | inl e ↦ rw e pushed_lem.level
    | inr e ↦
        rw e
          (IsLevel-frame s pushed.0 (b.levels x) (q x) (v.level x) (λ y i. elsewhere-same x y e i))
  ]

  old-Resting : (x : ℕ) (y : Ptr) → Resting s b.order_map x y → Resting pushed.0 map' x y
  unfolding map'
  old-Resting x y o =
      let t = Resting-same s pushed.0 b.order_map x y (pushed_lem.same y) o in
      record {
        price = t.price;
        in_range = t.in_range;
        bounded = t.bounded;
        small = t.small;
        mapped = other_id t.mapped;
      }
    where
      other_id :
          b.order_map (deref pushed.0 y).id ≡ some y
          → (if (deref pushed.0 y).id == (deref s r).id
              then some r
              else b.order_map (deref pushed.0 y).id)
            ≡ some y
      other_id m = elim (Bool-cases ((deref pushed.0 y).id == (deref s r).id)) [
        | inl e ↦ absurd (cc (m, unused, ==→eq _ _ e))
        | inr e ↦ rw e m
      ]

  new-Resting : Resting pushed.0 map' p r
  unfolding map'
  new-Resting =
      let d = details-same (pushed.0 r) (s r) (pushed_lem.same r) in
      record {
        price = ap (λ o. o.price) d ∙ j.price;
        in_range = j.in_range;
        bounded =
            rw (ap (λ o. o.filled_quantity) d, ap (λ o. o.quantity) d) (omega (arith, j.unfilled));
        small = rw (ap (λ o. o.quantity) d) j.small;
        mapped = rw (ap (λ o. o.id) d, ==_refl);
      }

  insert-Resting : (x : ℕ) (y : Ptr) → has y (enqueue q p r x) ≡ true → Resting pushed.0 map' x y
  insert-Resting x y i = elim (Bool-cases (x == p)) [
    | inl e ↦ at_price (==→eq _ _ e) (rw e at i)
    | inr e ↦ old-Resting x y (v.resting x y (rw e at i))
  ]
    where
      at_price : x ≡ p → has y (q p ++ r ∷ []) ≡ true → Resting pushed.0 map' x y
      at_price e h = rw e (elim (Bool-cases (has y (q p))) [
        | inl k ↦ old-Resting p y (v.resting p y k)
        | inr k ↦
            let y_is : y ≡ r = ground (arith, has-append y (q p) (r ∷ [])) in rw y_is new-Resting
      ])

  joined : (x : ℕ) (y : Ptr) → has y (q x) ≡ true → has y (enqueue q p r x) ≡ true
  joined x y i = elim (Bool-cases (x == p)) [
    | inl e ↦ rw e (at_price (==→eq _ _ e))
    | inr e ↦ rw e i
  ]
    where
      at_price : x ≡ p → has y (q p ++ r ∷ []) ≡ true
      at_price e =
          let k = subst (λ z. has y (q z) ≡ true) e i in ground (arith, has-append y (q p) (r ∷ []))

  joined_self : has r (enqueue q p r p) ≡ true
  joined_self = rw ==_refl (ground (arith, has-append r (q p) (r ∷ [])))

  insert-known :
      (id : OrderId) (y : Ptr)
      → map' id ≡ some y
      → ((deref pushed.0 y).id ≡ id)
        × (has y (enqueue q p r (level_index (deref pushed.0 y).price)) ≡ true)
  unfolding map'
  insert-known id y m = elim (Bool-cases (id == (deref s r).id)) [
    | inl e ↦ let k : some r ≡ some y = rw e at m in self (==→eq _ _ e) (cc)
    | inr e ↦ other (rw e at m)
  ]
    where
      Known : Ptr → Type 0
      Known z =
          ((deref pushed.0 z).id ≡ id)
          × (has z (enqueue q p r (level_index (deref pushed.0 z).price)) ≡ true)

      self : id ≡ (deref s r).id → r ≡ y → Known y
      self e z =
          let d = details-same (pushed.0 r) (s r) (pushed_lem.same r) in
          subst Known z (ap (λ o. o.id) d ∙ sym e, rw (ap (λ o. o.price) d, j.price) joined_self)

      other : b.order_map id ≡ some y → Known y
      other k =
          let d = details-same (pushed.0 y) (s y) (pushed_lem.same y) in
          let (a, c) = v.known id y k in
          (
            ap (λ o. o.id) d ∙ a,
            rw (ap (λ o. o.price) d) (joined (level_index (deref s y).price) y c),
          )

  insert-quoted_bid :
      (deref s r).side ≡ bid
      → b.bid_count + 1 < 2 ^ 64
      → NoCross bid p b
      → Quoted
          (count_added bid p (record b { levels = levels'; order_map = map' }))
          (λ x. count_side bid pushed.0 (enqueue q p r x))
          (λ x. count_side ask pushed.0 (enqueue q p r x))
  insert-quoted_bid h small cross =
      count_added-bid _ _ _ _ p
        (Quoted-same (λ x. refl) (none_joined s pushed.0 q p r pushed_lem.same ask bid h refl)
          (Quoted-levels levels' map' v.quoted))
        (one_joined s pushed.0 q p r pushed_lem.same bid h) j.in_range small cross

  insert-quoted_ask :
      (deref s r).side ≡ ask
      → b.ask_count + 1 < 2 ^ 64
      → NoCross ask p b
      → Quoted
          (count_added ask p (record b { levels = levels'; order_map = map' }))
          (λ x. count_side bid pushed.0 (enqueue q p r x))
          (λ x. count_side ask pushed.0 (enqueue q p r x))
  insert-quoted_ask h small cross =
      count_added-ask _ _ _ _ p
        (Quoted-same (none_joined s pushed.0 q p r pushed_lem.same bid ask h refl) (λ x. refl)
          (Quoted-levels levels' map' v.quoted))
        (one_joined s pushed.0 q p r pushed_lem.same ask h) j.in_range (asks_in v) small cross

  book' : Side → OrderBook
  book' d = count_added d p (record b { levels = levels'; order_map = map' })

  insert-steps : (d : Side) → (deref s r).side ≡ d → insert r p s b ≡ (pushed.0, book' d)
  unfolding insert pushed levels' map' book'
  insert-steps d h = rw h

  insert-IsBook :
      (d : Side)
      → (deref s r).side ≡ d
      → b.bid_count + b.ask_count + 1 < 2 ^ 64
      → NoCross d p b
      → IsBook pushed.0 (book' d) (enqueue q p r)
        × ((book' d).bid_count + (book' d).ask_count ≡ b.bid_count + b.ask_count + 1)
  unfolding book' count_added
  insert-IsBook bid h small cross = (
    record {
      level = insert-IsLevel;
      resting = insert-Resting;
      known = insert-known;
      quoted = insert-quoted_bid h (omega arith) cross;
    },
    omega arith,
  )
  insert-IsBook ask h small cross = (
    record {
      level = insert-IsLevel;
      resting = insert-Resting;
      known = insert-known;
      quoted = insert-quoted_ask h (omega arith) cross;
    },
    omega arith,
  )

  -- The order is at the back of the queue of its price, counted, quoted and known to the map.
  pub insert_lem :
      (d : Side)
      → (deref s r).side ≡ d
      → b.bid_count + b.ask_count + 1 < 2 ^ 64
      → NoCross d p b
      → Inserted s b q p r (insert r p s b)
  insert_lem d h small cross =
      let (book, total) = insert-IsBook d h small cross in
      rw (insert-steps d h) (record {
        book = book;
        total = total;
        same = pushed_lem.same;
        outside = pushed_lem.outside;
      })
