-- ===== src/Core/MatchingEngine/Rest.antt =====
-- The end of `process_new_order`: the remainder of a limit order rests in the book, if there is a
-- slot for it and its identifier is new.
use lockfree_matching_engine.Prelude.{
  ℕ, ◌^◌, ◌≤◌, ◌<◌, ◌≡◌, refl, sym, ◌∙◌, ap, ap₂, subst, fun_ext, Bool, true, false, not, ◌||◌,
  none, some, arith, List, [], ◌∷◌, ◌++◌, has, has-ne, has-append, has-split, ◌==◌, ==→eq, ==_refl,
  update, Bool-cases, Option-cases, is_none, inl, inr, if◌then◌else◌, pos,
}
use lockfree_matching_engine.Core.Types.{max_price_ticks}
use lockfree_matching_engine.Core.Order.{Ptr, null, remaining_quantity}
use lockfree_matching_engine.Core.Store.{object, Store, is_object, deref}
use lockfree_matching_engine.Core.PriceLevel.Chain.{Chain-split}
use lockfree_matching_engine.Core.PriceLevel.Invariant.{IsLevel, unlinked, SameOrders, details-same}
use lockfree_matching_engine.Core.OrderBook
use lockfree_matching_engine.Core.OrderBook.Invariant.{Queues, IsBook, enqueue, NoCross}
use lockfree_matching_engine.Core.OrderBook.Fill.{IsBook-frame}
use lockfree_matching_engine.Core.OrderBook.Insert.{Joins, Inserted}
use lockfree_matching_engine.Core.OrderBook.AddOrder.{add_order_refuses, add_order_accepts}
use lockfree_matching_engine.Core.MemoryPool
use lockfree_matching_engine.Core.MemoryPool.FreeList.{
  IsPool, IsPool-frame, allocate_lem, deallocate_lem, not-object_of_free,
}
use lockfree_matching_engine.Core.MatchingEngine.{
  MatchingEngine, resting_order, place, rest, release,
}
use lockfree_matching_engine.Core.MatchingEngine.Invariant.{IsEngine, IsPool-same}
use lockfree_matching_engine.Core.MatchingEngine.Matching.{Offer, offer, offers, offers-same}
use lockfree_matching_engine.Core.MatchingEngine.Sweep.{Depth}
use lockfree_matching_engine.Core.MatchingEngine.Round.{depth_of}
use lockfree_matching_engine.Transport.Message.{NewOrderMessage}

-- What is offered by a remainder of `k`.
abbrev pub offer_of : NewOrderMessage → ℕ → Offer
offer_of msg k = record { maker = msg.id; side = msg.side; left = k }

-- What a change leaves of an engine, if it reports no fill.
pub record Offering (n : ℕ) (e : MatchingEngine) (spec : Depth) (e' : MatchingEngine) : Type 0 where
  pub queues : Queues
  pub free : List Ptr
  pub engine : IsEngine n e' queues free
  pub fills : e'.fills ≡ e.fills
  pub depth : depth_of e'.store queues ≡ spec

pub waits-live :
    (s : Store) (b : OrderBook.OrderBook) (q : Queues) (x : ℕ) (y : Ptr)
    → IsBook s b q
    → has y (q x) ≡ true
    → (is_object (s y) ≡ true) × ((y == null) ≡ false)
waits-live s b q x y v i =
    let (xs, ys, at) = has-split y (q x) i in
    let level = subst (IsLevel s (b.levels x)) at (v.level x) in
    let c = (Chain-split s null xs (y ∷ ys) null level.chain).1.0 in (c.live, c.not_null)

pub offers-append :
    (s : Store) (xs ys : List Ptr) → offers s (xs ++ ys) ≡ offers s xs ++ offers s ys
unfolding offers
offers-append s [] ys = refl
offers-append s (x ∷ xs) ys = ap (◌∷◌ (offer (deref s x))) (offers-append s xs ys)

module _ (n : ℕ) (msg : NewOrderMessage) (p k : ℕ) (e : MatchingEngine) (q : Queues) (r : Ptr)
    (fs : List Ptr) (v : IsEngine n e q (r ∷ fs)) (at : msg.price ≡ pos p)
    (in_range : p < max_price_ticks) (some_left : 0 < k) (fits : k ≤ msg.quantity)
    (small : msg.quantity < 2 ^ 32) where
  pool' : MemoryPool.MemoryPool
  pool' = (MemoryPool.allocate e.store e.pool).1

  allocated :
      ((MemoryPool.allocate e.store e.pool).0 ≡ r) × ((r == null) ≡ false) × IsPool e.store pool' fs
  unfolding pool'
  allocated =
      allocate_lem e.store e.pool (r ∷ fs) v.pool (omega (arith, v.room, v.small, v.pool.count))

  written : Store
  written = update e.store r (object (resting_order msg k))

  written-ne : (y : Ptr) → (y == r) ≡ false → written y ≡ e.store y
  unfolding written
  written-ne y ne = rw ne

  written_self : written r ≡ object (resting_order msg k)
  unfolding written
  written_self = rw ==_refl

  waiting-ne : (x : ℕ) (y : Ptr) → has y (q x) ≡ true → (y == r) ≡ false
  waiting-ne x y i = elim (Bool-cases (y == r)) [
    | inr ne ↦ ne
    | inl is ↦
        let live = (waits-live e.store e.book q x y v.book i).0 in
        let free = not-object_of_free e.store (r ∷ fs) y v.pool.chain (ground arith) in cc
  ]

  written_book : IsBook written e.book q
  written_book =
      IsBook-frame e.store written e.book q v.book (λ x y i. written-ne y (waiting-ne x y i))

  written-IsPool : IsPool written pool' fs
  written-IsPool =
      IsPool-frame e.store written pool' fs allocated.2
        (λ y i. written-ne y (has-ne y r fs i v.pool.distinct.0))

  joins : Joins written q p r
  joins = record {
    live = rw written_self;
    not_null = allocated.1;
    fresh = λ x. elim (Bool-cases (has r (q x))) [
      | inr out ↦ out
      | inl i ↦ let ne = waiting-ne x r i in absurd (ground (arith, ==_refl r))
    ];
    price = rw written_self at;
    in_range = in_range;
    unfilled = rw written_self (omega arith);
    small = rw written_self small;
  }

  step : MatchingEngine
  step = record e { pool = pool' }

  rest-place : rest msg k e ≡ place r msg k step
  unfolding rest step pool'
  rest-place = rw (allocated.0, allocated.1)

  -- Who waits in the new queues, but for the new order, waited before.
  waited :
      (x : ℕ) (y : Ptr) → has y (enqueue q p r x) ≡ true → (y == r) ≡ false → has y (q x) ≡ true
  waited x y i ne = elim (Bool-cases (x == p)) [
    | inl is ↦ subst (λ z. has y (q z) ≡ true) (sym (==→eq _ _ is)) (waited_here (rw is at i))
    | inr isnt ↦ rw isnt at i
  ]
    where
      waited_here : has y (q p ++ r ∷ []) ≡ true → has y (q p) ≡ true
      waited_here h = ground (arith, has-append y (q p) (r ∷ []))

  added : Bool × Store × OrderBook.OrderBook
  added = OrderBook.add_order r written e.book

  others-same : (t : Store) → SameOrders written t → (x : ℕ) → offers t (q x) ≡ offers e.store (q x)
  others-same t same x =
      offers-same e.store t (q x) (λ y i. same y ∙ ap unlinked (written-ne y (waiting-ne x y i)))

  resting-left : remaining_quantity (resting_order msg k) ≡ k
  resting-left = omega arith

  -- The identifier is taken: the slot goes back.
  module _ (other : Ptr) (known : e.book.order_map msg.id ≡ some other) where
    refused : added ≡ (false, written, e.book)
    unfolding added
    refused = add_order_refuses written e.book r (inr (other, rw written_self known))

    freed : Store × MemoryPool.MemoryPool
    freed = MemoryPool.deallocate r written pool'

    place-refused : place r msg k step ≡ record e { store = freed.0; pool = freed.1 }
    unfolding place release step freed added written
    place-refused = rw refused

    freed-IsPool : IsPool freed.0 freed.1 (r ∷ fs)
    unfolding freed
    freed-IsPool =
        deallocate_lem written pool' fs r written-IsPool joins.live joins.not_null
          (omega (arith, v.pool.count, v.room, v.small))

    freed-ne : (y : Ptr) → (y == r) ≡ false → freed.0 y ≡ e.store y
    unfolding freed MemoryPool.deallocate
    freed-ne y ne = rw ne (written-ne y ne)

    rest-refused : Offering n e (depth_of e.store q) (rest msg k e)
    rest-refused =
        rw (rest-place, place-refused)
          (record {
            queues = q;
            free = r ∷ fs;
            engine = record {
              book =
                  IsBook-frame e.store freed.0 e.book q v.book
                    (λ x y i. freed-ne y (waiting-ne x y i));
              unfilled = λ x y i. rw (freed-ne y (waiting-ne x y i)) (v.unfilled x y i);
              pool = freed-IsPool;
              room = omega (arith, v.room, v.pool.count, freed-IsPool.count);
              small = v.small;
            };
            fills = refl;
            depth = fun_ext (λ x.
                offers-same e.store freed.0 (q x)
                  (λ y i. ap unlinked (freed-ne y (waiting-ne x y i))));
          })

  -- The order waits behind the others at its price.
  module _ (new : e.book.order_map msg.id ≡ none) (cross : NoCross msg.side p e.book) where
    accepted : (added.0 ≡ true) × Inserted written e.book q p r (added.1, added.2)
    unfolding added
    accepted =
        add_order_accepts written e.book q p r written_book joins (rw written_self new)
          (omega (arith, v.room, v.small, v.pool.count)) (rw written_self cross)

    place-accepted : place r msg k step ≡ record e { store = added.1; book = added.2; pool = pool' }
    unfolding place step added written
    place-accepted = rw accepted.0

    now_unfilled :
        (x : ℕ) (y : Ptr)
        → has y (enqueue q p r x) ≡ true
        → (deref added.1 y).filled_quantity < (deref added.1 y).quantity
    now_unfilled x y i =
        let d = details-same (added.1 y) (written y) (accepted.1.same y) in
        rw (ap (λ o. o.filled_quantity) d, ap (λ o. o.quantity) d)
          (elim (Bool-cases (y == r)) [
            | inl is ↦ at_order y (==→eq _ _ is)
            | inr ne ↦ rw (written-ne y ne) (v.unfilled x y (waited x y i ne))
          ])
      where
        at_order :
            (y : Ptr) → y ≡ r → (deref written y).filled_quantity < (deref written y).quantity
        at_order y is = rw is joins.unfilled

    last_offered : offers added.1 (r ∷ []) ≡ offer_of msg k ∷ []
    unfolding offers
    last_offered =
        let d = details-same (added.1 r) (written r) (accepted.1.same r) in
        ap (λ o. offer o ∷ []) d
        ∙ rw written_self
            (λ i. record { maker = msg.id; side = msg.side; left = resting-left i } ∷ [])

    now_offered :
        (x : ℕ)
        → offers added.1 (enqueue q p r x)
          ≡ update (depth_of e.store q) p (offers e.store (q p) ++ offer_of msg k ∷ []) x
    now_offered x = elim (Bool-cases (x == p)) [
      | inl i ↦ rw i (
          offers-append added.1 (q p) (r ∷ [])
          ∙ ap₂ ◌++◌ (others-same added.1 accepted.1.same p) last_offered)
      | inr i ↦ rw i (others-same added.1 accepted.1.same x)
    ]

    now-IsPool : IsPool added.1 pool' fs
    now-IsPool = IsPool-same written added.1 pool' fs accepted.1.same written-IsPool

    rest-accepted :
        Offering n e
          (update (depth_of e.store q) p (offers e.store (q p) ++ offer_of msg k ∷ []))
          (rest msg k e)
    rest-accepted =
        rw (rest-place, place-accepted)
          (record {
            queues = enqueue q p r;
            free = fs;
            engine = record {
              book = accepted.1.book;
              unfilled = now_unfilled;
              pool = now-IsPool;
              room = omega (arith, v.room, v.pool.count, now-IsPool.count, accepted.1.total);
              small = v.small;
            };
            fills = refl;
            depth = fun_ext now_offered;
          })

rest-exhausted :
    (msg : NewOrderMessage) (k : ℕ) (e : MatchingEngine)
    → e.pool.free_head ≡ null
    → rest msg k e ≡ e
unfolding rest MemoryPool.allocate
rest-exhausted msg k e h = rw h

-- No slot is free: the remainder is dropped.
rest-dropped :
    (n : ℕ) (msg : NewOrderMessage) (k : ℕ) (e : MatchingEngine) (q : Queues)
    → IsEngine n e q []
    → Offering n e (depth_of e.store q) (rest msg k e)
rest-dropped n msg k e q v =
    rw (rest-exhausted msg k e v.pool.head)
      (record { queues = q; free = []; engine = v; fills = refl; depth = refl })

-- The depth after a remainder of `k`: one offer more, at the back of the queue of its price, if a
-- slot is free and the identifier is in no order that waits.
abbrev pub rested : MatchingEngine → Queues → NewOrderMessage → ℕ → ℕ → Depth
rested e q msg p k =
    if (e.pool.available == 0) || not (is_none (e.book.order_map msg.id))
    then depth_of e.store q
    else update (depth_of e.store q) p (offers e.store (q p) ++ offer_of msg k ∷ [])

pub rest_lem :
    (n : ℕ) (msg : NewOrderMessage) (p k : ℕ) (e : MatchingEngine) (q : Queues) (fs : List Ptr)
    → IsEngine n e q fs
    → msg.price ≡ pos p
    → p < max_price_ticks
    → 0 < k
    → k ≤ msg.quantity
    → msg.quantity < 2 ^ 32
    → NoCross msg.side p e.book
    → Offering n e (rested e q msg p k) (rest msg k e)
rest_lem n msg p k e q [] v at in_range some_left fits small cross =
    let none_free : (e.pool.available == 0) ≡ true = ground (arith, v.pool.count) in
    rw none_free (rest-dropped n msg k e q v)
rest_lem n msg p k e q (r ∷ fs) v at in_range some_left fits small cross =
    let some_free : (e.pool.available == 0) ≡ false = ground (arith, v.pool.count) in
    elim (Option-cases (e.book.order_map msg.id)) [
      | inl new ↦
          rw (some_free, new)
            (rest-accepted n msg p k e q r fs v at in_range some_left fits small new cross)
      | inr (other, known) ↦
          rw (some_free, known)
            (rest-refused n msg p k e q r fs v at in_range some_left fits small other known)
    ]
