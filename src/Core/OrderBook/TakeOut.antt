-- ===== src/Core/OrderBook/TakeOut.antt =====
-- `OrderBook::cancel_order` of an order in the map: it leaves the queue of its price.
use lockfree_matching_engine.Prelude.{
  ℕ, ◌+◌, ◌^◌, ◌<◌, ◌≡◌, refl, sym, ap, subst, ◌∙◌, true, false, Option, none, some, arith, ◌==◌,
  ==→eq, ==_refl, Bool-cases, inl, inr, List, ◌∷◌, ◌++◌, has, has-ne, has-append, update, Around,
  Distinct-Around,
}
use lockfree_matching_engine.Core.Types.{OrderId, Side, bid, ask}
use lockfree_matching_engine.Core.Order.{Ptr}
use lockfree_matching_engine.Core.Store.{Store, deref}
use lockfree_matching_engine.Core.PriceLevel.{PriceLevel, State, remove}
use lockfree_matching_engine.Core.PriceLevel.Invariant.{
  IsLevel, SameOrders, SameOutside, details-same,
}
use lockfree_matching_engine.Core.PriceLevel.PushBack.{Requeued}
use lockfree_matching_engine.Core.PriceLevel.Remove.{remove_lem}
use lockfree_matching_engine.Core.OrderBook.{
  OrderBook, level_index, take_out, repair_best, count_removed,
}
use lockfree_matching_engine.Core.OrderBook.Counts.{count_side, count_sides-length, counted_order}
use lockfree_matching_engine.Core.OrderBook.Quotes.{Quoted, Ranged, bids_counted, asks_counted}
use lockfree_matching_engine.Core.OrderBook.Repair.{repair_best-bid}
use lockfree_matching_engine.Core.OrderBook.RepairAsk.{repair_best-ask}
use lockfree_matching_engine.Core.OrderBook.Invariant.{
  Queues, Resting, IsBook, IsLevel-frame, Resting-same, apart, is_empty-length, Quoted-same,
}
use lockfree_matching_engine.Core.OrderBook.Recount.{one_left, none_left}

-- What a removal leaves: the book of the queues without `r`.
pub record TakenOut (s : Store) (b : OrderBook) (q : Queues) (p : ℕ) (r : Ptr) (xs ys : List Ptr)
    (out : Store × OrderBook) : Type 0 where
  pub book : IsBook out.0 out.1 (update q p (xs ++ ys))
  pub total : out.1.bid_count + out.1.ask_count + 1 ≡ b.bid_count + b.ask_count
  pub same : SameOrders s out.0
  pub forgotten : out.1.order_map (deref s r).id ≡ none
  pub outside : SameOutside (q p) s out.0

-- The repair touches best prices only.
pub repair-levels : (d : Side) (p : ℕ) (b : OrderBook) → (repair_best d p b).levels ≡ b.levels
unfolding repair_best
repair-levels bid p b = ground arith
repair-levels ask p b = ground arith

pub repair-map : (d : Side) (p : ℕ) (b : OrderBook) → (repair_best d p b).order_map ≡ b.order_map
unfolding repair_best
repair-map bid p b = ground arith
repair-map ask p b = ground arith

repair-counts :
    (d : Side) (p : ℕ) (b : OrderBook)
    → ((repair_best d p b).bid_count ≡ b.bid_count) × ((repair_best d p b).ask_count ≡ b.ask_count)
unfolding repair_best
repair-counts bid p b = ground arith
repair-counts ask p b = ground arith

module _ (s : Store) (b : OrderBook) (q : Queues) (p : ℕ) (r : Ptr) (xs ys : List Ptr)
    (v : IsBook s b q) (at : q p ≡ xs ++ r ∷ ys) where
  id : OrderId
  id = (deref s r).id

  removed : State
  removed = remove r (s, b.levels p)

  IsLevel-before : IsLevel s (b.levels p) (xs ++ r ∷ ys)
  IsLevel-before = subst (IsLevel s (b.levels p)) at (v.level p)

  removed_lem : Requeued s (xs ++ r ∷ ys) (xs ++ ys) removed
  unfolding removed
  removed_lem = remove_lem s (b.levels p) xs r ys IsLevel-before

  around : Around xs r ys
  around = Distinct-Around xs r ys IsLevel-before.distinct

  queues' : Queues
  queues' = update q p (xs ++ ys)

  levels' : ℕ → PriceLevel
  levels' = update b.levels p removed.1

  map' : OrderId → Option Ptr
  unfolding id
  map' = update b.order_map id none

  had : has r (q p) ≡ true
  had = rw at (ground (arith, has-append r xs (r ∷ ys)))

  order : Resting s b.order_map p r
  order = v.resting p r had

  elsewhere-same : (x : ℕ) (y : Ptr) → (x == p) ≡ false → has y (q x) ≡ true → removed.0 y ≡ s y
  elsewhere-same x y ne i = removed_lem.outside y (rw at at (apart v x p y ne i))

  takeout-IsLevel : (x : ℕ) → IsLevel removed.0 (levels' x) (queues' x)
  unfolding levels' queues'
  takeout-IsLevel x = elim (Bool-cases (x == p)) [
    | inl e ↦ rw e removed_lem.level
    | inr e ↦
        rw e
          (IsLevel-frame s removed.0 (b.levels x) (q x) (v.level x) (λ y i. elsewhere-same x y e i))
  ]

  not_elsewhere : (x : ℕ) → (x == p) ≡ false → has r (q x) ≡ false
  not_elsewhere x ne = apart v p x r (ground arith) had

  stayed_here : (y : Ptr) → has y (xs ++ ys) ≡ true → (has y (q p) ≡ true) × ((y == r) ≡ false)
  stayed_here y h =
      let a = has-append y xs ys in
      let c = has-append y xs (r ∷ ys) in
      let d = has-append r xs ys in
      (
        rw at (ground arith),
        has-ne y r (xs ++ ys) h (ground (arith, around.not_left, around.not_right)),
      )

  -- What is left in a queue was in it, and is not the order that has gone.
  pub stayed :
      (x : ℕ) (y : Ptr)
      → has y (update q p (xs ++ ys) x) ≡ true
      → (has y (q x) ≡ true) × ((y == r) ≡ false)
  stayed x y i = elim (Bool-cases (x == p)) [
    | inl e ↦
        subst (λ z. (has y (q z) ≡ true) × ((y == r) ≡ false)) (sym (==→eq _ _ e))
          (stayed_here y (rw e at i))
    | inr e ↦ let j : has y (q x) ≡ true = rw e at i in (j, has-ne y r (q x) j (not_elsewhere x e))
  ]

  other_id :
      (x : ℕ) (y : Ptr)
      → Resting s b.order_map x y
      → (y == r) ≡ false
      → ((deref s y).id == id) ≡ false
  unfolding id
  other_id x y o ne = elim (Bool-cases ((deref s y).id == (deref s r).id)) [
    | inr e ↦ e
    | inl e ↦ same_order (==→eq _ _ e)
  ]
    where
      same_order : (deref s y).id ≡ (deref s r).id → ((deref s y).id == (deref s r).id) ≡ false
      same_order e =
          let k : some y ≡ some r = sym o.mapped ∙ ap b.order_map e ∙ order.mapped in
          let y_is : y ≡ r = cc in absurd (ground arith)

  takeout-Resting : (x : ℕ) (y : Ptr) → has y (queues' x) ≡ true → Resting removed.0 map' x y
  unfolding map' id queues'
  takeout-Resting x y i =
      let (j, ne) = stayed x y i in
      let o = v.resting x y j in
      let t = Resting-same s removed.0 b.order_map x y (removed_lem.same y) o in
      let d = details-same (removed.0 y) (s y) (removed_lem.same y) in
      record {
        price = t.price;
        in_range = t.in_range;
        bounded = t.bounded;
        small = t.small;
        mapped = rw (ap (λ o. o.id) d, other_id x y o ne) o.mapped;
      }

  kept : (x : ℕ) (y : Ptr) → has y (q x) ≡ true → (y == r) ≡ false → has y (queues' x) ≡ true
  unfolding queues'
  kept x y i ne = elim (Bool-cases (x == p)) [
    | inl e ↦ rw e (kept_here (subst (λ z. has y (q z) ≡ true) (==→eq _ _ e) i))
    | inr e ↦ rw e i
  ]
    where
      kept_here : has y (q p) ≡ true → has y (xs ++ ys) ≡ true
      kept_here h =
          let j : has y (xs ++ r ∷ ys) ≡ true = rw at at h in
          ground (arith, has-append y xs ys, has-append y xs (r ∷ ys))

  takeout-known :
      (i : OrderId) (y : Ptr)
      → map' i ≡ some y
      → ((deref removed.0 y).id ≡ i)
        × (has y (queues' (level_index (deref removed.0 y).price)) ≡ true)
  unfolding map' id
  takeout-known i y m = elim (Bool-cases (i == (deref s r).id)) [
    | inl e ↦ let k : none ≡ some y = rw e at m in cc
    | inr e ↦ other e (rw e at m)
  ]
    where
      other :
          (i == (deref s r).id) ≡ false
          → b.order_map i ≡ some y
          → ((deref removed.0 y).id ≡ i)
            × (has y (queues' (level_index (deref removed.0 y).price)) ≡ true)
      other ne k =
          let d = details-same (removed.0 y) (s y) (removed_lem.same y) in
          let (a, c) = v.known i y k in
          let y_ne = other_order ne a in
          (
            ap (λ o. o.id) d ∙ a,
            rw (ap (λ o. o.price) d) (kept (level_index (deref s y).price) y c y_ne),
          )
        where
          other_order : (i == (deref s r).id) ≡ false → (deref s y).id ≡ i → (y == r) ≡ false
          other_order n e = elim (Bool-cases (y == r)) [
            | inr f ↦ f
            | inl f ↦ absurd (clash (==→eq _ _ f))
          ]
            where
              clash : y ≡ r → ⊥
              clash f = let g = ap (λ z. (deref s z).id) f in ground arith

  bids' : ℕ → ℕ
  bids' x = count_side bid removed.0 (queues' x)

  asks' : ℕ → ℕ
  asks' x = count_side ask removed.0 (queues' x)

  takeout-Ranged : Ranged levels' bids' asks'
  unfolding bids' asks'
  takeout-Ranged = record {
    bids_in = λ x h.
        let (y, i, _) = counted_order bid removed.0 (queues' x) h in
        (takeout-Resting x y i).in_range;
    asks_in = λ x h.
        let (y, i, _) = counted_order ask removed.0 (queues' x) h in
        (takeout-Resting x y i).in_range;
    empty = λ x. rw (
      is_empty-length removed.0 (levels' x) (queues' x) (takeout-IsLevel x),
      count_sides-length removed.0 (queues' x),
    );
  }

  -- The book before the repair.
  unrepaired : Side → OrderBook
  unrepaired d = count_removed d (record b { levels = levels'; order_map = map' })

  takeout-quoted_bid :
      (deref s r).side ≡ bid
      → b.bid_count + b.ask_count < 2 ^ 64
      → Quoted (repair_best bid p (unrepaired bid)) bids' asks'
  unfolding unrepaired bids' asks' queues'
  takeout-quoted_bid h small =
      let one = one_left s removed.0 q p r xs ys at removed_lem.same bid h in
      let some_bid = bids_counted v.quoted p order.in_range (omega (arith, one.here)) in
      repair_best-bid (record {
        before =
            Quoted-same (λ x. refl)
              (λ x. sym (none_left s removed.0 q p r xs ys at removed_lem.same ask bid h refl x))
              v.quoted;
        one = one;
        in_range = order.in_range;
        ranged = takeout-Ranged;
        bid_count = omega arith;
        ask_count = refl;
        best_bid = refl;
        best_ask = refl;
      })

  takeout-quoted_ask :
      (deref s r).side ≡ ask
      → b.bid_count + b.ask_count < 2 ^ 64
      → Quoted (repair_best ask p (unrepaired ask)) bids' asks'
  unfolding unrepaired bids' asks' queues'
  takeout-quoted_ask h small =
      let one = one_left s removed.0 q p r xs ys at removed_lem.same ask h in
      let some_ask = asks_counted v.quoted p order.in_range (omega (arith, one.here)) in
      repair_best-ask (record {
        before =
            Quoted-same
              (λ x. sym (none_left s removed.0 q p r xs ys at removed_lem.same bid ask h refl x))
              (λ x. refl) v.quoted;
        one = one;
        in_range = order.in_range;
        ranged = takeout-Ranged;
        ask_count = omega arith;
        bid_count = refl;
        best_bid = refl;
        best_ask = refl;
      })

  takeout-quoted :
      (d : Side)
      → (deref s r).side ≡ d
      → b.bid_count + b.ask_count < 2 ^ 64
      → Quoted (repair_best d p (unrepaired d)) bids' asks'
  takeout-quoted bid = takeout-quoted_bid
  takeout-quoted ask = takeout-quoted_ask

  takeout-total :
      (d : Side)
      → (deref s r).side ≡ d
      → b.bid_count + b.ask_count < 2 ^ 64
      → (repair_best d p (unrepaired d)).bid_count + (repair_best d p (unrepaired d)).ask_count + 1
        ≡ b.bid_count + b.ask_count
  unfolding unrepaired
  takeout-total bid h small =
      let one = one_left s removed.0 q p r xs ys at removed_lem.same bid h in
      let some_bid = bids_counted v.quoted p order.in_range (omega (arith, one.here)) in
      let (i, j) = repair-counts bid p (unrepaired bid) in omega arith
  takeout-total ask h small =
      let one = one_left s removed.0 q p r xs ys at removed_lem.same ask h in
      let some_ask = asks_counted v.quoted p order.in_range (omega (arith, one.here)) in
      let (i, j) = repair-counts ask p (unrepaired ask) in omega arith

  repaired-IsLevel :
      (d : Side) (x : ℕ) → IsLevel removed.0 ((repair_best d p (unrepaired d)).levels x) (queues' x)
  unfolding unrepaired
  repaired-IsLevel bid x = rw (repair-levels bid p (unrepaired bid)) (takeout-IsLevel x)
  repaired-IsLevel ask x = rw (repair-levels ask p (unrepaired ask)) (takeout-IsLevel x)

  repaired-map : (d : Side) → (repair_best d p (unrepaired d)).order_map ≡ map'
  unfolding unrepaired
  repaired-map bid = repair-map bid p (unrepaired bid)
  repaired-map ask = repair-map ask p (unrepaired ask)

  take_out-steps :
      (d : Side)
      → (deref s r).side ≡ d
      → take_out r (deref s r).id s b ≡ (removed.0, repair_best d p (unrepaired d))
  unfolding take_out removed unrepaired levels' map' id
  take_out-steps d h = rw (h, order.price)

  forgot : map' (deref s r).id ≡ none
  unfolding map' id
  forgot = rw ==_refl

  -- The order is gone from its queue and from the map, is counted no more, and the best prices
  -- are those of the orders that are left.
  pub take_out_lem :
      (d : Side)
      → (deref s r).side ≡ d
      → b.bid_count + b.ask_count < 2 ^ 64
      → TakenOut s b q p r xs ys (take_out r (deref s r).id s b)
  unfolding queues' bids' asks' map' id
  take_out_lem d h small = rw (take_out-steps d h) (record {
    book = record {
      level = repaired-IsLevel d;
      resting = λ x y i.
          subst (λ f. Resting removed.0 f x y) (sym (repaired-map d)) (takeout-Resting x y i);
      known = λ i y m. takeout-known i y (subst (λ f. f i ≡ some y) (repaired-map d) m);
      quoted = takeout-quoted d h small;
    };
    total = takeout-total d h small;
    same = removed_lem.same;
    forgotten = rw (repaired-map d) forgot;
    outside = λ y o. removed_lem.outside y (rw at at o);
  })
