-- ===== src/Core/MatchingEngine/FillFront.antt =====
-- One round of the loop of `fill_level` in core/matching_engine.cpp.
use lockfree_matching_engine.Prelude.{
  ℕ, ◌+◌, ◌-◌, ◌^◌, ◌≤◌, ◌<◌, min, ◌≡◌, refl, ◌∙◌, ap, subst, true, false, arith, List, [], ◌∷◌,
  ◌++◌, has, update, ◌==◌, ==→eq, Bool-cases, inl, inr, sub32, has-ne,
}
use lockfree_matching_engine.Core.Types.{OrderId, Side, Quantity, Timestamp}
use lockfree_matching_engine.Core.Order.{Ptr, remaining_quantity, is_filled}
use lockfree_matching_engine.Core.Store.{is_object, deref}
use lockfree_matching_engine.Core.PriceLevel.{front}
use lockfree_matching_engine.Core.PriceLevel.Invariant.{IsLevel, unlinked}
use lockfree_matching_engine.Core.PriceLevel.Fill.{fill}
use lockfree_matching_engine.Core.OrderBook.Invariant.{Queues, IsBook}
use lockfree_matching_engine.Core.OrderBook.Fill.{Filled, fill-IsBook, Filled-order, untouched}
use lockfree_matching_engine.Core.MemoryPool.FreeList.{IsPool, IsPool-frame, not-free_of_object}
use lockfree_matching_engine.Core.MatchingEngine.{
  MatchingEngine, release, cancel_in_book, record_fill, drop_if_filled, fill_front,
}
use lockfree_matching_engine.Core.MatchingEngine.Invariant.{UnfilledBut, IsEngine}
use lockfree_matching_engine.Core.MatchingEngine.Release.{Released, release_lem}
use lockfree_matching_engine.Core.MatchingEngine.Matching.{offer, trade, fill_message}
use lockfree_matching_engine.Transport.Message.{FillMessage}

-- What a round does to the memory and the fills: `qty` is taken from `r`, and one fill is
-- reported. (The order is looked at only if something is left of it.)
pub record Taken (e e' : MatchingEngine) (r : Ptr) (qty : Quantity) (m : FillMessage) : Type 0 where
  pub order :
      qty < remaining_quantity (deref e.store r)
      → offer (deref e'.store r)
        ≡ record (offer (deref e.store r)) { left = remaining_quantity (deref e.store r) - qty }
  pub others : (y : Ptr) → (y == r) ≡ false → unlinked (e'.store y) ≡ unlinked (e.store y)
  pub fills : e'.fills ≡ e.fills ++ m ∷ []

module _ (level_price : ℕ) (aggressive_id : OrderId) (aggressor_side : Side) (ts : Timestamp)
    (n : ℕ) (e : MatchingEngine) (q : Queues) (fs : List Ptr) (r : Ptr) (ys : List Ptr)
    (v : IsEngine n e q fs) (at : q level_price ≡ r ∷ ys) where
  abbrev left : Quantity
  left = remaining_quantity (deref e.store r)

  had : has r (q level_price) ≡ true
  had = rw at (ground arith)

  pub left_pos :
      (0 < left)
      × (left < 2 ^ 32)
      × ((deref e.store r).filled_quantity + left ≡ (deref e.store r).quantity)
  left_pos =
      let small = (v.book.resting level_price r had).small in
      let open' = v.unfilled level_price r had in (omega arith, omega arith, omega arith)

  is_front : front (e.book.levels level_price) ≡ r
  is_front =
      (subst (IsLevel e.store (e.book.levels level_price)) at (v.book.level level_price)).head

  live : is_object (e.store r) ≡ true
  live =
      (subst (IsLevel e.store (e.book.levels level_price)) at
        (v.book.level level_price)).chain.0.live

  module _ (qty : Quantity) (fits : qty ≤ left) where
    recorded : MatchingEngine
    recorded = record_fill level_price aggressive_id aggressor_side ts r qty e

    recorded_fills :
        recorded.fills
        ≡ e.fills
          ++ fill_message level_price aggressive_id aggressor_side ts
              (trade (deref e.store r).id qty)
            ∷ []
    unfolding recorded record_fill
    recorded_fills = refl

    recorded_book : IsBook recorded.store recorded.book q
    unfolding recorded record_fill
    recorded_book = fill-IsBook e.store e.book q level_price r ys qty v.book at fits

    recorded_order : Filled (deref e.store r) (deref recorded.store r) qty
    unfolding recorded record_fill
    recorded_order = Filled-order e.store e.book q level_price r ys qty v.book at fits

    recorded-ne : (y : Ptr) → (y == r) ≡ false → recorded.store y ≡ e.store y
    unfolding recorded record_fill
    recorded-ne = untouched e.store e.book q level_price r ys qty v.book at fits

    recorded_pool : IsPool recorded.store recorded.pool fs
    unfolding recorded record_fill
    recorded_pool =
        IsPool-frame e.store (fill r qty e.store) e.pool fs v.pool (λ y i.
          recorded-ne y (has-ne y r fs i (not-free_of_object e.store fs r v.pool.chain live)))

    recorded_room : recorded.book.bid_count + recorded.book.ask_count + recorded.pool.available ≡ n
    unfolding recorded record_fill
    recorded_room = v.room

    recorded_unfilled : UnfilledBut r recorded.store q
    recorded_unfilled x y i ne = rw (recorded-ne y ne) (v.unfilled x y i)

    recorded_left : remaining_quantity (deref recorded.store r) + qty ≡ left
    recorded_left =
        let small = (v.book.resting level_price r had).small in
        let f = recorded_order.filled_quantity in
        let g = recorded_order.quantity in omega (arith, left_pos)

    recorded_offer :
        offer (deref recorded.store r) ≡ record (offer (deref e.store r)) { left = left - qty }
    recorded_offer =
        let i = recorded_order.id in
        let j = recorded_order.side in
        let k : remaining_quantity (deref recorded.store r) ≡ left - qty =
          omega (arith, recorded_left) in
        λ d. record { maker = i d; side = j d; left = k d }

    not_dropped : qty < left → drop_if_filled r recorded ≡ recorded
    unfolding drop_if_filled
    not_dropped h =
        let f = recorded_order.filled_quantity in
        let g = recorded_order.quantity in
        let k : is_filled (deref recorded.store r) ≡ false = ground (arith, left_pos) in rw k

    dropped :
        qty ≡ left
        → drop_if_filled r recorded
          ≡ release r (cancel_in_book (deref recorded.store r).id recorded)
    unfolding drop_if_filled
    dropped h =
        let f = recorded_order.filled_quantity in
        let g = recorded_order.quantity in
        let k : is_filled (deref recorded.store r) ≡ true = ground (arith, left_pos) in rw k

    recorded-IsEngine : qty < left → IsEngine n recorded q fs
    recorded-IsEngine h = record {
      book = recorded_book;
      unfilled = λ x y i. elim (Bool-cases (y == r)) [
        | inl k ↦ at_order y (==→eq _ _ k)
        | inr k ↦ recorded_unfilled x y i k
      ];
      pool = recorded_pool;
      room = recorded_room;
      small = v.small;
    }
      where
        at_order :
            (y : Ptr)
            → y ≡ r
            → (deref recorded.store y).filled_quantity < (deref recorded.store y).quantity
        at_order y k =
            rw k (omega (arith, recorded_order.filled_quantity, recorded_order.quantity, left_pos))

    released :
        Released n recorded
          (update q level_price ys)
          fs
          r
          (release r (cancel_in_book (deref recorded.store r).id recorded))
    released =
        release_lem n recorded q fs level_price r [] ys recorded_book at recorded_unfilled
          recorded_pool recorded_room v.small

  fill_front-steps :
      (remaining qty : Quantity) (fits : qty ≤ left)
      → min remaining left ≡ qty
      → fill_front level_price aggressive_id aggressor_side ts remaining e
        ≡ (sub32 remaining qty, drop_if_filled r (recorded qty fits))
  unfolding fill_front recorded
  fill_front-steps remaining qty fits m = rw (is_front, m)

  -- A taker that wants less than the oldest order has left takes it all from there.
  pub fill_front-partial :
      (remaining : Quantity)
      → remaining < left
      → let (m, e') = fill_front level_price aggressive_id aggressor_side ts remaining e in
        (m ≡ 0)
        × IsEngine n e' q fs
        × Taken e e' r remaining (
            fill_message level_price aggressive_id aggressor_side ts
              (trade (deref e.store r).id remaining))
  fill_front-partial remaining h =
      let fits : remaining ≤ left = omega arith in
      rw (fill_front-steps remaining remaining fits (omega arith), not_dropped remaining fits h)
        (
          omega (arith, left_pos),
          recorded-IsEngine remaining fits h,
          record {
            order = λ _. recorded_offer remaining fits;
            others = λ y ne. ap unlinked (recorded-ne remaining fits y ne);
            fills = recorded_fills remaining fits;
          },
        )

  -- A taker that wants as much or more takes the order whole, and its slot is free again.
  pub fill_front-whole :
      (remaining : Quantity)
      → left ≤ remaining
      → remaining < 2 ^ 32
      → let (m, e') = fill_front level_price aggressive_id aggressor_side ts remaining e in
        (m ≡ remaining - left)
        × IsEngine n e' (update q level_price ys) (r ∷ fs)
        × Taken e e' r left (
            fill_message level_price aggressive_id aggressor_side ts
              (trade (deref e.store r).id left))
  fill_front-whole remaining h small =
      let fits : left ≤ left = omega arith in
      let gone = released left fits in
      rw (fill_front-steps remaining left fits (omega arith), dropped left fits refl)
        (
          omega (arith, left_pos),
          gone.engine,
          record {
            order = λ some_left. absurd (omega arith);
            others = λ y ne. gone.others y ne ∙ ap unlinked (recorded-ne left fits y ne);
            fills = gone.fills ∙ recorded_fills left fits;
          },
        )
