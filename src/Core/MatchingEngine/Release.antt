-- ===== src/Core/MatchingEngine/Release.antt =====
-- An order that leaves the book gives its slot back: the end of core/matching_engine.cpp's fill
-- loop and of `process_cancel`.
use lockfree_matching_engine.Prelude.{
  ℕ, ◌+◌, ◌^◌, ◌<◌, ◌≡◌, refl, ◌∙◌, ap, subst, true, false, arith, List, ◌∷◌, ◌++◌, has, has-append,
  none, update, ◌==◌,
}
use lockfree_matching_engine.Core.Types.{OrderId}
use lockfree_matching_engine.Core.Order.{Ptr, null}
use lockfree_matching_engine.Core.Store.{Store, is_object, deref}
use lockfree_matching_engine.Core.PriceLevel.Chain.{Chain-split}
use lockfree_matching_engine.Core.PriceLevel.Invariant.{IsLevel, unlinked, details-same, live-same}
use lockfree_matching_engine.Core.OrderBook
use lockfree_matching_engine.Core.OrderBook.Invariant.{Queues, IsBook}
use lockfree_matching_engine.Core.OrderBook.Fill.{IsBook-frame}
use lockfree_matching_engine.Core.OrderBook.TakeOut.{TakenOut, take_out_lem, stayed}
use lockfree_matching_engine.Core.OrderBook.CancelOrder.{cancel_order-known}
use lockfree_matching_engine.Core.MemoryPool
use lockfree_matching_engine.Core.MemoryPool.FreeList.{IsPool, deallocate_lem}
use lockfree_matching_engine.Core.MatchingEngine.{MatchingEngine, release, cancel_in_book}
use lockfree_matching_engine.Core.MatchingEngine.Invariant.{UnfilledBut, IsEngine, IsPool-same}

-- What is left when `r` has gone.
pub record Released (n : ℕ) (e : MatchingEngine) (q : Queues) (fs : List Ptr) (r : Ptr)
    (e' : MatchingEngine) : Type 0 where
  pub engine : IsEngine n e' q (r ∷ fs)
  pub others : (y : Ptr) → (y == r) ≡ false → unlinked (e'.store y) ≡ unlinked (e.store y)
  pub fills : e'.fills ≡ e.fills
  pub forgotten : e'.book.order_map (deref e.store r).id ≡ none

module _ (n : ℕ) (e : MatchingEngine) (q : Queues) (fs : List Ptr) (p : ℕ) (r : Ptr)
    (xs ys : List Ptr) (v : IsBook e.store e.book q) (at : q p ≡ xs ++ r ∷ ys)
    (unfilled : UnfilledBut r e.store q) (pool : IsPool e.store e.pool fs)
    (room : e.book.bid_count + e.book.ask_count + e.pool.available ≡ n)
    (small : n + 1 < 2 ^ 64) where
  abbrev id : OrderId
  id = (deref e.store r).id

  abbrev taken : Store × OrderBook.OrderBook
  taken = OrderBook.take_out r id e.store e.book

  taken_lem : TakenOut e.store e.book q p r xs ys taken
  taken_lem = take_out_lem e.store e.book q p r xs ys v at (deref e.store r).side refl (omega arith)

  had : has r (q p) ≡ true
  had = rw at (ground (arith, has-append r xs (r ∷ ys)))

  node_live : (is_object (e.store r) ≡ true) × ((r == null) ≡ false)
  node_live =
      let level = subst (IsLevel e.store (e.book.levels p)) at (v.level p) in
      let c = (Chain-split e.store null xs (r ∷ ys) null level.chain).1.0 in (c.live, c.not_null)

  freed : Store × MemoryPool.MemoryPool
  freed = MemoryPool.deallocate r taken.0 e.pool

  freed_lem : IsPool freed.0 freed.1 (r ∷ fs)
  unfolding freed
  freed_lem =
      deallocate_lem taken.0 e.pool fs r (IsPool-same e.store taken.0 e.pool fs taken_lem.same pool)
        (live-same (taken.0 r) (e.store r) (taken_lem.same r) ∙ node_live.0) node_live.1
        (omega (arith, pool.count))

  freed-ne : (y : Ptr) → (y == r) ≡ false → freed.0 y ≡ taken.0 y
  unfolding freed MemoryPool.deallocate
  freed-ne y ne = rw ne

  cancel-steps :
      release r (cancel_in_book id e) ≡ record e { store = freed.0; book = taken.1; pool = freed.1 }
  unfolding release cancel_in_book freed
  cancel-steps = rw (cancel_order-known e.store e.book id r (v.resting p r had).mapped)

  pub release_lem : Released n e (update q p (xs ++ ys)) fs r (release r (cancel_in_book id e))
  release_lem = rw cancel-steps (record {
    engine = record {
      book =
          IsBook-frame taken.0 freed.0 taken.1 (update q p (xs ++ ys)) taken_lem.book
            (λ x y i. freed-ne y (stayed e.store e.book q p r xs ys v at x y i).1);
      unfilled = left-unfilled;
      pool = freed_lem;
      room = omega (arith, freed_lem.count, pool.count, taken_lem.total);
      small = small;
    };
    others = λ y ne. ap unlinked (freed-ne y ne) ∙ taken_lem.same y;
    fills = refl;
    forgotten = taken_lem.forgotten;
  })
    where
      left-unfilled :
          (x : ℕ) (y : Ptr)
          → has y (update q p (xs ++ ys) x) ≡ true
          → (deref freed.0 y).filled_quantity < (deref freed.0 y).quantity
      left-unfilled x y i =
          let (j, ne) = stayed e.store e.book q p r xs ys v at x y i in
          let d = details-same (taken.0 y) (e.store y) (taken_lem.same y) in
          rw (freed-ne y ne, ap (λ o. o.filled_quantity) d, ap (λ o. o.quantity) d)
            (unfilled x y j ne)
