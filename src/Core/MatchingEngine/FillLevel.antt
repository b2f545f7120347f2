-- ===== src/Core/MatchingEngine/FillLevel.antt =====
-- `MatchingEngine::fill_level` does to the queue of its price what `fill_queue` specifies.
use lockfree_matching_engine.Prelude.{
  ℕ, zero, suc, ◌-◌, ◌^◌, ◌≤◌, ◌<◌, ◌≡◌, refl, ◌∙◌, sym, ap, ap₂, subst, Bool, true, false, not,
  ◌&&◌, arith, List, [], ◌∷◌, ◌++◌, has, map, append_assoc, append-nil, has-ne, update,
  update_twice, update_self, ◌==◌, ==_refl, ltb, length, Bool-cases, List-cases, ◌⊎◌, inl, inr,
}
use lockfree_matching_engine.Core.Types.{OrderId, Side, Quantity, Timestamp}
use lockfree_matching_engine.Core.Order.{Ptr, remaining_quantity}
use lockfree_matching_engine.Core.Store.{deref}
use lockfree_matching_engine.Core.PriceLevel.{is_empty}
use lockfree_matching_engine.Core.PriceLevel.Invariant.{IsLevel}
use lockfree_matching_engine.Core.OrderBook.Invariant.{Queues, apart, is_empty-length}
use lockfree_matching_engine.Core.MatchingEngine.{MatchingEngine, fill_front, fill_loop, fill_level}
use lockfree_matching_engine.Core.MatchingEngine.Invariant.{IsEngine}
use lockfree_matching_engine.Core.MatchingEngine.Matching.{
  Offer, offer, Trade, trade, fill_queue, offers, offers-same, fill_message,
}
use lockfree_matching_engine.Core.MatchingEngine.FillQueue.{
  fill_queue-partial, fill_queue-whole, fill_queue-zero, fill_queue-nil,
}
use lockfree_matching_engine.Transport.Message.{FillMessage}
use lockfree_matching_engine.Core.MatchingEngine.FillFront.{
  Taken, left_pos, fill_front-partial, fill_front-whole,
}

module _ (level_price : ℕ) (aggressive_id : OrderId) (aggressor_side : Side) (ts : Timestamp)
    (n : ℕ) where
  abbrev message : Trade → FillMessage
  message = fill_message level_price aggressive_id aggressor_side ts

  -- What a run of the loop does: the trades `trades` are reported, `rest` is what its queue
  -- offers afterwards, and the other queues offer what they did.
  pub record Matched (e : MatchingEngine) (q : Queues) (trades : List Trade) (rest : List Offer)
      (e' : MatchingEngine) : Type 0 where
    pub queue : List Ptr
    pub free : List Ptr
    pub engine : IsEngine n e' (update q level_price queue) free
    pub fills : e'.fills ≡ e.fills ++ map message trades
    pub here : offers e'.store queue ≡ rest
    pub elsewhere :
        (x : ℕ) → (x == level_price) ≡ false → offers e'.store (q x) ≡ offers e.store (q x)

  run_loop : ℕ → Quantity → MatchingEngine → Quantity × MatchingEngine
  run_loop = fill_loop level_price aggressive_id aggressor_side ts

  run_front : Quantity → MatchingEngine → Quantity × MatchingEngine
  run_front = fill_front level_price aggressive_id aggressor_side ts

  abbrev goes_on : Quantity → MatchingEngine → Bool
  goes_on remaining e = ltb 0 remaining && not (is_empty (e.book.levels level_price))

  run_loop-stops :
      (fuel : ℕ) (remaining : Quantity) (e : MatchingEngine)
      → goes_on remaining e ≡ false
      → run_loop fuel remaining e ≡ (remaining, e)
  unfolding run_loop fill_loop
  run_loop-stops zero remaining e h = refl
  run_loop-stops (suc fuel) remaining e h = rw (h, fill_loop)

  run_loop-goes :
      (fuel : ℕ) (remaining : Quantity) (e : MatchingEngine)
      → goes_on remaining e ≡ true
      → run_loop (suc fuel) remaining e
        ≡ run_loop fuel (run_front remaining e).0 (run_front remaining e).1
  unfolding run_loop run_front fill_loop
  run_loop-goes fuel remaining e h = rw (h, fill_loop)

  -- Nothing to do.
  unmatched :
      (e : MatchingEngine) (q : Queues) (fs : List Ptr)
      → IsEngine n e q fs
      → Matched e q [] (offers e.store (q level_price)) e
  unmatched e q fs v = record {
    queue = q level_price;
    free = fs;
    engine = subst (λ g. IsEngine n e g fs) (sym (update_self q level_price)) v;
    fills = sym (append-nil e.fills);
    here = refl;
    elsewhere = λ x ne. refl;
  }

  -- A round and then the rest of the loop.
  module _ (e e₁ e' : MatchingEngine) (q q₁ : Queues) (fs : List Ptr) (r : Ptr)
      (qty : Quantity) where
    then-Matched :
        (ts' : List Trade) (rest : List Offer)
        → IsEngine n e q fs
        → has r (q level_price) ≡ true
        → ((zs : List Ptr) → update q₁ level_price zs ≡ update q level_price zs)
        → ((x : ℕ) → (x == level_price) ≡ false → q₁ x ≡ q x)
        → Taken e e₁ r qty (message (trade (deref e.store r).id qty))
        → Matched e₁ q₁ ts' rest e'
        → Matched e q (trade (deref e.store r).id qty ∷ ts') rest e'
    then-Matched ts' rest v had overwrite same t m = record {
      queue = m.queue;
      free = m.free;
      engine = subst (λ g. IsEngine n e' g m.free) (overwrite m.queue) m.engine;
      fills =
          m.fills
          ∙ ap (λ fs. fs ++ map message ts') t.fills
          ∙ append_assoc e.fills (message (trade (deref e.store r).id qty) ∷ []) (map message ts');
      here = m.here;
      elsewhere = λ x ne.
          subst (λ ps. offers e'.store ps ≡ offers e₁.store ps) (same x ne) (m.elsewhere x ne)
          ∙ offers-same e.store e₁.store (q x) (λ y i.
            t.others y (has-ne y r (q x) i (apart v.book level_price x r (ground arith) had)));
    }

  -- The specification of a taker of `k`, met by a run from `e` that ends with `out`.
  Meets : MatchingEngine → Queues → List Trade × ℕ × List Offer → Quantity × MatchingEngine → Type 0
  Meets e q spec out = (out.0 ≡ spec.1) × Matched e q spec.0 spec.2 out.1

  level-empty :
      (e : MatchingEngine) (q : Queues) (fs : List Ptr)
      → IsEngine n e q fs
      → q level_price ≡ []
      → is_empty (e.book.levels level_price) ≡ true
  level-empty e q fs v z =
      is_empty-length e.store (e.book.levels level_price) (q level_price) (v.book.level level_price)
      ∙ ap (λ ps. length ps == 0) z

  nothing_offered :
      (k : ℕ) (e : MatchingEngine) (q : Queues)
      → q level_price ≡ []
      → fill_queue k (offers e.store (q level_price)) ≡ ([], k, offers e.store (q level_price))
  unfolding offers
  nothing_offered k e q z = rw (z, fill_queue-nil k)

  run_loop-idle :
      (fuel k : ℕ) (e : MatchingEngine) (q : Queues) (fs : List Ptr)
      → IsEngine n e q fs
      → (k ≡ 0) ⊎ (q level_price ≡ [])
      → Meets e q (fill_queue k (offers e.store (q level_price))) (run_loop fuel k e)
  unfolding Meets offers
  run_loop-idle fuel k e q fs v (inl z) =
      let stop : goes_on k e ≡ false = ground arith in
      rw (run_loop-stops fuel k e stop, z, fill_queue-zero (offers e.store (q level_price)))
        (refl, unmatched e q fs v)
  run_loop-idle fuel k e q fs v (inr z) =
      let none_there = level-empty e q fs v z in
      let stop : goes_on k e ≡ false = ground arith in
      rw (run_loop-stops fuel k e stop, nothing_offered k e q z) (refl, unmatched e q fs v)

  -- A round at an order `r` at the front.
  module _ (e : MatchingEngine) (q : Queues) (fs : List Ptr) (r : Ptr) (ys : List Ptr)
      (v : IsEngine n e q fs) (at : q level_price ≡ r ∷ ys) where
    abbrev r_left : Quantity
    r_left = remaining_quantity (deref e.store r)

    r_had : has r (q level_price) ≡ true
    r_had = rw at (ground arith)

    offered : offers e.store (q level_price) ≡ offer (deref e.store r) ∷ offers e.store ys
    unfolding offers
    offered = rw at

    goes : (k : ℕ) → 0 < k → goes_on k e ≡ true
    goes k h =
        let d =
          is_empty-length e.store (e.book.levels level_price) (q level_price)
            (v.book.level level_price) in
        let c : (length (q level_price) == 0) ≡ false = rw at (ground arith) in ground arith

    left_over :
        (e₁ : MatchingEngine) (k : ℕ)
        → k < r_left
        → Taken e e₁ r k (message (trade (deref e.store r).id k))
        → offers e₁.store (q level_price)
          ≡ record (offer (deref e.store r)) { left = r_left - k } ∷ offers e.store ys
    unfolding offers
    left_over e₁ k l t =
        let level =
          subst (IsLevel e.store (e.book.levels level_price)) at (v.book.level level_price) in
        rw at (
          ap₂ ◌∷◌ (t.order l) (
            offers-same e.store e₁.store ys (λ y i. t.others y (has-ne y r ys i level.distinct.0))))

    queue_behind :
        (e₁ : MatchingEngine) (k : Quantity) (m : FillMessage)
        → Taken e e₁ r k m
        → offers e₁.store (update q level_price ys level_price) ≡ offers e.store ys
    queue_behind e₁ k m t =
        let level =
          subst (IsLevel e.store (e.book.levels level_price)) at (v.book.level level_price) in
        rw (==_refl level_price)
          (offers-same e.store e₁.store ys (λ y i. t.others y (has-ne y r ys i level.distinct.0)))

    after_partial :
        (fuel k : ℕ)
        → k < r_left
        → (run_front k e).0 ≡ 0
        → IsEngine n (run_front k e).1 q fs
        → Taken e (run_front k e).1 r k (message (trade (deref e.store r).id k))
        → Meets e q
            (
              trade (deref e.store r).id k ∷ [],
              0,
              record (offer (deref e.store r)) { left = r_left - k } ∷ offers e.store ys,
            )
            (run_loop fuel (run_front k e).0 (run_front k e).1)
    unfolding Meets
    after_partial fuel k l z w t =
        let e₁ = (run_front k e).1 in
        let stop : goes_on 0 e₁ ≡ false = ground arith in
        let m = subst (λ os. Matched e₁ q [] os e₁) (left_over e₁ k l t) (unmatched e₁ q fs w) in
        rw (z, run_loop-stops fuel 0 e₁ stop)
          (refl, then-Matched e e₁ e₁ q q fs r k [] _ v r_had (λ zs. refl) (λ x ne. refl) t m)

    -- The order has more than the taker wants.
    run_loop-partial :
        (fuel k : ℕ)
        → 0 < k
        → k < r_left
        → Meets e q (fill_queue k (offers e.store (q level_price))) (run_loop (suc fuel) k e)
    unfolding Meets run_front
    run_loop-partial fuel k h l =
        let (zero_left, w, t) =
          fill_front-partial level_price aggressive_id aggressor_side ts n e q fs r ys v at k l in
        rw
          (
            run_loop-goes fuel k e (goes k h),
            offered,
            fill_queue-partial k (offer (deref e.store r)) (offers e.store ys) h l,
          )
          (after_partial fuel k l zero_left w t)

    after_whole :
        (fuel k : ℕ)
        → (run_front k e).0 ≡ k - r_left
        → Taken e (run_front k e).1 r r_left (message (trade (deref e.store r).id r_left))
        → Meets
            (run_front k e).1
            (update q level_price ys)
            (fill_queue
              (k - r_left)
              (offers (run_front k e).1.store (update q level_price ys level_price)))
            (run_loop fuel (k - r_left) (run_front k e).1)
        → Meets e q
            (
              trade (deref e.store r).id r_left ∷ (fill_queue (k - r_left) (offers e.store ys)).0,
              (fill_queue (k - r_left) (offers e.store ys)).1,
              (fill_queue (k - r_left) (offers e.store ys)).2,
            )
            (run_loop fuel (run_front k e).0 (run_front k e).1)
    unfolding Meets
    after_whole fuel k z t (a, m) =
        let e₁ = (run_front k e).1 in
        let c = ap (λ os. fill_queue (k - r_left) os) (queue_behind e₁ r_left _ t) in
        rw z (
          a ∙ ap (λ x. x.1) c,
          then-Matched e e₁ _ q (update q level_price ys) fs r r_left _ _ v r_had
              (λ zs. update_twice q level_price ys zs) (λ x ne. rw ne) t
              (subst
                (λ sp.
                  Matched e₁ (update q level_price ys) sp.0 sp.2 (run_loop fuel (k - r_left) e₁).1)
                c m),
        )

    -- The taker wants as much as the order has, or more.
    run_loop-whole :
        (fuel k : ℕ)
        → 0 < k
        → r_left ≤ k
        → (run_front k e).0 ≡ k - r_left
        → Taken e (run_front k e).1 r r_left (message (trade (deref e.store r).id r_left))
        → Meets
            (run_front k e).1
            (update q level_price ys)
            (fill_queue
              (k - r_left)
              (offers (run_front k e).1.store (update q level_price ys level_price)))
            (run_loop fuel (k - r_left) (run_front k e).1)
        → Meets e q (fill_queue k (offers e.store (q level_price))) (run_loop (suc fuel) k e)
    run_loop-whole fuel k h l z t m =
        rw
          (
            run_loop-goes fuel k e (goes k h),
            offered,
            fill_queue-whole k (offer (deref e.store r)) (offers e.store ys) h l,
          )
          (after_whole fuel k z t m)

  fill_loop_lem :
      (fuel k : ℕ) (e : MatchingEngine) (q : Queues) (fs : List Ptr)
      → IsEngine n e q fs
      → k ≤ fuel
      → k < 2 ^ 32
      → Meets e q (fill_queue k (offers e.store (q level_price))) (run_loop fuel k e)
  unfolding run_front
  fill_loop_lem zero k e q fs v h small = run_loop-idle zero k e q fs v (inl (omega arith))
  fill_loop_lem (suc fuel) k e q fs v h small = elim (List-cases (q level_price)) [
    | inl none_there ↦ run_loop-idle (suc fuel) k e q fs v (inr none_there)
    | inr (r, ys, at) ↦ elim (Bool-cases (k == 0)) [
      | inl z ↦ run_loop-idle (suc fuel) k e q fs v (inl (ground arith))
      | inr some_left ↦ elim (Bool-cases (ltb k (remaining_quantity (deref e.store r)))) [
        | inl l ↦ run_loop-partial e q fs r ys v at fuel k (ground arith) (ground arith)
        | inr l ↦
            let (a, w, t) =
              fill_front-whole level_price aggressive_id aggressor_side ts n e q fs r ys v at k
                (ground arith) small in
            let r_pos = left_pos level_price aggressive_id aggressor_side ts n e q fs r ys v at in
            let later =
              fill_loop_lem fuel (k - remaining_quantity (deref e.store r)) (run_front k e).1
                (update q level_price ys) (r ∷ fs) w (ground arith) (omega arith) in
            run_loop-whole e q fs r ys v at fuel k (ground arith) (ground arith) a t later
      ]
    ]
  ]

  -- On an engine with its invariant, for a quantity k < 2^32: `fill_level` takes from the queue
  -- of its price, oldest order first and each whole before the next, what a taker of k gets; it
  -- returns what is still wanted, appends one fill for each order taken from, leaves the other
  -- queues alone, and keeps the engine's invariant.
  pub fill_level_lem :
      (k : ℕ) (e : MatchingEngine) (q : Queues) (fs : List Ptr)
      → IsEngine n e q fs
      → k < 2 ^ 32
      → let spec = fill_queue k (offers e.store (q level_price)) in
        let (m, e') = fill_level level_price aggressive_id aggressor_side ts k e in
        (m ≡ spec.1) × Matched e q spec.0 spec.2 e'
  unfolding fill_level Meets run_loop
  fill_level_lem k e q fs v small = fill_loop_lem k k e q fs v (omega arith) small
