-- ===== src/Core/MatchingEngine/ProcessCancel.antt =====
-- `MatchingEngine::process_cancel` implements the exchange: the order leaves its queue, and its
-- slot is free again.
use lockfree_matching_engine.Prelude.{
  ℕ, ◌≡◌, refl, sym, ◌∙◌, ap, subst, fun_ext, true, false, none, some, arith, List, [], ◌∷◌, ◌++◌,
  has, ◌==◌, ==→eq, ==_refl, Bool-cases, Option-cases, inl, inr, if◌then◌else◌, update,
}
use lockfree_matching_engine.Core.Types.{OrderId}
use lockfree_matching_engine.Core.Order.{Ptr, null}
use lockfree_matching_engine.Core.Store.{Store, deref}
use lockfree_matching_engine.Core.OrderBook
use lockfree_matching_engine.Core.OrderBook.{level_index}
use lockfree_matching_engine.Core.OrderBook.Invariant.{Queues}
use lockfree_matching_engine.Core.OrderBook.TakeOut.{stayed}
use lockfree_matching_engine.Core.MatchingEngine.{
  MatchingEngine, release, cancel_in_book, process_cancel,
}
use lockfree_matching_engine.Core.MatchingEngine.Invariant.{IsEngine}
use lockfree_matching_engine.Core.MatchingEngine.Release.{Released, release_lem}
use lockfree_matching_engine.Core.MatchingEngine.Matching.{offers, offers-same}
use lockfree_matching_engine.Core.MatchingEngine.Sweep.{Depth}
use lockfree_matching_engine.Core.MatchingEngine.Round.{depth_of}
use lockfree_matching_engine.Core.MatchingEngine.Rest.{waits-live}
use lockfree_matching_engine.Core.MatchingEngine.Exchange.{without, waits, exchange_cancel}
use lockfree_matching_engine.Core.MatchingEngine.Depth.{waits_lem}
use lockfree_matching_engine.Core.MatchingEngine.NewOrder.{Holds}
use lockfree_matching_engine.Transport.Message.{CancelMessage}
use lockfree_matching_engine.Prelude.{has-split}

without-other :
    (s : Store) (id : OrderId) (ps : List Ptr)
    → ((y : Ptr) → has y ps ≡ true → ((deref s y).id == id) ≡ false)
    → without id (offers s ps) ≡ offers s ps
unfolding offers
without-other s id [] h = refl
without-other s id (p ∷ ps) h =
    rw (h p (ground arith), without-other s id ps (λ y i. h y (ground arith)))

without-split :
    (s : Store) (xs : List Ptr) (r : Ptr) (ys : List Ptr)
    → ((y : Ptr) → has y (xs ++ ys) ≡ true → ((deref s y).id == (deref s r).id) ≡ false)
    → without (deref s r).id (offers s (xs ++ r ∷ ys)) ≡ offers s (xs ++ ys)
unfolding offers
without-split s [] r ys h = rw ==_refl (without-other s (deref s r).id ys h)
without-split s (x ∷ xs) r ys h =
    rw (h x (ground arith), without-split s xs r ys (λ y i. h y (ground arith)))

get_order-unknown :
    (b : OrderBook.OrderBook) (id : OrderId)
    → b.order_map id ≡ none
    → OrderBook.get_order id b ≡ null
unfolding OrderBook.get_order
get_order-unknown b id m = rw (m, OrderBook.get_order)

get_order-known :
    (b : OrderBook.OrderBook) (id : OrderId) (r : Ptr)
    → b.order_map id ≡ some r
    → OrderBook.get_order id b ≡ r
unfolding OrderBook.get_order
get_order-known b id r m = rw (m, OrderBook.get_order)

module _ (n : ℕ) (e : MatchingEngine) (q : Queues) (fs : List Ptr) (v : IsEngine n e q fs) where
  unknown :
      (msg : CancelMessage) → e.book.order_map msg.id ≡ none → process_cancel msg e ≡ (false, e)
  unfolding process_cancel
  unknown msg m = rw (get_order-unknown e.book msg.id m)

  module _ (r : Ptr) (m : e.book.order_map (deref e.store r).id ≡ some r) where
    price : ℕ
    price = level_index (deref e.store r).price

    waiting_here : has r (q price) ≡ true
    unfolding price
    waiting_here = (v.book.known (deref e.store r).id r m).1

    gone : MatchingEngine
    gone = release r (cancel_in_book (deref e.store r).id e)

    process_cancel-known :
        (msg : CancelMessage) → msg.id ≡ (deref e.store r).id → process_cancel msg e ≡ (true, gone)
    unfolding process_cancel gone
    process_cancel-known msg same =
        let ne = (waits-live e.store e.book q price r v.book waiting_here).1 in
        rw (same, get_order-known e.book (deref e.store r).id r m, ne)

    other_id :
        (x : ℕ) (y : Ptr)
        → has y (q x) ≡ true
        → (y == r) ≡ false
        → ((deref e.store y).id == (deref e.store r).id) ≡ false
    other_id x y i ne = elim (Bool-cases ((deref e.store y).id == (deref e.store r).id)) [
      | inr d ↦ d
      | inl same ↦ clash (==→eq _ _ same)
    ]
      where
        clash :
            (deref e.store y).id ≡ (deref e.store r).id
            → ((deref e.store y).id == (deref e.store r).id) ≡ false
        clash same =
            let k : some y ≡ some r =
              sym (v.book.resting x y i).mapped ∙ ap e.book.order_map same ∙ m in
            let y_is : y ≡ r = cc in absurd (ground arith)

    module _ (xs ys : List Ptr) (at : q price ≡ xs ++ r ∷ ys) where
      abbrev left : Queues
      left = update q price (xs ++ ys)

      others_left :
          (x : ℕ) (y : Ptr) → has y (left x) ≡ true → (has y (q x) ≡ true) × ((y == r) ≡ false)
      others_left = stayed e.store e.book q price r xs ys v.book at

      gone-Released : Released n e left fs r gone
      unfolding gone
      gone-Released =
          release_lem n e q fs price r xs ys v.book at (λ x y i ne. v.unfilled x y i) v.pool v.room
            v.small

      without-left :
          (x : ℕ) → without (deref e.store r).id (offers e.store (q x)) ≡ offers e.store (left x)
      without-left x = elim (Bool-cases (x == price)) [
        | inl is ↦ rw is (
            subst
              (λ z. without (deref e.store r).id (offers e.store (q z)) ≡ offers e.store (xs ++ ys))
              (sym (==→eq _ _ is)) here)
        | inr isnt ↦ rw isnt (
            without-other e.store (deref e.store r).id (q x)
              (λ y i. other_id x y i (others_left x y (rw isnt i)).1))
      ]
        where
          here : without (deref e.store r).id (offers e.store (q price)) ≡ offers e.store (xs ++ ys)
          here = rw at (
              without-split e.store xs r ys (λ y i.
                let (j, ne) = others_left price y (rw (==_refl price) i) in other_id price y j ne))

      gone-Holds : Holds n gone (λ x. without (deref e.store r).id (depth_of e.store q x))
      gone-Holds = record {
        queues = left;
        free = r ∷ fs;
        engine = gone-Released.engine;
        offered = fun_ext (λ x.
            offers-same e.store gone.store (left x)
              (λ y i. gone-Released.others y (others_left x y i).1)
            ∙ sym (without-left x));
      }

    gone_lem :
        (gone.fills ≡ e.fills)
        × Holds n gone (λ x. without (deref e.store r).id (depth_of e.store q x))
    gone_lem =
        let (xs, ys, at) = has-split r (q price) waiting_here in
        ((gone-Released xs ys at).fills, gone-Holds xs ys at)

  cancel_lem :
      (msg : CancelMessage)
      → let (found, e') = process_cancel msg e in
        (found ≡ waits msg.id (depth_of e.store q))
        × (e'.fills ≡ e.fills)
        × Holds n e' (exchange_cancel msg.id (depth_of e.store q))
  unfolding exchange_cancel
  cancel_lem msg =
      let w = waits_lem e.store e.book q v.book msg.id in
      elim (Option-cases (e.book.order_map msg.id)) [
        | inl m ↦
            let out : waits msg.id (depth_of e.store q) ≡ false = rw m at w in
            rw (unknown msg m, out)
              (refl, refl, record { queues = q; free = fs; engine = v; offered = refl })
        | inr (r, m) ↦ known r m
      ]
    where
      known :
          (r : Ptr)
          → e.book.order_map msg.id ≡ some r
          → let (found, e') = process_cancel msg e in
            (found ≡ waits msg.id (depth_of e.store q))
            × (e'.fills ≡ e.fills)
            × Holds n e' (
                if waits msg.id (depth_of e.store q)
                then (λ x. without msg.id (depth_of e.store q x))
                else depth_of e.store q)
      known r m =
          let same = (v.book.known msg.id r m).0 in
          let m' : e.book.order_map (deref e.store r).id ≡ some r = rw same m in
          let w = waits_lem e.store e.book q v.book msg.id in
          let there : waits msg.id (depth_of e.store q) ≡ true = rw m at w in
          let (fills, holds) = gone_lem r m' in
          rw (process_cancel-known r m' msg (sym same), there)
            (
              refl,
              fills,
              subst (λ id. Holds n (gone r m') (λ x. without id (depth_of e.store q x))) same holds,
            )

-- If the engine holds the orders that a depth offers, then `process_cancel` returns whether an
-- order with the identifier waits, reports no fill, and leaves an engine that holds all the
-- other orders.
pub process_cancel_lem :
    (n : ℕ) (msg : CancelMessage) (e : MatchingEngine) (depth : Depth)
    → Holds n e depth
    → let (found, e') = process_cancel msg e in
      (found ≡ waits msg.id depth)
      × (e'.fills ≡ e.fills)
      × Holds n e' (exchange_cancel msg.id depth)
process_cancel_lem n msg e depth h =
    subst
      (λ d.
        ((process_cancel msg e).0 ≡ waits msg.id d)
        × ((process_cancel msg e).1.fills ≡ e.fills)
        × Holds n (process_cancel msg e).1 (exchange_cancel msg.id d))
      h.offered (cancel_lem n e h.queues h.free h.engine msg)
