-- ===== src/Core/MatchingEngine/NewOrder.antt =====
-- `MatchingEngine::process_new_order` implements the exchange.
use lockfree_matching_engine.Prelude.{
  ℕ, ◌+◌, ◌^◌, ◌≤◌, ◌<◌, ◌≡◌, refl, sym, ◌∙◌, ap, ap₂, subst, true, false, not, ◌&&◌, arith, List,
  [], ltb, ◌==◌, Bool-cases, inl, inr, if◌then◌else◌, ℤ, pos, negsuc, ltb_ℤ,
}
use lockfree_matching_engine.Core.Types.{
  Side, bid, ask, Quantity, OrderType, limit, market, is_limit, max_price_ticks,
}
use lockfree_matching_engine.Core.Order.{Ptr}
use lockfree_matching_engine.Core.OrderBook.Invariant.{Queues, NoCross}
use lockfree_matching_engine.Core.MatchingEngine.{
  MatchingEngine, match_order, match_for, match_buy, match_sell, rest, out_of_range,
  process_new_order,
}
use lockfree_matching_engine.Core.MatchingEngine.Invariant.{IsEngine}
use lockfree_matching_engine.Core.MatchingEngine.Sweep.{Depth, filled, sweep-conserves}
use lockfree_matching_engine.Core.MatchingEngine.Round.{depth_of, Swept}
use lockfree_matching_engine.Core.MatchingEngine.MatchBuy.{buys_on, buy_prices, match_buy_lem}
use lockfree_matching_engine.Core.MatchingEngine.MatchSell.{sells_on, sell_prices, match_sell_lem}
use lockfree_matching_engine.Core.MatchingEngine.Rest.{rested, rest_lem}
use lockfree_matching_engine.Core.MatchingEngine.Exchange.{
  sweep_for, put, accepts, exchange_new, waiting,
}
use lockfree_matching_engine.Core.MatchingEngine.Depth.{waiting_lem, waits_lem}
use lockfree_matching_engine.Transport.Message.{NewOrderMessage, FillMessage}

-- The engine holds the orders that `depth` offers.
pub record Holds (n : ℕ) (e : MatchingEngine) (depth : Depth) : Type 0 where
  pub queues : Queues
  pub free : List Ptr
  pub engine : IsEngine n e queues free
  pub offered : depth_of e.store queues ≡ depth

-- The fills of the last message play no part in the invariant.
pub without_fills :
    (n : ℕ) (e : MatchingEngine) (q : Queues) (fs : List Ptr) (f : List FillMessage)
    → IsEngine n e q fs
    → IsEngine n (record e { fills = f }) q fs
without_fills n e q fs f v = record {
  book = v.book;
  unfilled = v.unfilled;
  pool = v.pool;
  room = v.room;
  small = v.small;
}

is_limit-eq : (k : OrderType) → is_limit k ≡ true → k ≡ limit
is_limit-eq limit h = refl
is_limit-eq market h = cc

limit_price :
    (k : OrderType) (price : ℤ)
    → is_limit k ≡ true
    → (is_limit k && out_of_range price) ≡ false
    → (p : ℕ) × (price ≡ pos p) × (p < max_price_ticks)
limit_price limit (pos p) l h = (p, refl, ground arith)
limit_price limit (negsuc n) l h = cc
limit_price market price l h = cc

module _ (n : ℕ) (msg : NewOrderMessage) (small : msg.quantity < 2 ^ 32) where
  -- The remainder of a limit order does not cross the other side.
  Uncrossed : Side → Quantity × MatchingEngine → Type 0
  Uncrossed d out =
      (p : ℕ) → msg.kind ≡ limit → msg.price ≡ pos p → 0 < out.0 → NoCross d p out.1.book

  buy-Uncrossed :
      (out : Quantity × MatchingEngine) → buys_on msg n out.0 out.1 ≡ false → Uncrossed bid out
  unfolding Uncrossed
  buy-Uncrossed out stop p kind price some_left some_asks =
      let h : (ltb 0 out.0
            && ltb 0 out.1.book.ask_count
            && not (ltb_ℤ (pos p) (pos out.1.book.best_ask)))
          ≡ false =
        rw (kind, price) at stop in
      ground arith

  sell-Uncrossed :
      (out : Quantity × MatchingEngine) → sells_on msg n out.0 out.1 ≡ false → Uncrossed ask out
  unfolding Uncrossed
  sell-Uncrossed out stop p kind price some_left some_bids =
      let h : (ltb 0 out.0
            && ltb 0 out.1.book.bid_count
            && not (ltb_ℤ (pos out.1.book.best_bid) (pos p)))
          ≡ false =
        rw (kind, price) at stop in
      ground arith

  match_for_lem :
      (d : Side) (e : MatchingEngine) (q : Queues) (fs : List Ptr)
      → IsEngine n e q fs
      → Uncrossed d (match_for d msg e)
        × Swept n e (sweep_for d msg msg.quantity (depth_of e.store q)) (match_for d msg e)
  unfolding match_for
  match_for_lem bid e q fs v =
      let (stop, swept) =
        match_buy_lem msg n msg.quantity msg.quantity e q fs v (omega arith) small in
      (buy-Uncrossed (match_buy msg msg.quantity msg.quantity e) stop, swept)
  match_for_lem ask e q fs v =
      let (stop, swept) =
        match_sell_lem msg n msg.quantity msg.quantity e q fs v (omega arith) small in
      (sell-Uncrossed (match_sell msg msg.quantity msg.quantity e) stop, swept)

  -- The specification of the remainder, over what is offered.
  rested-put :
      (p k : ℕ) (e : MatchingEngine) (q : Queues) (fs : List Ptr)
      → IsEngine n e q fs
      → msg.price ≡ pos p
      → rested e q msg p k ≡ put n msg k (depth_of e.store q)
  unfolding put
  rested-put p k e q fs v at =
      let full : (e.pool.available == 0) ≡ (waiting (depth_of e.store q) == n) =
        ground (arith, waiting_lem e.store e.book q v.book, v.room) in
      rw (at, full, waits_lem e.store e.book q v.book msg.id)

  sweep_for-conserves :
      (d : Side) (k : ℕ) (depth : Depth)
      → let (f, m, _) = sweep_for d msg k depth in filled f + m ≡ k
  sweep_for-conserves bid k depth = sweep-conserves ask msg (buy_prices msg) k depth
  sweep_for-conserves ask k depth = sweep-conserves bid msg (sell_prices msg) k depth

  wanted-le : (d : Side) (k : ℕ) (depth : Depth) → (sweep_for d msg k depth).1 ≤ k
  wanted-le d k depth = omega (arith, sweep_for-conserves d k depth)

  module _ (e : MatchingEngine) (q : Queues) (fs : List Ptr) (v : IsEngine n e q fs) where
    cleared : MatchingEngine
    cleared = record e { fills = [] }

    cleared-IsEngine : IsEngine n cleared q fs
    unfolding cleared
    cleared-IsEngine = without_fills n e q fs [] v

    matched : Quantity × MatchingEngine
    matched = match_order msg cleared

    ignored : accepts msg ≡ false → process_new_order msg e ≡ cleared
    unfolding process_new_order cleared
    ignored h = elim (Bool-cases (msg.quantity == 0)) [
      | inl z ↦ rw z
      | inr some_wanted ↦
          let bad : (is_limit msg.kind && out_of_range msg.price) ≡ true = ground arith in
          rw (some_wanted, bad)
    ]

    matching :
        accepts msg ≡ true
        → process_new_order msg e ≡ (
            if ltb 0 matched.0 && is_limit msg.kind
            then rest msg matched.0 matched.1
            else matched.1)
    unfolding process_new_order matched cleared
    matching h =
        let some_wanted : (msg.quantity == 0) ≡ false = ground arith in
        let good : (is_limit msg.kind && out_of_range msg.price) ≡ false = ground arith in
        rw (some_wanted, good)

    matched_lem :
        Uncrossed msg.side matched
        × Swept n cleared (sweep_for msg.side msg msg.quantity (depth_of e.store q)) matched
    unfolding matched cleared match_order
    matched_lem = match_for_lem msg.side cleared q fs cleared-IsEngine

    -- The book takes the remainder of a limit order.
    rested_lem :
        (p : ℕ)
        → msg.price ≡ pos p
        → p < max_price_ticks
        → msg.kind ≡ limit
        → 0 < matched.0
        → let (f, k, left) = sweep_for msg.side msg msg.quantity (depth_of e.store q) in
          let e' = rest msg matched.0 matched.1 in (e'.fills ≡ f) × Holds n e' (put n msg k left)
    unfolding Uncrossed cleared
    rested_lem p price in_range kind some_left =
        let (uncrossed, m) = matched_lem in
        let fits : matched.0 ≤ msg.quantity =
          omega (arith, m.left, wanted-le msg.side msg.quantity (depth_of e.store q)) in
        let r =
          rest_lem n msg p matched.0 matched.1 m.queues m.free m.engine price in_range some_left
            fits small (uncrossed p kind price some_left) in
        (
          r.fills ∙ m.fills,
          record {
            queues = r.queues;
            free = r.free;
            engine = r.engine;
            offered =
                r.depth
                ∙ rested-put p matched.0 matched.1 m.queues m.free m.engine price
                ∙ ap₂ (put n msg) m.left m.depth;
          },
        )

    matched-Holds :
        let (f, k, left) = sweep_for msg.side msg msg.quantity (depth_of e.store q) in
        (matched.1.fills ≡ f) × Holds n matched.1 left
    unfolding cleared
    matched-Holds =
        let (_, m) = matched_lem in
        (m.fills, record { queues = m.queues; free = m.free; engine = m.engine; offered = m.depth })

    taken-or-rested :
        accepts msg ≡ true
        → let (f, k, left) = sweep_for msg.side msg msg.quantity (depth_of e.store q) in
          let e' = process_new_order msg e in
          (e'.fills ≡ f)
          × Holds n e' (if ltb 0 k && is_limit msg.kind then put n msg k left else left)
    taken-or-rested ok =
        let (_, m) = matched_lem in
        let same : (ltb 0 (sweep_for msg.side msg msg.quantity (depth_of e.store q)).1)
            ≡ ltb 0 matched.0 =
          ap (ltb 0) (sym m.left) in
        rw (matching ok, same)
          (elim (Bool-cases (ltb 0 matched.0 && is_limit msg.kind)) [
            | inr done ↦ rw done matched-Holds
            | inl some_left ↦
                let (p, price, in_range) =
                  limit_price msg.kind msg.price (ground arith) (ground arith) in
                rw some_left
                  (rested_lem p price in_range (is_limit-eq msg.kind (ground arith)) (ground arith))
          ])

    new_order_lem :
        let (f, depth) = exchange_new n msg (depth_of e.store q) in
        let e' = process_new_order msg e in (e'.fills ≡ f) × Holds n e' depth
    unfolding exchange_new cleared
    new_order_lem = elim (Bool-cases (accepts msg)) [
      | inl ok ↦ rw ok (taken-or-rested ok)
      | inr bad ↦
          rw (bad, ignored bad)
            (refl, record { queues = q; free = fs; engine = cleared-IsEngine; offered = refl })
    ]

-- If the engine holds the orders that a depth offers and the quantity is below 2^32, then what
-- the matching of an order fills and what it leaves of the order add up to the order's quantity.
pub match_order-conserves :
    (n : ℕ) (msg : NewOrderMessage) (e : MatchingEngine) (depth : Depth)
    → msg.quantity < 2 ^ 32
    → Holds n e depth
    → let (left, e') = match_order msg (record e { fills = [] }) in
      filled e'.fills + left ≡ msg.quantity
unfolding cleared matched
match_order-conserves n msg e depth small h =
    let (_, m) = matched_lem n msg small e h.queues h.free h.engine in
    rw (m.fills, m.left)
      (sweep_for-conserves n msg small msg.side msg.quantity (depth_of e.store h.queues))

-- If the engine holds the orders that a depth offers and the quantity is below 2^32, then
-- `process_new_order` reports the fills that price-time priority gives, and the engine then
-- holds what is left, with the remainder of a limit order at the back of its price exactly if a
-- slot is free and its identifier is not in use; an order of quantity 0, or a limit order at a
-- price out of range, changes nothing.
pub process_new_order_lem :
    (n : ℕ) (msg : NewOrderMessage) (e : MatchingEngine) (depth : Depth)
    → msg.quantity < 2 ^ 32
    → Holds n e depth
    → let (f, depth') = exchange_new n msg depth in
      let e' = process_new_order msg e in (e'.fills ≡ f) × Holds n e' depth'
process_new_order_lem n msg e depth small h =
    subst
      (λ d.
        ((process_new_order msg e).fills ≡ (exchange_new n msg d).0)
        × Holds n (process_new_order msg e) (exchange_new n msg d).1)
      h.offered (new_order_lem n msg small e h.queues h.free h.engine)
