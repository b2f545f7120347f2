-- ===== src/Core/MatchingEngine/MatchSell.antt =====
-- The loop over the bid levels in `process_new_order`: it sweeps the bids from the highest price down
-- to the limit.
use lockfree_matching_engine.Prelude.{
  ℕ, zero, suc, ◌-◌, ◌^◌, ◌≤◌, ◌<◌, ◌≡◌, refl, subst, Bool, true, false, not, ◌&&◌, arith, List, [],
  ◌++◌, ltb, ◌==◌, ltb_ℤ, Bool-cases, inl, inr, ℤ, pos, negsuc, update, descending, has-descending,
  descending-Reached,
}
use lockfree_matching_engine.Core.Types.{
  bid, Quantity, OrderType, limit, market, is_limit, max_price_ticks,
}
use lockfree_matching_engine.Core.Order.{Ptr}
use lockfree_matching_engine.Core.OrderBook.{has_bids}
use lockfree_matching_engine.Core.OrderBook.Invariant.{Queues}
use lockfree_matching_engine.Core.MatchingEngine.{
  MatchingEngine, beyond_sell, match_sell, fill_level,
}
use lockfree_matching_engine.Core.MatchingEngine.Invariant.{IsEngine}
use lockfree_matching_engine.Core.MatchingEngine.Matching.{fill_queue}
use lockfree_matching_engine.Core.MatchingEngine.Sweep.{
  Depth, holds, fills_at, sweep, sweep-idle, sweep-first,
}
use lockfree_matching_engine.Core.MatchingEngine.Round.{
  depth_of, Swept, unswept, Swept-then, round_lem,
}
use lockfree_matching_engine.Core.MatchingEngine.Sides.{best_bid-holds, bids_upto, no_bids_above}
use lockfree_matching_engine.Transport.Message.{NewOrderMessage, FillMessage}

-- The lowest price a seller may take.
abbrev pub sell_limit : OrderType → ℤ → ℕ
sell_limit limit (pos p) = p
sell_limit limit (negsuc n) = 0
sell_limit market price = 0

-- The prices a seller visits.
unfoldable pub sell_prices : NewOrderMessage → List ℕ
sell_prices msg =
    descending (max_price_ticks - sell_limit msg.kind msg.price) (sell_limit msg.kind msg.price)

-- Prices that are visited are those not beyond the limit.
beyond_sell-limit :
    (kind : OrderType) (price : ℤ) (p : ℕ)
    → (is_limit kind && ltb_ℤ (pos p) price) ≡ ltb p (sell_limit kind price)
beyond_sell-limit limit (pos x) p = ground arith
beyond_sell-limit limit (negsuc n) p = ground arith
beyond_sell-limit market price p = ground arith

module _ (msg : NewOrderMessage) (n : ℕ) where
  abbrev pub sells_on : Quantity → MatchingEngine → Bool
  sells_on k e = ltb 0 k && has_bids e.book && not (beyond_sell msg e.book.best_bid)

  match_sell-stops :
      (fuel k : ℕ) (e : MatchingEngine) → sells_on k e ≡ false → match_sell msg fuel k e ≡ (k, e)
  unfolding match_sell
  match_sell-stops zero k e h = refl
  match_sell-stops (suc fuel) k e h = rw (h, match_sell)

  match_sell-goes :
      (fuel k : ℕ) (e : MatchingEngine)
      → sells_on k e ≡ true
      → let (m, e') = fill_level e.book.best_bid msg.id msg.side msg.timestamp k e in
        match_sell msg (suc fuel) k e ≡ match_sell msg fuel m e'
  unfolding match_sell
  match_sell-goes fuel k e h = rw (h, match_sell)

  -- The sweep of a seller of `k`.
  abbrev pub sell_sweep : ℕ → Depth → List FillMessage × ℕ × Depth
  sell_sweep k depth = sweep bid msg (sell_prices msg) k depth

  module _ (e : MatchingEngine) (q : Queues) (fs : List Ptr) (v : IsEngine n e q fs) where
    nothing_to_sell :
        (k : ℕ)
        → sells_on k e ≡ false
        → sell_sweep k (depth_of e.store q) ≡ ([], k, depth_of e.store q)
    unfolding sell_prices
    nothing_to_sell k stop = elim (Bool-cases (k == 0)) [
      | inl z ↦ sweep-idle bid msg _ k _ (inl (ground arith))
      | inr some_wanted ↦ sweep-idle bid msg _ k _ (
          inr (λ p i. elim (Bool-cases (holds bid (depth_of e.store q p))) [
            | inr no_bids ↦ no_bids
            | inl bids ↦
                let (c, le) = bids_upto e.store e.book q v.book p bids in
                let h =
                  has-descending (max_price_ticks - sell_limit msg.kind msg.price)
                    (sell_limit msg.kind msg.price) p in
                let l = beyond_sell-limit msg.kind msg.price e.book.best_bid in
                absurd (ground arith)
          ]))
    ]

    first_bid :
        (k : ℕ)
        → sells_on k e ≡ true
        → let a = e.book.best_bid in
          let (ts, m, os) = fill_queue k (depth_of e.store q a) in
          let (f, j, depth) = sell_sweep m (update (depth_of e.store q) a os) in
          sell_sweep k (depth_of e.store q) ≡ (fills_at bid msg a ts ++ f, j, depth)
    unfolding sell_prices
    first_bid k go =
        let a = e.book.best_bid in
        let l = beyond_sell-limit msg.kind msg.price a in
        let in_range = v.book.quoted.bid_range in
        let r =
          descending-Reached (max_price_ticks - sell_limit msg.kind msg.price)
            (sell_limit msg.kind msg.price) a (ground arith) (ground arith) in
        rw r.split (
          sweep-first bid msg a r.post r.pre k (depth_of e.store q)
            (λ p i.
              let above = r.earlier p i in
              (no_bids_above e.store e.book q v.book p above, ground arith))
            (best_bid-holds e.store e.book q v.book (ground arith)))

  -- A round at the best bid, and then the rest of the loop.
  sells_then :
      (fuel k : ℕ) (e : MatchingEngine) (q : Queues) (fs : List Ptr) (v : IsEngine n e q fs)
      → sells_on k e ≡ true
      → let a = e.book.best_bid in
        let spec = fill_queue k (depth_of e.store q a) in
        (round : Swept n e
          (fills_at bid msg a spec.0, spec.1, update (depth_of e.store q) a spec.2)
          (fill_level a msg.id msg.side msg.timestamp k e))
        → let (m, e') = fill_level a msg.id msg.side msg.timestamp k e in
          let out = match_sell msg fuel m e' in
          (sells_on out.0 out.1 ≡ false)
            × Swept n e' (sell_sweep spec.1 (depth_of e'.store round.queues)) out
          → let out' = match_sell msg (suc fuel) k e in
            (sells_on out'.0 out'.1 ≡ false) × Swept n e (sell_sweep k (depth_of e.store q)) out'
  sells_then fuel k e q fs v go round (done, later) =
      let (m, e') = fill_level e.book.best_bid msg.id msg.side msg.timestamp k e in
      let wants = (fill_queue k (depth_of e.store q e.book.best_bid)).1 in
      rw (match_sell-goes fuel k e go, first_bid e q fs v k go)
        (
          done,
          Swept-then n e _ _ _ _ _ _ _ _ round (
              subst (λ d. Swept n e' (sell_sweep wants d) (match_sell msg fuel m e')) round.depth
                later),
        )

  -- On an engine with its invariant, with fuel for the quantity k < 2^32 that is wanted: the
  -- loop over the bids ends with its own condition false, keeps the invariant, and does what a
  -- sweep of the prices from the highest down to the limit does (to all prices, for a market
  -- order).
  pub match_sell_lem :
      (fuel k : ℕ) (e : MatchingEngine) (q : Queues) (fs : List Ptr)
      → IsEngine n e q fs
      → k ≤ fuel
      → k < 2 ^ 32
      → let out = match_sell msg fuel k e in
        (sells_on out.0 out.1 ≡ false) × Swept n e (sell_sweep k (depth_of e.store q)) out
  match_sell_lem zero k e q fs v h small =
      let stop : sells_on k e ≡ false = ground arith in
      rw (match_sell-stops zero k e stop, nothing_to_sell e q fs v k stop)
        (stop, unswept n k e q fs v)
  match_sell_lem (suc fuel) k e q fs v h small = elim (Bool-cases (sells_on k e)) [
    | inr stop ↦
        rw (match_sell-stops (suc fuel) k e stop, nothing_to_sell e q fs v k stop)
          (stop, unswept n k e q fs v)
    | inl go ↦
        let wanted : 0 < k = ground arith in
        let some_bid : 0 < e.book.bid_count = ground arith in
        let a = e.book.best_bid in
        let (less, round) =
          round_lem bid msg n a k e q fs v wanted small
            (best_bid-holds e.store e.book q v.book some_bid) in
        let e' = (fill_level a msg.id msg.side msg.timestamp k e).1 in
        let m = (fill_queue k (depth_of e.store q a)).1 in
        let later =
          match_sell_lem fuel m e' round.queues round.free round.engine (omega arith)
            (omega arith) in
        sells_then fuel k e q fs v go round (rw round.left later)
  ]
