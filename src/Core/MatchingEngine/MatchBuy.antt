-- ===== src/Core/MatchingEngine/MatchBuy.antt =====
-- The loop over the ask levels in `process_new_order`: it sweeps the asks from the lowest price up
-- to the limit.
use lockfree_matching_engine.Prelude.{
  ℕ, zero, suc, ◌^◌, ◌≤◌, ◌<◌, ◌≡◌, refl, subst, Bool, true, false, not, ◌&&◌, arith, List, [],
  ◌++◌, ltb, ◌==◌, ltb_ℤ, Bool-cases, inl, inr, ℤ, pos, negsuc, update, ascending, has-ascending,
  ascending-Reached,
}
use lockfree_matching_engine.Core.Types.{
  ask, Quantity, OrderType, limit, market, is_limit, max_price_ticks,
}
use lockfree_matching_engine.Core.Order.{Ptr}
use lockfree_matching_engine.Core.OrderBook.{has_asks}
use lockfree_matching_engine.Core.OrderBook.Invariant.{Queues}
use lockfree_matching_engine.Core.MatchingEngine.{MatchingEngine, beyond_buy, match_buy, fill_level}
use lockfree_matching_engine.Core.MatchingEngine.Invariant.{IsEngine}
use lockfree_matching_engine.Core.MatchingEngine.Matching.{fill_queue}
use lockfree_matching_engine.Core.MatchingEngine.Sweep.{
  Depth, holds, fills_at, sweep, sweep-idle, sweep-first,
}
use lockfree_matching_engine.Core.MatchingEngine.Round.{
  depth_of, Swept, unswept, Swept-then, round_lem,
}
use lockfree_matching_engine.Core.MatchingEngine.Sides.{best_ask-holds, asks_from, no_asks_below}
use lockfree_matching_engine.Transport.Message.{NewOrderMessage, FillMessage}

-- How many prices a buyer may pay: those up to the limit.
abbrev pub buy_limit : OrderType → ℤ → ℕ
buy_limit limit (pos p) = suc p
buy_limit limit (negsuc n) = 0
buy_limit market price = max_price_ticks

-- The prices a buyer visits.
unfoldable pub buy_prices : NewOrderMessage → List ℕ
buy_prices msg = ascending (buy_limit msg.kind msg.price) 0

-- Prices that are visited are those not beyond the limit.
beyond_buy-limit :
    (kind : OrderType) (price : ℤ) (p : ℕ)
    → p < max_price_ticks
    → (is_limit kind && ltb_ℤ price (pos p)) ≡ not (ltb p (buy_limit kind price))
beyond_buy-limit limit (pos x) p h = ground arith
beyond_buy-limit limit (negsuc n) p h = ground arith
beyond_buy-limit market price p h = ground arith

module _ (msg : NewOrderMessage) (n : ℕ) where
  abbrev pub buys_on : Quantity → MatchingEngine → Bool
  buys_on k e = ltb 0 k && has_asks e.book && not (beyond_buy msg e.book.best_ask)

  match_buy-stops :
      (fuel k : ℕ) (e : MatchingEngine) → buys_on k e ≡ false → match_buy msg fuel k e ≡ (k, e)
  unfolding match_buy
  match_buy-stops zero k e h = refl
  match_buy-stops (suc fuel) k e h = rw (h, match_buy)

  match_buy-goes :
      (fuel k : ℕ) (e : MatchingEngine)
      → buys_on k e ≡ true
      → let (m, e') = fill_level e.book.best_ask msg.id msg.side msg.timestamp k e in
        match_buy msg (suc fuel) k e ≡ match_buy msg fuel m e'
  unfolding match_buy
  match_buy-goes fuel k e h = rw (h, match_buy)

  -- The sweep of a buyer of `k`.
  abbrev pub buy_sweep : ℕ → Depth → List FillMessage × ℕ × Depth
  buy_sweep k depth = sweep ask msg (buy_prices msg) k depth

  module _ (e : MatchingEngine) (q : Queues) (fs : List Ptr) (v : IsEngine n e q fs) where
    nothing_to_buy :
        (k : ℕ)
        → buys_on k e ≡ false
        → buy_sweep k (depth_of e.store q) ≡ ([], k, depth_of e.store q)
    unfolding buy_prices
    nothing_to_buy k stop = elim (Bool-cases (k == 0)) [
      | inl z ↦ sweep-idle ask msg _ k _ (inl (ground arith))
      | inr some_wanted ↦ sweep-idle ask msg _ k _ (
          inr (λ p i. elim (Bool-cases (holds ask (depth_of e.store q p))) [
            | inr no_asks ↦ no_asks
            | inl asks ↦
                let (c, le) = asks_from e.store e.book q v.book p asks in
                let h = has-ascending (buy_limit msg.kind msg.price) 0 p in
                let l =
                  beyond_buy-limit msg.kind msg.price e.book.best_ask v.book.quoted.ask_range in
                absurd (ground arith)
          ]))
    ]

    first_ask :
        (k : ℕ)
        → buys_on k e ≡ true
        → let a = e.book.best_ask in
          let (ts, m, os) = fill_queue k (depth_of e.store q a) in
          let (f, j, depth) = buy_sweep m (update (depth_of e.store q) a os) in
          buy_sweep k (depth_of e.store q) ≡ (fills_at ask msg a ts ++ f, j, depth)
    unfolding buy_prices
    first_ask k go =
        let a = e.book.best_ask in
        let l = beyond_buy-limit msg.kind msg.price a v.book.quoted.ask_range in
        let r = ascending-Reached (buy_limit msg.kind msg.price) 0 a (omega arith) (ground arith) in
        rw r.split (
          sweep-first ask msg a r.post r.pre k (depth_of e.store q)
            (λ p i.
              let below = r.earlier p i in
              (no_asks_below e.store e.book q v.book p below, ground arith))
            (best_ask-holds e.store e.book q v.book (ground arith)))

  -- A round at the best ask, and then the rest of the loop.
  buys_then :
      (fuel k : ℕ) (e : MatchingEngine) (q : Queues) (fs : List Ptr) (v : IsEngine n e q fs)
      → buys_on k e ≡ true
      → let a = e.book.best_ask in
        let spec = fill_queue k (depth_of e.store q a) in
        (round : Swept n e
          (fills_at ask msg a spec.0, spec.1, update (depth_of e.store q) a spec.2)
          (fill_level a msg.id msg.side msg.timestamp k e))
        → let (m, e') = fill_level a msg.id msg.side msg.timestamp k e in
          let out = match_buy msg fuel m e' in
          (buys_on out.0 out.1 ≡ false)
            × Swept n e' (buy_sweep spec.1 (depth_of e'.store round.queues)) out
          → let out' = match_buy msg (suc fuel) k e in
            (buys_on out'.0 out'.1 ≡ false) × Swept n e (buy_sweep k (depth_of e.store q)) out'
  buys_then fuel k e q fs v go round (done, later) =
      let (m, e') = fill_level e.book.best_ask msg.id msg.side msg.timestamp k e in
      let wants = (fill_queue k (depth_of e.store q e.book.best_ask)).1 in
      rw (match_buy-goes fuel k e go, first_ask e q fs v k go)
        (
          done,
          Swept-then n e _ _ _ _ _ _ _ _ round (
              subst (λ d. Swept n e' (buy_sweep wants d) (match_buy msg fuel m e')) round.depth
                later),
        )

  -- On an engine with its invariant, with fuel for the quantity k < 2^32 that is wanted: the
  -- loop over the asks ends with its own condition false, keeps the invariant, and does what a
  -- sweep of the prices from 0 up to the limit does (to all prices, for a market order).
  pub match_buy_lem :
      (fuel k : ℕ) (e : MatchingEngine) (q : Queues) (fs : List Ptr)
      → IsEngine n e q fs
      → k ≤ fuel
      → k < 2 ^ 32
      → let out = match_buy msg fuel k e in
        (buys_on out.0 out.1 ≡ false) × Swept n e (buy_sweep k (depth_of e.store q)) out
  match_buy_lem zero k e q fs v h small =
      let stop : buys_on k e ≡ false = ground arith in
      rw (match_buy-stops zero k e stop, nothing_to_buy e q fs v k stop)
        (stop, unswept n k e q fs v)
  match_buy_lem (suc fuel) k e q fs v h small = elim (Bool-cases (buys_on k e)) [
    | inr stop ↦
        rw (match_buy-stops (suc fuel) k e stop, nothing_to_buy e q fs v k stop)
          (stop, unswept n k e q fs v)
    | inl go ↦
        let wanted : 0 < k = ground arith in
        let some_ask : 0 < e.book.ask_count = ground arith in
        let a = e.book.best_ask in
        let (less, round) =
          round_lem ask msg n a k e q fs v wanted small
            (best_ask-holds e.store e.book q v.book some_ask) in
        let e' = (fill_level a msg.id msg.side msg.timestamp k e).1 in
        let m = (fill_queue k (depth_of e.store q a)).1 in
        let later =
          match_buy_lem fuel m e' round.queues round.free round.engine (omega arith)
            (omega arith) in
        buys_then fuel k e q fs v go round (rw round.left later)
  ]
