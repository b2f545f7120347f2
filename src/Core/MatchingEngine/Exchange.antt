-- ===== src/Core/MatchingEngine/Exchange.antt =====
-- An abstract exchange, which `MatchingEngine` implements. Its state is what is offered at each
-- price and its only bound is the number `n` of orders it can hold.
use lockfree_matching_engine.Prelude.{
  ℕ, Bool, false, not, ◌&&◌, ◌||◌, List, [], ◌∷◌, ◌++◌, length, ltb, ◌==◌, update, if◌then◌else◌,
  pos_part, sum_upto, any_upto,
}
use lockfree_matching_engine.Core.Types.{OrderId, Side, bid, ask, is_limit, max_price_ticks}
use lockfree_matching_engine.Core.MatchingEngine.{out_of_range}
use lockfree_matching_engine.Core.MatchingEngine.Matching.{Offer}
use lockfree_matching_engine.Core.MatchingEngine.Sweep.{Depth, sweep}
use lockfree_matching_engine.Core.MatchingEngine.MatchBuy.{buy_prices}
use lockfree_matching_engine.Core.MatchingEngine.MatchSell.{sell_prices}
use lockfree_matching_engine.Core.MatchingEngine.Rest.{offer_of}
use lockfree_matching_engine.Transport.Message.{
  NewOrderMessage, FillMessage, EngineMessage, new_order, cancel,
}

abbrev pub has_maker : OrderId → List Offer → Bool
has_maker id [] = false
has_maker id (o ∷ os) = (o.maker == id) || has_maker id os

abbrev pub without : OrderId → List Offer → List Offer
without id [] = []
without id (o ∷ os) = if o.maker == id then without id os else o ∷ without id os

-- Does an order with this identifier wait?
unfoldable pub waits : OrderId → Depth → Bool
waits id depth = any_upto (λ x. has_maker id (depth x)) max_price_ticks

-- How many orders wait.
unfoldable pub waiting : Depth → ℕ
waiting depth = sum_upto (λ x. length (depth x)) max_price_ticks

-- A buyer visits the asks from the lowest price up, and a seller the bids from the highest down.
abbrev pub sweep_for : Side → NewOrderMessage → ℕ → Depth → List FillMessage × ℕ × Depth
sweep_for bid msg k depth = sweep ask msg (buy_prices msg) k depth
sweep_for ask msg k depth = sweep bid msg (sell_prices msg) k depth

-- A remainder of `k` waits behind the others at its price, if there is room and its identifier is
-- not in use.
unfoldable pub put : ℕ → NewOrderMessage → ℕ → Depth → Depth
put n msg k depth =
    let p = pos_part msg.price in
    if (waiting depth == n) || waits msg.id depth
    then depth
    else update depth p (depth p ++ offer_of msg k ∷ [])

abbrev pub accepts : NewOrderMessage → Bool
accepts msg = not (msg.quantity == 0) && not (is_limit msg.kind && out_of_range msg.price)

unfoldable pub exchange_new : ℕ → NewOrderMessage → Depth → List FillMessage × Depth
unfolding put
exchange_new n msg depth =
    if accepts msg
    then (let (fills, k, left) = sweep_for msg.side msg msg.quantity depth in
        (fills, if ltb 0 k && is_limit msg.kind then put n msg k left else left))
    else ([], depth)

unfoldable pub exchange_cancel : OrderId → Depth → Depth
exchange_cancel id depth = if waits id depth then (λ x. without id (depth x)) else depth

unfoldable pub exchange : ℕ → EngineMessage → Depth → List FillMessage × Depth
unfolding exchange_new exchange_cancel
exchange n (new_order msg) depth = exchange_new n msg depth
exchange n (cancel msg) depth = ([], exchange_cancel msg.id depth)
