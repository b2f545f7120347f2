-- ===== src/Core/MatchingEngine/Prices.antt =====
-- `process_new_order` trades within the limit of the order.
use lockfree_matching_engine.Prelude.{
  ℕ, ◌+◌, ◌-◌, ◌^◌, ◌≤◌, ◌<◌, ◌≡◌, refl, sym, subst, true, arith, List, [], ◌∷◌, ◌++◌, has,
  Bool-cases, inl, inr, pos, update, has-ascending, has-descending,
}
use lockfree_matching_engine.Core.Types.{Side, bid, ask, limit, max_price_ticks}
use lockfree_matching_engine.Core.MatchingEngine.{MatchingEngine, process_new_order}
use lockfree_matching_engine.Core.MatchingEngine.Matching.{Trade}
use lockfree_matching_engine.Core.MatchingEngine.Sweep.{Depth, take_at, fills_at, sweep}
use lockfree_matching_engine.Core.MatchingEngine.MatchBuy.{buy_limit, buy_prices}
use lockfree_matching_engine.Core.MatchingEngine.MatchSell.{sell_limit, sell_prices}
use lockfree_matching_engine.Core.MatchingEngine.Exchange.{accepts, sweep_for, exchange_new}
use lockfree_matching_engine.Core.MatchingEngine.NewOrder.{Holds, process_new_order_lem}
use lockfree_matching_engine.Transport.Message.{NewOrderMessage, FillMessage}

-- Every fill is at a price of this kind.
abbrev pub PricedAt : (ℕ → Type 0) → List FillMessage → Type 0
PricedAt ok [] = Unit {0}
PricedAt ok (f ∷ fs) = ((x : ℕ) × (f.price ≡ pos x) × ok x) × PricedAt ok fs

-- The prices that a limit of `p` allows.
abbrev pub Allowed : Side → ℕ → ℕ → Type 0
Allowed bid p x = x ≤ p
Allowed ask p x = p ≤ x

PricedAt-append :
    (ok : ℕ → Type 0) (fs gs : List FillMessage)
    → PricedAt ok fs
    → PricedAt ok gs
    → PricedAt ok (fs ++ gs)
PricedAt-append ok [] gs a b = b
PricedAt-append ok (f ∷ fs) gs a b = (a.0, PricedAt-append ok fs gs a.1 b)

module _ (d : Side) (msg : NewOrderMessage) (ok : ℕ → Type 0) where
  fills_at-PricedAt : (p : ℕ) (ts : List Trade) → ok p → PricedAt ok (fills_at d msg p ts)
  fills_at-PricedAt p [] h = tt
  fills_at-PricedAt p (t ∷ ts) h = ((p, refl, h), fills_at-PricedAt p ts h)

  sweep-PricedAt :
      (ps : List ℕ) (k : ℕ) (depth : Depth)
      → ((p : ℕ) → has p ps ≡ true → ok p)
      → PricedAt ok (sweep d msg ps k depth).0
  unfolding sweep
  sweep-PricedAt [] k depth h = tt
  sweep-PricedAt (p ∷ ps) k depth h =
      let (ts, m, os) = take_at d k (depth p) in
      PricedAt-append ok (fills_at d msg p ts) (sweep d msg ps m (update depth p os)).0
        (fills_at-PricedAt p ts (h p (ground arith)))
        (sweep-PricedAt ps m (update depth p os) (λ x i. h x (ground arith)))

sweep_for-PricedAt :
    (d : Side) (msg : NewOrderMessage) (p k : ℕ) (depth : Depth)
    → msg.kind ≡ limit
    → msg.price ≡ pos p
    → PricedAt (Allowed d p) (sweep_for d msg k depth).0
unfolding buy_prices sell_prices
sweep_for-PricedAt bid msg p k depth kind price =
    let top : buy_limit msg.kind msg.price ≡ p + 1 = rw (kind, price) (omega arith) in
    sweep-PricedAt ask msg (Allowed bid p) (buy_prices msg) k depth
      (λ x i. ground (arith, has-ascending (buy_limit msg.kind msg.price) 0 x))
sweep_for-PricedAt ask msg p k depth kind price =
    let low : sell_limit msg.kind msg.price ≡ p = rw (kind, price) in
    sweep-PricedAt bid msg (Allowed ask p) (sell_prices msg) k depth (λ x i. ground (
      arith,
      has-descending (max_price_ticks - sell_limit msg.kind msg.price)
          (sell_limit msg.kind msg.price) x,
    ))

exchange_new-PricedAt :
    (n : ℕ) (msg : NewOrderMessage) (p : ℕ) (depth : Depth)
    → msg.kind ≡ limit
    → msg.price ≡ pos p
    → PricedAt (Allowed msg.side p) (exchange_new n msg depth).0
unfolding exchange_new
exchange_new-PricedAt n msg p depth kind price = elim (Bool-cases (accepts msg)) [
  | inl ok ↦ rw ok (sweep_for-PricedAt msg.side msg p msg.quantity depth kind price)
  | inr bad ↦ rw bad tt
]

-- If the engine holds the orders that a depth offers, then all the fills that
-- `process_new_order` reports for a limit order of a quantity below 2^32 and a price of p ticks
-- are at p or less for a buyer, and at p or more for a seller.
pub process_new_order-PricedAt :
    (n : ℕ) (msg : NewOrderMessage) (p : ℕ) (e : MatchingEngine) (depth : Depth)
    → msg.quantity < 2 ^ 32
    → Holds n e depth
    → msg.kind ≡ limit
    → msg.price ≡ pos p
    → PricedAt (Allowed msg.side p) (process_new_order msg e).fills
process_new_order-PricedAt n msg p e depth small h kind price =
    subst (PricedAt (Allowed msg.side p)) (sym (process_new_order_lem n msg e depth small h).0)
      (exchange_new-PricedAt n msg p depth kind price)
