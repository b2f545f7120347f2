-- ===== src/Core/OrderBook/Quotes.antt =====
-- The best prices and the counters of core/order_book.cpp, over the number of resting bids and
-- asks at each price.
use lockfree_matching_engine.Prelude.{
  ℕ, ◌+◌, ◌-◌, ◌^◌, ◌≤◌, ◌<◌, ◌≡◌, refl, Bool, true, false, arith, ◌⊎◌, inl, inr, ◌||◌, Bool-cases,
  ◌==◌, ltb, if◌then◌else◌, add64, sum_upto, OneMore, le-sum_upto, sum_upto-OneMore,
}
use lockfree_matching_engine.Core.Types.{bid, ask, max_price_ticks}
use lockfree_matching_engine.Core.PriceLevel.{PriceLevel, is_empty}
use lockfree_matching_engine.Core.OrderBook.{OrderBook, count_added}

-- Counters that count all the resting orders of a side, a best price that is held by an order
-- and not beaten by another, sentinels on an empty side, and best prices that do not cross.
pub record Quoted (b : OrderBook) (bids asks : ℕ → ℕ) : Type 0 where
  pub bid_count : b.bid_count ≡ sum_upto bids max_price_ticks
  pub ask_count : b.ask_count ≡ sum_upto asks max_price_ticks
  pub bid_bound : (x : ℕ) → 0 < bids x → x ≤ b.best_bid
  pub ask_bound : (x : ℕ) → 0 < asks x → b.best_ask ≤ x
  pub bid_held : 0 < b.bid_count → 0 < bids b.best_bid
  pub ask_held : 0 < b.ask_count → 0 < asks b.best_ask
  pub uncrossed : 0 < b.bid_count → 0 < b.ask_count → b.best_bid < b.best_ask
  pub bid_sentinel : b.bid_count ≡ 0 → b.best_bid ≡ 0
  pub ask_sentinel : b.ask_count ≡ 0 → b.best_ask ≡ max_price_ticks - 1
  pub bid_range : b.best_bid < max_price_ticks
  pub ask_range : b.best_ask < max_price_ticks

-- Every price with an order is in range, and a level is empty when it has no orders.
pub record Ranged (levels : ℕ → PriceLevel) (bids asks : ℕ → ℕ) : Type 0 where
  pub bids_in : (x : ℕ) → 0 < bids x → x < max_price_ticks
  pub asks_in : (x : ℕ) → 0 < asks x → x < max_price_ticks
  pub empty : (x : ℕ) → is_empty (levels x) ≡ ((bids x + asks x) == 0)

module _ {b : OrderBook} {bids asks : ℕ → ℕ} (v : Quoted b bids asks) where
  pub bids_counted : (x : ℕ) → x < max_price_ticks → 0 < bids x → 0 < b.bid_count
  bids_counted x h k = omega (arith, v.bid_count, le-sum_upto bids max_price_ticks x h)

  pub asks_counted : (x : ℕ) → x < max_price_ticks → 0 < asks x → 0 < b.ask_count
  asks_counted x h k = omega (arith, v.ask_count, le-sum_upto asks max_price_ticks x h)

-- One more order at `p`: what is below a price that is now positive.
pub positive-cases : (f g : ℕ → ℕ) (p x : ℕ) → OneMore f g p → 0 < g x → (x ≡ p) ⊎ (0 < f x)
positive-cases f g p x o h = elim (Bool-cases (x == p)) [
  | inl e ↦ inl (ground arith)
  | inr e ↦ inr (omega (arith, o.elsewhere x e))
]

pub positive_of_OneMore : (f g : ℕ → ℕ) (p x : ℕ) → OneMore f g p → 0 < f x → 0 < g x
positive_of_OneMore f g p x o h = elim (Bool-cases (x == p)) [
  | inl e ↦ at (ground arith)
  | inr e ↦ omega (arith, o.elsewhere x e)
]
  where
    at : x ≡ p → 0 < g x
    at e = rw e (omega (arith, o.here))

-- The best price after an addition: the new price, if it beats the old best or the side was
-- empty, and else the old one.
data Best (count best p : ℕ) (beats : Type 0) (m : ℕ) : Type 0 where
  new : m ≡ p → beats ⊎ (count ≡ 0) → Best count best p beats m
  old : m ≡ best → 0 < count → ¬ beats → Best count best p beats m

best_of_test :
    (count best p : ℕ) (test : Bool)
    → count + 1 < 2 ^ 64
    → (beats : Type 0) → (test ≡ true → beats)
    → (test ≡ false → ¬ beats)
    → Best count best p beats (if (add64 count 1 == 1) || test then p else best)
best_of_test count best p test small beats yes' no' = elim (Bool-cases (add64 count 1 == 1)) [
  | inl e ↦ rw e (new refl (inr (ground arith)))
  | inr e ↦ elim (Bool-cases test) [
    | inl t ↦ rw (e, t) (new refl (inl (yes' t)))
    | inr t ↦ rw (e, t) (old refl (ground arith) (no' t))
  ]
]

module _ (b : OrderBook) (bids asks bids' : ℕ → ℕ) (p : ℕ) (v : Quoted b bids asks)
    (o : OneMore bids bids' p) (h : p < max_price_ticks) where
  raised_bound :
      (m : ℕ) → Best b.bid_count b.best_bid p (b.best_bid < p) m → (x : ℕ) → 0 < bids' x → x ≤ m
  raised_bound m (new e (inl beats)) x k = elim (positive-cases bids bids' p x o k) [
    | inl i ↦ omega arith
    | inr i ↦ omega (arith, v.bid_bound x i)
  ]
  raised_bound m (new e (inr zero')) x k = elim (positive-cases bids bids' p x o k) [
    | inl i ↦ omega arith
    | inr i ↦
        let le = v.bid_bound x i in
        let in_range = v.bid_range in absurd (omega (arith, bids_counted v x (omega arith) i))
  ]
  raised_bound m (old e pos' not_beats) x k = elim (positive-cases bids bids' p x o k) [
    | inl i ↦ omega arith
    | inr i ↦ omega (arith, v.bid_bound x i)
  ]

  raised_held : (m : ℕ) → Best b.bid_count b.best_bid p (b.best_bid < p) m → 0 < bids' m
  raised_held m (new e c) = rw e (omega (arith, o.here))
  raised_held m (old e pos' not_beats) =
      rw e (positive_of_OneMore bids bids' p b.best_bid o (v.bid_held pos'))

  raised_uncrossed :
      (m : ℕ)
      → Best b.bid_count b.best_bid p (b.best_bid < p) m
      → (0 < b.ask_count → p < b.best_ask)
      → 0 < b.ask_count
      → m < b.best_ask
  raised_uncrossed m (new e c) cross k = omega (arith, cross k)
  raised_uncrossed m (old e pos' not_beats) cross k = omega (arith, v.uncrossed pos' k)

  raised_range : (m : ℕ) → Best b.bid_count b.best_bid p (b.best_bid < p) m → m < max_price_ticks
  raised_range m (new e c) = omega arith
  raised_range m (old e pos' not_beats) = omega (arith, v.bid_range)

  -- One more bid at a price that crosses no ask.
  pub count_added-bid :
      b.bid_count + 1 < 2 ^ 64
      → (0 < b.ask_count → p < b.best_ask)
      → Quoted (count_added bid p b) bids' asks
  unfolding count_added
  count_added-bid small cross =
      let best =
        best_of_test b.bid_count b.best_bid p (ltb b.best_bid p) small (b.best_bid < p)
          (λ e. ground arith) (λ e. ground arith) in
      record {
        bid_count = omega (arith, v.bid_count, sum_upto-OneMore bids bids' p max_price_ticks o h);
        ask_count = v.ask_count;
        bid_bound = raised_bound _ best;
        ask_bound = v.ask_bound;
        bid_held = λ k. raised_held _ best;
        ask_held = v.ask_held;
        uncrossed = λ k. raised_uncrossed _ best cross;
        bid_sentinel = λ e. absurd (omega arith);
        ask_sentinel = v.ask_sentinel;
        bid_range = raised_range _ best;
        ask_range = v.ask_range;
      }

-- The same for asks, whose best price is the lowest.
module _ (b : OrderBook) (bids asks asks' : ℕ → ℕ) (p : ℕ) (v : Quoted b bids asks)
    (o : OneMore asks asks' p) (h : p < max_price_ticks)
    (in_range : (x : ℕ) → 0 < asks x → x < max_price_ticks) where
  lowered_bound :
      (m : ℕ) → Best b.ask_count b.best_ask p (p < b.best_ask) m → (x : ℕ) → 0 < asks' x → m ≤ x
  lowered_bound m (new e (inl beats)) x k = elim (positive-cases asks asks' p x o k) [
    | inl i ↦ omega arith
    | inr i ↦ omega (arith, v.ask_bound x i)
  ]
  lowered_bound m (new e (inr zero')) x k = elim (positive-cases asks asks' p x o k) [
    | inl i ↦ omega arith
    | inr i ↦ absurd (omega (arith, asks_counted v x (in_range x i) i))
  ]
  lowered_bound m (old e pos' not_beats) x k = elim (positive-cases asks asks' p x o k) [
    | inl i ↦ omega arith
    | inr i ↦ omega (arith, v.ask_bound x i)
  ]

  lowered_held : (m : ℕ) → Best b.ask_count b.best_ask p (p < b.best_ask) m → 0 < asks' m
  lowered_held m (new e c) = rw e (omega (arith, o.here))
  lowered_held m (old e pos' not_beats) =
      rw e (positive_of_OneMore asks asks' p b.best_ask o (v.ask_held pos'))

  lowered_uncrossed :
      (m : ℕ)
      → Best b.ask_count b.best_ask p (p < b.best_ask) m
      → (0 < b.bid_count → b.best_bid < p)
      → 0 < b.bid_count
      → b.best_bid < m
  lowered_uncrossed m (new e c) cross k = omega (arith, cross k)
  lowered_uncrossed m (old e pos' not_beats) cross k = omega (arith, v.uncrossed k pos')

  lowered_range : (m : ℕ) → Best b.ask_count b.best_ask p (p < b.best_ask) m → m < max_price_ticks
  lowered_range m (new e c) = omega arith
  lowered_range m (old e pos' not_beats) = omega (arith, v.ask_range)

  -- One more ask at a price that crosses no bid.
  pub count_added-ask :
      b.ask_count + 1 < 2 ^ 64
      → (0 < b.bid_count → b.best_bid < p)
      → Quoted (count_added ask p b) bids asks'
  unfolding count_added
  count_added-ask small cross =
      let best =
        best_of_test b.ask_count b.best_ask p (ltb p b.best_ask) small (p < b.best_ask)
          (λ e. ground arith) (λ e. ground arith) in
      record {
        bid_count = v.bid_count;
        ask_count = omega (arith, v.ask_count, sum_upto-OneMore asks asks' p max_price_ticks o h);
        bid_bound = v.bid_bound;
        ask_bound = lowered_bound _ best;
        bid_held = v.bid_held;
        ask_held = λ k. lowered_held _ best;
        uncrossed = λ k _. lowered_uncrossed _ best cross k;
        bid_sentinel = v.bid_sentinel;
        ask_sentinel = λ e. absurd (omega arith);
        bid_range = v.bid_range;
        ask_range = lowered_range _ best;
      }
