-- ===== src/Core/MatchingEngine/Depth.antt =====
-- What the counters and the map of the book say of what is offered.
use lockfree_matching_engine.Prelude.{
  ◌+◌, ◌≡◌, refl, sym, ◌∙◌, ap, true, not, some, arith, List, [], ◌∷◌, has, length, ◌==◌, ==→eq,
  ==_refl, Bool-cases, Option-cases, is_none, inl, inr, sum_upto-same, sum_upto-add, any_upto-at,
  any_upto-found,
}
use lockfree_matching_engine.Core.Types.{OrderId, bid, ask, max_price_ticks}
use lockfree_matching_engine.Core.Order.{Ptr}
use lockfree_matching_engine.Core.Store.{Store, deref}
use lockfree_matching_engine.Core.OrderBook.{OrderBook, level_index}
use lockfree_matching_engine.Core.OrderBook.Counts.{count_side, count_sides-length}
use lockfree_matching_engine.Core.OrderBook.Invariant.{Queues, IsBook}
use lockfree_matching_engine.Core.MatchingEngine.Matching.{offers}
use lockfree_matching_engine.Core.MatchingEngine.Round.{depth_of}
use lockfree_matching_engine.Core.MatchingEngine.Exchange.{has_maker, waits, waiting}

length-offers : (s : Store) (ps : List Ptr) → length (offers s ps) ≡ length ps
unfolding offers
length-offers s [] = refl
length-offers s (p ∷ ps) = omega (arith, length-offers s ps)

has_maker-offers :
    (s : Store) (ps : List Ptr) (y : Ptr)
    → has y ps ≡ true
    → has_maker (deref s y).id (offers s ps) ≡ true
unfolding offers
has_maker-offers s [] y i = cc
has_maker-offers s (p ∷ ps) y i = elim (Bool-cases (y == p)) [
  | inl e ↦ rw (==→eq _ _ e, ==_refl)
  | inr e ↦ ground (arith, has_maker-offers s ps y)
]

pub maker-found :
    (s : Store) (id : OrderId) (ps : List Ptr)
    → has_maker id (offers s ps) ≡ true
    → (y : Ptr) × (has y ps ≡ true) × ((deref s y).id ≡ id)
unfolding offers
maker-found s id [] h = cc
maker-found s id (p ∷ ps) h = elim (Bool-cases ((deref s p).id == id)) [
  | inl e ↦ (p, ground arith, ==→eq _ _ e)
  | inr e ↦ let (y, i, f) = maker-found s id ps (ground arith) in (y, ground arith, f)
]

module _ (s : Store) (b : OrderBook) (q : Queues) (v : IsBook s b q) where
  -- The two counters count the orders that wait.
  pub waiting_lem : waiting (depth_of s q) ≡ b.bid_count + b.ask_count
  unfolding waiting
  waiting_lem =
      let split =
        sum_upto-add (λ x. count_side bid s (q x)) (λ x. count_side ask s (q x)) max_price_ticks in
      let same =
        sum_upto-same (λ x. count_side bid s (q x) + count_side ask s (q x))
          (λ x. length (offers s (q x))) max_price_ticks
          (λ x h. length-offers s (q x) ∙ sym (count_sides-length s (q x))) in
      omega (arith, v.quoted.bid_count, v.quoted.ask_count)

  waits-known : (id : OrderId) (r : Ptr) → b.order_map id ≡ some r → waits id (depth_of s q) ≡ true
  unfolding waits
  waits-known id r m =
      let (e, i) = v.known id r m in
      let x = level_index (deref s r).price in
      any_upto-at _ max_price_ticks x (v.resting x r i).in_range
        (rw (← e) (has_maker-offers s (q x) r i))

  known-waits :
      (id : OrderId) → waits id (depth_of s q) ≡ true → (r : Ptr) × (b.order_map id ≡ some r)
  unfolding waits
  known-waits id h =
      let (x, l, t) = any_upto-found _ max_price_ticks h in
      let (y, i, e) = maker-found s id (q x) t in
      (y, ap b.order_map (sym e) ∙ (v.resting x y i).mapped)

  -- The map knows the orders that wait.
  pub waits_lem : (id : OrderId) → waits id (depth_of s q) ≡ not (is_none (b.order_map id))
  waits_lem id = elim (Option-cases (b.order_map id)) [
    | inr (r, m) ↦ rw (m, waits-known id r m)
    | inl m ↦ rw m (elim (Bool-cases (waits id (depth_of s q))) [
      | inr w ↦ w
      | inl w ↦ let (r, k) = known-waits id w in cc
    ])
  ]
