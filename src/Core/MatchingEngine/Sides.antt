-- ===== src/Core/MatchingEngine/Sides.antt =====
-- Which prices hold orders of a side, by the best prices of the book: a queue holds orders of one
-- side only where the book is not crossed.
use lockfree_matching_engine.Prelude.{
  ℕ, ◌≤◌, ◌<◌, ◌≡◌, refl, true, false, arith, List, [], ◌∷◌, Bool-cases, inl, inr, ltb,
}
use lockfree_matching_engine.Core.Types.{Side, bid, ask}
use lockfree_matching_engine.Core.Order.{Ptr}
use lockfree_matching_engine.Core.Store.{Store}
use lockfree_matching_engine.Core.OrderBook.{OrderBook}
use lockfree_matching_engine.Core.OrderBook.Counts.{same_side, count_side}
use lockfree_matching_engine.Core.OrderBook.Quotes.{bids_counted, asks_counted}
use lockfree_matching_engine.Core.OrderBook.Invariant.{Queues, IsBook, bids_in, asks_in}
use lockfree_matching_engine.Core.MatchingEngine.Matching.{offers}
use lockfree_matching_engine.Core.MatchingEngine.Sweep.{holds}

holds-counted :
    (d : Side) (s : Store) (ps : List Ptr) → holds d (offers s ps) ≡ true → 0 < count_side d s ps
unfolding offers count_side
holds-counted d s [] h = cc
holds-counted d s (p ∷ ps) h = rw h (omega arith)

one_side :
    (d e : Side) (s : Store) (ps : List Ptr)
    → same_side d e ≡ false
    → 0 < count_side d s ps
    → count_side e s ps ≡ 0
    → holds d (offers s ps) ≡ true
unfolding offers count_side
one_side d e s [] ne h z = absurd (omega arith)
one_side bid ask s (p ∷ ps) ne h z = ground arith
one_side ask bid s (p ∷ ps) ne h z = ground arith
one_side bid bid s (p ∷ ps) ne h z = cc
one_side ask ask s (p ∷ ps) ne h z = cc

module _ (s : Store) (b : OrderBook) (q : Queues) (v : IsBook s b q) where
  -- The best ask holds asks, and they start there.
  pub best_ask-holds : 0 < b.ask_count → holds ask (offers s (q b.best_ask)) ≡ true
  best_ask-holds h =
      let some_ask = v.quoted.ask_held h in
      let in_range = asks_in v b.best_ask some_ask in
      one_side ask bid s (q b.best_ask) refl some_ask
        (elim (Bool-cases (ltb 0 (count_side bid s (q b.best_ask)))) [
          | inr z ↦ ground arith
          | inl some_bid ↦
              let c = bids_counted v.quoted b.best_ask in_range (ground arith) in
              absurd (
                omega (arith, v.quoted.bid_bound b.best_ask (ground arith), v.quoted.uncrossed c h))
        ])

  pub asks_from : (p : ℕ) → holds ask (offers s (q p)) ≡ true → (0 < b.ask_count) × (b.best_ask ≤ p)
  asks_from p h =
      let some_ask = holds-counted ask s (q p) h in
      (asks_counted v.quoted p (asks_in v p some_ask) some_ask, v.quoted.ask_bound p some_ask)

  pub no_asks_below : (p : ℕ) → p < b.best_ask → holds ask (offers s (q p)) ≡ false
  no_asks_below p h = elim (Bool-cases (holds ask (offers s (q p)))) [
    | inl asks ↦ absurd (omega (arith, (asks_from p asks).1))
    | inr none_there ↦ none_there
  ]

  pub best_bid-holds : 0 < b.bid_count → holds bid (offers s (q b.best_bid)) ≡ true
  best_bid-holds h =
      let some_bid = v.quoted.bid_held h in
      let in_range = bids_in v b.best_bid some_bid in
      one_side bid ask s (q b.best_bid) refl some_bid
        (elim (Bool-cases (ltb 0 (count_side ask s (q b.best_bid)))) [
          | inr z ↦ ground arith
          | inl some_ask ↦
              let c = asks_counted v.quoted b.best_bid in_range (ground arith) in
              absurd (
                omega (arith, v.quoted.ask_bound b.best_bid (ground arith), v.quoted.uncrossed h c))
        ])

  pub bids_upto : (p : ℕ) → holds bid (offers s (q p)) ≡ true → (0 < b.bid_count) × (p ≤ b.best_bid)
  bids_upto p h =
      let some_bid = holds-counted bid s (q p) h in
      (bids_counted v.quoted p (bids_in v p some_bid) some_bid, v.quoted.bid_bound p some_bid)

  pub no_bids_above : (p : ℕ) → b.best_bid < p → holds bid (offers s (q p)) ≡ false
  no_bids_above p h = elim (Bool-cases (holds bid (offers s (q p)))) [
    | inl bids ↦ absurd (omega (arith, (bids_upto p bids).1))
    | inr none_there ↦ none_there
  ]
