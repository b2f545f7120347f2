-- ===== src/Core/MatchingEngine/Round.antt =====
-- One round of the price loop of `process_new_order` in core/matching_engine.cpp: `fill_level` at
-- a price with orders of the other side, in terms of what is offered.
use lockfree_matching_engine.Prelude.{
  ℕ, ◌^◌, ◌<◌, ◌≡◌, refl, sym, ◌∙◌, ap, fun_ext, true, List, [], ◌∷◌, ◌++◌, append_assoc,
  append-nil, ◌==◌, update, Bool-cases, List-cases, inl, inr,
}
use lockfree_matching_engine.Core.Types.{Side, Quantity}
use lockfree_matching_engine.Core.Order.{Ptr}
use lockfree_matching_engine.Core.Store.{Store}
use lockfree_matching_engine.Core.OrderBook.Invariant.{Queues}
use lockfree_matching_engine.Core.MatchingEngine.{MatchingEngine, fill_level}
use lockfree_matching_engine.Core.MatchingEngine.Invariant.{IsEngine}
use lockfree_matching_engine.Core.MatchingEngine.Matching.{offers, fill_queue}
use lockfree_matching_engine.Core.MatchingEngine.FillQueue.{fill_queue-less}
use lockfree_matching_engine.Core.MatchingEngine.FillFront.{left_pos}
use lockfree_matching_engine.Core.MatchingEngine.FillLevel.{fill_level_lem}
use lockfree_matching_engine.Core.MatchingEngine.Sweep.{Depth, holds, fills_at}
use lockfree_matching_engine.Transport.Message.{NewOrderMessage, FillMessage}

abbrev pub depth_of : Store → Queues → Depth
depth_of s q x = offers s (q x)

-- A part of the matching of an order does what `spec` says: the fills it adds, what is still
-- wanted and what is offered then.
pub record Swept (n : ℕ) (e : MatchingEngine) (spec : List FillMessage × ℕ × Depth)
    (out : Quantity × MatchingEngine) : Type 0 where
  pub queues : Queues
  pub free : List Ptr
  pub engine : IsEngine n out.1 queues free
  pub left : out.0 ≡ spec.1
  pub fills : out.1.fills ≡ e.fills ++ spec.0
  pub depth : depth_of out.1.store queues ≡ spec.2

pub unswept :
    (n k : ℕ) (e : MatchingEngine) (q : Queues) (fs : List Ptr)
    → IsEngine n e q fs
    → Swept n e ([], k, depth_of e.store q) (k, e)
unswept n k e q fs v = record {
  queues = q;
  free = fs;
  engine = v;
  left = refl;
  fills = sym (append-nil e.fills);
  depth = refl;
}

pub Swept-then :
    (n : ℕ) (e : MatchingEngine) (out out' : Quantity × MatchingEngine) (f f' : List FillMessage)
    (k k' : ℕ) (depth depth' : Depth)
    → Swept n e (f, k, depth) out
    → Swept n out.1 (f', k', depth') out'
    → Swept n e (f ++ f', k', depth') out'
Swept-then n e out out' f f' k k' depth depth' a b = record {
  queues = b.queues;
  free = b.free;
  engine = b.engine;
  left = b.left;
  fills = b.fills ∙ ap (λ g. g ++ f') a.fills ∙ append_assoc e.fills f f';
  depth = b.depth;
}

module _ (d : Side) (msg : NewOrderMessage) (n a k : ℕ) (e : MatchingEngine) (q : Queues)
    (fs : List Ptr) (v : IsEngine n e q fs) (wanted : 0 < k) (small : k < 2 ^ 32)
    (here : holds d (offers e.store (q a)) ≡ true) where
  filled : Quantity × MatchingEngine
  filled = fill_level a msg.id msg.side msg.timestamp k e

  front_there : (r : Ptr) × (ys : List Ptr) × (q a ≡ r ∷ ys)
  unfolding offers
  front_there = elim (List-cases (q a)) [
    | inl z ↦ let h : holds d [] ≡ true = rw z at here in cc
    | inr c ↦ c
  ]

  gets_some : (fill_queue k (offers e.store (q a))).1 < k
  unfolding offers
  gets_some =
      let (r, ys, at) = front_there in
      let pos_left = left_pos a msg.id msg.side msg.timestamp n e q fs r ys v at in
      rw at (fill_queue-less k _ _ wanted pos_left.0)

  pub round_lem :
      let (ts, m, os) = fill_queue k (offers e.store (q a)) in
      (m < k)
      × Swept n e
          (fills_at d msg a ts, m, update (depth_of e.store q) a os)
          (fill_level a msg.id msg.side msg.timestamp k e)
  round_lem =
      let (left, m) = fill_level_lem a msg.id msg.side msg.timestamp n k e q fs v small in
      (
        gets_some,
        record {
          queues = update q a m.queue;
          free = m.free;
          engine = m.engine;
          left = left;
          fills = m.fills;
          depth = fun_ext (λ x. elim (Bool-cases (x == a)) [
            | inl i ↦ rw i m.here
            | inr i ↦ rw i (m.elsewhere x i)
          ]);
        },
      )
