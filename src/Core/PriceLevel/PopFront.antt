-- ===== src/Core/PriceLevel/PopFront.antt =====
-- `PriceLevel::pop_front` takes the oldest order.
use lockfree_matching_engine.Prelude.{◌≡◌, refl, List, [], ◌∷◌, arith}
use lockfree_matching_engine.Core.Order.{Ptr, null}
use lockfree_matching_engine.Core.Store.{Store, modify}
use lockfree_matching_engine.Core.PriceLevel.{PriceLevel, pop_front, remove}
use lockfree_matching_engine.Core.PriceLevel.Chain.{Node}
use lockfree_matching_engine.Core.PriceLevel.Invariant.{IsLevel}
use lockfree_matching_engine.Core.PriceLevel.PushBack.{Requeued}
use lockfree_matching_engine.Core.PriceLevel.Remove.{remove_lem}

-- On the oldest order `pop_front` and `remove` agree.
pop_front-remove :
    (s : Store) (l : PriceLevel) (p z : Ptr)
    → l.head ≡ p
    → Node s null p z
    → pop_front (s, l) ≡ (p, (remove p (s, l)).0, (remove p (s, l)).1)
unfolding pop_front remove modify
pop_front-remove s l p z e n = ground arith

-- What `pop_front` returns and leaves, for an empty and for any other queue.
abbrev pub Popped : Store → PriceLevel → List Ptr → Ptr × Store × PriceLevel → Type 0
Popped s l [] r = r ≡ (null, s, l)
Popped s l (p ∷ ps) r = (r.0 ≡ p) × Requeued s (p ∷ ps) ps (r.1, r.2)

-- `pop_front` of a well-formed level returns null and changes nothing if the queue is empty, and
-- else returns the oldest order and leaves the queue of the others.
pub pop_front_lem :
    (s : Store) (l : PriceLevel) (ps : List Ptr) → IsLevel s l ps → Popped s l ps (pop_front (s, l))
unfolding pop_front
pop_front_lem s l [] v = rw v.head
pop_front_lem s l (p ∷ ps) v =
    rw (pop_front-remove s l p _ v.head v.chain.0) (refl, remove_lem s l [] p ps v)
