-- ===== src/Core/PriceLevel/Fill.antt =====
-- A fill at the front of a queue: `filled_quantity` grows and `reduce_quantity` follows.
use lockfree_matching_engine.Prelude.{
  ◌+◌, ◌%◌, ◌^◌, ◌≤◌, ◌<◌, ◌≡◌, refl, true, false, List, [], ◌∷◌, arith, has, add32, sub32,
}
use lockfree_matching_engine.Core.Types.{Quantity}
use lockfree_matching_engine.Core.Order.{Ptr, null, Order, remaining_quantity}
use lockfree_matching_engine.Core.Store.{Store, is_object, deref, modify, with_filled, modify-ne}
use lockfree_matching_engine.Core.PriceLevel.{PriceLevel, reduce_quantity}
use lockfree_matching_engine.Core.PriceLevel.Chain.{Node, Chain-modify}
use lockfree_matching_engine.Core.PriceLevel.Invariant.{IsLevel, total}

-- `order->filled_quantity += qty`
abbrev pub fill : Ptr → Quantity → Store → Store
fill p qty = modify p (λ o. with_filled (add32 o.filled_quantity qty) o)

total-modify :
    (s : Store) (ps : List Ptr) (p : Ptr) (f : Order → Order)
    → has p ps ≡ false
    → total (modify p f s) ps ≡ total s ps
unfolding total
total-modify s [] p f out = refl
total-modify s (q ∷ ps) p f out =
    let e : modify p f s q ≡ s q = modify-ne p f s q (ground arith) in
    rw e (omega (arith, total-modify s ps p f (ground arith)))

remaining-fill :
    (s : Store) (p : Ptr) (qty : Quantity)
    → is_object (s p) ≡ true
    → (deref s p).filled_quantity ≤ (deref s p).quantity
    → (deref s p).quantity < 2 ^ 32
    → qty ≤ remaining_quantity (deref s p)
    → remaining_quantity (deref (fill p qty s) p) + qty ≡ remaining_quantity (deref s p)
unfolding modify
remaining-fill s p qty live le small fits = ground arith

Node-fill : {s : Store} {a p z : Ptr} (qty : Quantity) → Node s a p z → Node (fill p qty s) a p z
unfolding modify
Node-fill qty n = ground arith

quantity-fill :
    (s : Store) (p : Ptr) (ps : List Ptr) (qty n : Quantity)
    → has p ps ≡ false
    → remaining_quantity (deref (fill p qty s) p) + qty ≡ remaining_quantity (deref s p)
    → n ≡ total s (p ∷ ps) % 2 ^ 32
    → sub32 n qty ≡ total (fill p qty s) (p ∷ ps) % 2 ^ 32
unfolding total
quantity-fill s p ps qty n out e h =
    let rest = total-modify s ps p (λ o. with_filled (add32 o.filled_quantity qty) o) out in
    omega arith

-- If the oldest order of a well-formed level is filled by no more than it has left, and the
-- level's total reduced by as much, the level stays well-formed.
pub fill-IsLevel :
    (s : Store) (l : PriceLevel) (p : Ptr) (ps : List Ptr) (qty : Quantity)
    → IsLevel s l (p ∷ ps)
    → (deref s p).filled_quantity ≤ (deref s p).quantity
    → (deref s p).quantity < 2 ^ 32
    → qty ≤ remaining_quantity (deref s p)
    → IsLevel (fill p qty s) (reduce_quantity qty l) (p ∷ ps)
unfolding reduce_quantity
fill-IsLevel s l p ps qty v le small fits = record {
  head = v.head;
  tail = v.tail;
  chain = (Node-fill qty v.chain.0, Chain-modify s p ps null p _ v.chain.1 v.distinct.0);
  distinct = v.distinct;
  quantity =
      quantity-fill s p ps qty l.total_quantity v.distinct.0
        (remaining-fill s p qty v.chain.0.live le small fits) v.quantity;
  count = v.count;
}
