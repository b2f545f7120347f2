-- ===== src/Core/PriceLevel/Chain.antt =====
-- The doubly-linked segments that core/price_level.h wires through `Order::prev` and `Order::next`.
use lockfree_matching_engine.Prelude.{
  ◌≡◌, true, false, List, [], ◌∷◌, ◌++◌, arith, ◌==◌, has, Distinct, first_or, last_or,
  first_or-append,
}
use lockfree_matching_engine.Core.Order.{Ptr, null, Order}
use lockfree_matching_engine.Core.Store.{
  Store, is_object, deref, modify, with_prev, with_next, modify-ne,
}

-- `p` points to an order between `a` and `z`.
pub record Node (s : Store) (a p z : Ptr) : Type 0 where
  pub live : is_object (s p) ≡ true
  pub not_null : (p == null) ≡ false
  pub prev : (deref s p).prev ≡ a
  pub next : (deref s p).next ≡ z

-- The orders `ps` in a row: the first has `a` before it and the last has `z` behind it.
abbrev pub Chain : Store → Ptr → List Ptr → Ptr → Type 0
Chain s a [] z = Unit {0}
Chain s a (p ∷ ps) z = Node s a p (first_or ps z) × Chain s p ps z

-- What a list does not hold is neither its head nor in its tail, nor its last item.
pub not-has_head : (p q : Ptr) (ps : List Ptr) → has p (q ∷ ps) ≡ false → (q == p) ≡ false
not-has_head p q ps h = ground arith

pub not-has_tail : (p q : Ptr) (ps : List Ptr) → has p (q ∷ ps) ≡ false → has p ps ≡ false
not-has_tail p q ps h = ground arith

pub not-last_or : (p q : Ptr) (ps : List Ptr) → has p (q ∷ ps) ≡ false → (p == last_or q ps) ≡ false
not-last_or p q [] h = ground arith
not-last_or p q (r ∷ ps) h = not-last_or p r ps (not-has_tail p q (r ∷ ps) h)

pub Node-modify :
    {s : Store} {a p z : Ptr} (q : Ptr) (f : Order → Order)
    → Node s a p z
    → (p == q) ≡ false
    → Node (modify q f s) a p z
Node-modify {s} {p} q f n ne = record {
  live = rw (modify-ne q f s p ne) n.live;
  not_null = n.not_null;
  prev = rw (modify-ne q f s p ne) n.prev;
  next = rw (modify-ne q f s p ne) n.next;
}

pub Node-with_next :
    {s : Store} {a p z : Ptr} (w : Ptr) → Node s a p z → Node (modify p (with_next w) s) a p w
unfolding modify
Node-with_next w n = ground arith

pub Node-with_prev :
    {s : Store} {a p z : Ptr} (w : Ptr) → Node s a p z → Node (modify p (with_prev w) s) w p z
unfolding modify
Node-with_prev w n = ground arith

-- A write to an order outside the segment leaves it alone.
pub Chain-modify :
    (s : Store) (a : Ptr) (ps : List Ptr) (z p : Ptr) (f : Order → Order)
    → Chain s a ps z
    → has p ps ≡ false
    → Chain (modify p f s) a ps z
Chain-modify s a [] z p f c out = tt
Chain-modify s a (q ∷ ps) z p f c out = (
  Node-modify p f c.0 (not-has_head p q ps out),
  Chain-modify s q ps z p f c.1 (not-has_tail p q ps out),
)

pub Chain-split :
    (s : Store) (a : Ptr) (xs ys : List Ptr) (z : Ptr)
    → Chain s a (xs ++ ys) z
    → Chain s a xs (first_or ys z) × Chain s (last_or a xs) ys z
Chain-split s a [] ys z c = (tt, c)
Chain-split s a (x ∷ xs) ys z c =
    let (l, r) = Chain-split s x xs ys z c.1 in ((rw first_or-append at c.0, l), r)

pub Chain-join :
    (s : Store) (a : Ptr) (xs ys : List Ptr) (z : Ptr)
    → Chain s a xs (first_or ys z)
    → Chain s (last_or a xs) ys z
    → Chain s a (xs ++ ys) z
Chain-join s a [] ys z l r = r
Chain-join s a (x ∷ xs) ys z l r = (rw first_or-append l.0, Chain-join s x xs ys z l.1 r)

-- Writing the last order's `next` moves the far end of the segment.
pub Chain-with_next :
    (s : Store) (a p : Ptr) (ps : List Ptr) (z w : Ptr)
    → Chain s a (p ∷ ps) z
    → Distinct (p ∷ ps)
    → Chain (modify (last_or p ps) (with_next w) s) a (p ∷ ps) w
Chain-with_next s a p [] z w c d = (Node-with_next w c.0, tt)
Chain-with_next s a p (q ∷ ps) z w c d = (
  Node-modify (last_or q ps) (with_next w) c.0 (not-last_or p q ps d.0),
  Chain-with_next s p q ps z w c.1 d.1,
)

-- Writing the first order's `prev` moves its near end.
pub Chain-with_prev :
    (s : Store) (a p : Ptr) (ps : List Ptr) (z w : Ptr)
    → Chain s a (p ∷ ps) z
    → Distinct (p ∷ ps)
    → Chain (modify p (with_prev w) s) w (p ∷ ps) z
Chain-with_prev s a p ps z w c d =
    (Node-with_prev w c.0, Chain-modify s p ps z p (with_prev w) c.1 d.0)

pub last-not_null :
    (s : Store) (a p : Ptr) (ps : List Ptr) (z : Ptr)
    → Chain s a (p ∷ ps) z
    → (last_or p ps == null) ≡ false
last-not_null s a p [] z c = c.0.not_null
last-not_null s a p (q ∷ ps) z c = last-not_null s p q ps z c.1

-- A segment survives any change that spares its orders.
pub Chain-frame :
    (s t : Store) (a : Ptr) (ps : List Ptr) (z : Ptr)
    → Chain s a ps z
    → ((q : Ptr) → has q ps ≡ true → t q ≡ s q)
    → Chain t a ps z
Chain-frame s t a [] z c h = tt
Chain-frame s t a (p ∷ ps) z c h =
    let e = h p (ground arith) in
    (
      record {
        live = rw e c.0.live;
        not_null = c.0.not_null;
        prev = rw e c.0.prev;
        next = rw e c.0.next;
      },
      Chain-frame s t p ps z c.1 (λ q i. h q (ground arith)),
    )
