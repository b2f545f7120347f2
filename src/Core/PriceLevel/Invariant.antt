-- ===== src/Core/PriceLevel/Invariant.antt =====
-- core/price_level.h: what a level and the pool memory look like when the level queues `ps`,
-- and how much of the memory an operation on it may change.
use lockfree_matching_engine.Prelude.{
  first_or, last_or, ℕ, ◌+◌, ◌%◌, ◌^◌, ◌≡◌, refl, ap, false, List, [], ◌∷◌, ◌++◌, arith, has,
  Distinct, length,
}
use lockfree_matching_engine.Core.Order.{Ptr, null, Order, remaining_quantity}
use lockfree_matching_engine.Core.Store.{
  Slot, free_node, object, Store, on_object, slot_order, is_object, deref, modify, with_prev,
  with_next,
}
use lockfree_matching_engine.Core.PriceLevel.{PriceLevel}
use lockfree_matching_engine.Core.PriceLevel.Chain.{Chain}

-- The remaining quantity of all the orders `ps`, as an unbounded number.
unfoldable pub total : Store → List Ptr → ℕ
total s [] = 0
total s (p ∷ ps) = remaining_quantity (deref s p) + total s ps

-- The three invariants that the header lists. Its sums are `uint32_t`, so they hold modulo 2^32.
pub record IsLevel (s : Store) (l : PriceLevel) (ps : List Ptr) : Type 0 where
  pub head : l.head ≡ first_or ps null
  pub tail : l.tail ≡ last_or null ps
  pub chain : Chain s null ps null
  pub distinct : Distinct ps
  pub quantity : l.total_quantity ≡ total s ps % 2 ^ 32
  pub count : l.order_count ≡ length ps % 2 ^ 32

-- An order less its links.
abbrev pub unlinked : Slot → Slot
unlinked = on_object (λ o. with_next null (with_prev null o))

-- Two memories with the same orders, but for their links.
abbrev pub SameOrders : Store → Store → Type 0
SameOrders s t = (q : Ptr) → unlinked (t q) ≡ unlinked (s q)

-- Two memories that differ at the orders `ps` at most.
abbrev pub SameOutside : List Ptr → Store → Store → Type 0
SameOutside ps s t = (q : Ptr) → has q ps ≡ false → t q ≡ s q

module _ (p w : Ptr) (s : Store) where
  pub SameOrders-with_next : SameOrders s (modify p (with_next w) s)
  unfolding modify
  SameOrders-with_next q = ground arith

  pub SameOrders-with_prev : SameOrders s (modify p (with_prev w) s)
  unfolding modify
  SameOrders-with_prev q = ground arith

  pub SameOrders-with_links :
      (a : Ptr) → SameOrders s (modify p (λ o. with_next w (with_prev a o)) s)
  unfolding modify
  SameOrders-with_links a q = ground arith

pub remaining-same :
    (a b : Slot)
    → unlinked a ≡ unlinked b
    → remaining_quantity (slot_order a) ≡ remaining_quantity (slot_order b)
remaining-same (free_node m) (free_node n) e = refl
remaining-same (free_node m) (object o) e = cc
remaining-same (object o) (free_node n) e = cc
remaining-same (object o) (object u) e = ground arith

pub live-same : (a b : Slot) → unlinked a ≡ unlinked b → is_object a ≡ is_object b
live-same (free_node m) (free_node n) e = refl
live-same (free_node m) (object o) e = cc
live-same (object o) (free_node n) e = cc
live-same (object o) (object u) e = refl

pub total-same : (s t : Store) (ps : List Ptr) → SameOrders s t → total t ps ≡ total s ps
unfolding total
total-same s t [] h = refl
total-same s t (p ∷ ps) h = omega (arith, remaining-same (t p) (s p) (h p), total-same s t ps h)

pub total-append : (s : Store) (xs ys : List Ptr) → total s (xs ++ ys) ≡ total s xs + total s ys
unfolding total
total-append s [] ys = omega arith
total-append s (x ∷ xs) ys = omega (arith, total-append s xs ys)

-- An order with its links cleared, which is all of it that `SameOrders` speaks of.
abbrev pub details : Order → Order
details o = with_next null (with_prev null o)

pub details-same :
    (a b : Slot) → unlinked a ≡ unlinked b → details (slot_order a) ≡ details (slot_order b)
details-same (free_node m) (free_node n) e = refl
details-same (free_node m) (object o) e = cc
details-same (object o) (free_node n) e = cc
details-same (object o) (object u) e = ap slot_order e
