-- ===== src/Core/OrderBook/Counts.antt =====
-- How many orders of a queue are on a side, which is what the counters of core/order_book.h add up.
use lockfree_matching_engine.Prelude.{
  ℕ, ◌+◌, ◌<◌, ◌≡◌, refl, Bool, true, false, arith, if◌then◌else◌, List, [], ◌∷◌, ◌++◌, has, length,
}
use lockfree_matching_engine.Core.Types.{Side, bid, ask}
use lockfree_matching_engine.Core.Order.{Ptr}
use lockfree_matching_engine.Core.Store.{Slot, free_node, object, Store, slot_order, deref}
use lockfree_matching_engine.Core.PriceLevel.Invariant.{unlinked, SameOrders}

abbrev pub same_side : Side → Side → Bool
same_side bid bid = true
same_side bid ask = false
same_side ask bid = false
same_side ask ask = true

unfoldable pub count_side : Side → Store → List Ptr → ℕ
count_side d s [] = 0
count_side d s (p ∷ ps) = (if same_side d (deref s p).side then 1 else 0) + count_side d s ps

pub side-same : (a b : Slot) → unlinked a ≡ unlinked b → (slot_order a).side ≡ (slot_order b).side
side-same (free_node m) (free_node n) e = refl
side-same (free_node m) (object o) e = cc
side-same (object o) (free_node n) e = cc
side-same (object o) (object u) e = ground arith

pub count_side-append :
    (d : Side) (s : Store) (xs ys : List Ptr)
    → count_side d s (xs ++ ys) ≡ count_side d s xs + count_side d s ys
unfolding count_side
count_side-append d s [] ys = omega arith
count_side-append d s (x ∷ xs) ys = omega (arith, count_side-append d s xs ys)

pub count_side-same :
    (d : Side) (s t : Store) (ps : List Ptr)
    → SameOrders s t
    → count_side d t ps ≡ count_side d s ps
unfolding count_side
count_side-same d s t [] h = refl
count_side-same d s t (p ∷ ps) h = rw (side-same (t p) (s p) (h p), count_side-same d s t ps h)

pub count_sides-length :
    (s : Store) (ps : List Ptr) → count_side bid s ps + count_side ask s ps ≡ length ps
unfolding count_side
count_sides-length s [] = refl
count_sides-length s (p ∷ ps) = ground (arith, count_sides-length s ps)

-- An order that is counted: the first one, or one of the rest.
counted_order_step :
    (s : Store) (p : Ptr) (ps : List Ptr) (d e : Side)
    → (deref s p).side ≡ e
    → (0 < count_side d s ps → (r : Ptr) × (has r ps ≡ true) × ((deref s r).side ≡ d))
    → 0 < (if same_side d e then 1 else 0) + count_side d s ps
    → (r : Ptr) × (has r (p ∷ ps) ≡ true) × ((deref s r).side ≡ d)
counted_order_step s p ps bid bid e ih k = (p, ground arith, e)
counted_order_step s p ps ask ask e ih k = (p, ground arith, e)
counted_order_step s p ps bid ask e ih k = let (r, i, j) = ih (omega arith) in (r, ground arith, j)
counted_order_step s p ps ask bid e ih k = let (r, i, j) = ih (omega arith) in (r, ground arith, j)

pub counted_order :
    (d : Side) (s : Store) (ps : List Ptr)
    → 0 < count_side d s ps
    → (r : Ptr) × (has r ps ≡ true) × ((deref s r).side ≡ d)
unfolding count_side
counted_order d s [] h = absurd (omega arith)
counted_order d s (p ∷ ps) h =
    counted_order_step s p ps d (deref s p).side refl (counted_order d s ps) h
