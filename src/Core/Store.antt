-- ===== src/Core/Store.antt =====
-- The memory of the order pool. A slot holds either a free-list node or an `Order`, as in the
-- source, where both are written into the same bytes. What the source leaves undefined is
-- written out: a read through a pointer to no order gives `Order{}`, and a write is lost. The
-- invariants of the modules below show that the code follows pointers to orders only.
use lockfree_matching_engine.Prelude.{◌≡◌, Bool, true, false, ◌==◌, if◌then◌else◌, arith}
use lockfree_matching_engine.Core.Types.{Quantity}
use lockfree_matching_engine.Core.Order.{Ptr, Order, default_order}

pub data Slot : Type 0 where
  free_node : Ptr → Slot
  object : Order → Slot

abbrev pub Store : Type 0
Store = Ptr → Slot

abbrev pub slot_order : Slot → Order
slot_order (free_node n) = default_order
slot_order (object o) = o

abbrev pub is_object : Slot → Bool
is_object (free_node n) = false
is_object (object o) = true

abbrev pub on_object : (Order → Order) → Slot → Slot
on_object f (free_node n) = free_node n
on_object f (object o) = object (f o)

-- `*p`
abbrev pub deref : Store → Ptr → Order
deref s p = slot_order (s p)

-- `*p = f(*p)`
unfoldable pub modify : Ptr → (Order → Order) → Store → Store
modify p f s q = if q == p then on_object f (s q) else s q

-- `p->prev = q`, `p->next = q` and `p->filled_quantity = n`
abbrev pub with_prev : Ptr → Order → Order
with_prev q o = record o { prev = q }

abbrev pub with_next : Ptr → Order → Order
with_next q o = record o { next = q }

abbrev pub with_filled : Quantity → Order → Order
with_filled n o = record o { filled_quantity = n }

pub modify-ne :
    (p : Ptr) (f : Order → Order) (s : Store) (q : Ptr) → (q == p) ≡ false → modify p f s q ≡ s q
unfolding modify
modify-ne p f s q h = ground arith
