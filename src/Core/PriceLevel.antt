-- ===== src/Core/PriceLevel.antt =====
-- core/price_level.h: the FIFO queue of one price, an intrusive doubly-linked list.
pub mod Chain
pub mod Invariant
pub mod PushBack
pub mod Remove
pub mod PopFront
pub mod Fill
use lockfree_matching_engine.Prelude.{ℕ, Bool, ◌==◌, if◌then◌else◌, add32, sub32}
use lockfree_matching_engine.Core.Types.{Quantity}
use lockfree_matching_engine.Core.Order.{Ptr, null, remaining_quantity}
use lockfree_matching_engine.Core.Store.{Store, deref, modify, with_prev, with_next}

pub record PriceLevel : Type 0 where
  pub head : Ptr
  pub tail : Ptr
  pub total_quantity : Quantity
  pub order_count : ℕ

abbrev pub empty_level : PriceLevel
empty_level = record { head = null; tail = null; total_quantity = 0; order_count = 0 }

-- What a member function leaves: the memory and the level.
abbrev pub State : Type 0
State = Store × PriceLevel

-- The links of `push_back`, before the counters.
abbrev pub link_back : Ptr → State → State
link_back order (s, l) =
    let s' = modify order (λ o. with_next null (with_prev l.tail o)) s in
    if l.tail == null
    then (s', record l { head = order; tail = order })
    else (modify l.tail (with_next order) s', record l { tail = order })

abbrev pub count_in : Ptr → State → State
count_in order (s, l) = (
  s,
  record l {
    total_quantity = add32 l.total_quantity (remaining_quantity (deref s order));
    order_count = add32 l.order_count 1;
  },
)

unfoldable pub push_back : Ptr → State → State
push_back order st = count_in order (link_back order st)

abbrev pub count_out : Ptr → State → State
count_out order (s, l) = (
  s,
  record l {
    total_quantity = sub32 l.total_quantity (remaining_quantity (deref s order));
    order_count = sub32 l.order_count 1;
  },
)

-- `order->prev = nullptr; order->next = nullptr;`
unfoldable pub clear_links : Ptr → State → State
clear_links order (s, l) = (modify order (λ o. with_next null (with_prev null o)) s, l)

unfoldable pub unlink_prev : Ptr → State → State
unlink_prev order (s, l) =
    let o = deref s order in
    if o.prev == null
    then (s, record l { head = o.next })
    else (modify o.prev (with_next o.next) s, l)

unfoldable pub unlink_next : Ptr → State → State
unlink_next order (s, l) =
    let o = deref s order in
    if o.next == null
    then (s, record l { tail = o.prev })
    else (modify o.next (with_prev o.prev) s, l)

unfoldable pub remove : Ptr → State → State
unfolding unlink_prev unlink_next clear_links
remove order st = count_out order (clear_links order (unlink_next order (unlink_prev order st)))

-- The pointer that comes back is null for an empty queue.
unfoldable pub pop_front : State → Ptr × Store × PriceLevel
unfolding clear_links
pop_front (s, l) =
    if l.head == null
    then (null, s, l)
    else (let order = l.head in
        let rest = (deref s order).next in
        let (s', l') = count_out order (
          if rest == null
          then (s, record l { head = rest; tail = null })
          else (modify rest (with_prev null) s, record l { head = rest })) in
        let (s'', l'') = clear_links order (s', l') in (order, s'', l''))

unfoldable pub reduce_quantity : Quantity → PriceLevel → PriceLevel
reduce_quantity qty l = record l { total_quantity = sub32 l.total_quantity qty }

abbrev pub front : PriceLevel → Ptr
front l = l.head

abbrev pub is_empty : PriceLevel → Bool
is_empty l = l.head == null
