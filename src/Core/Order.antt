-- ===== src/Core/Order.antt =====
-- core/order.h: an order is its own list node. A pointer is the number of a pool slot counted
-- from 1, and `nullptr` is 0.
use lockfree_matching_engine.Prelude.{ℕ, Bool, leb, sub32, pos}
use lockfree_matching_engine.Core.Types.{
  OrderId, Price, Quantity, Timestamp, Side, bid, OrderType, limit,
}

abbrev pub Ptr : Type 0
Ptr = ℕ

abbrev pub null : Ptr
null = 0

pub record Order : Type 0 where
  pub id : OrderId
  pub side : Side
  pub kind : OrderType
  pub price : Price
  pub quantity : Quantity
  pub filled_quantity : Quantity
  pub timestamp : Timestamp
  pub prev : Ptr
  pub next : Ptr

-- `Order{}`
abbrev pub default_order : Order
default_order = record {
  id = 0;
  side = bid;
  kind = limit;
  price = pos 0;
  quantity = 0;
  filled_quantity = 0;
  timestamp = 0;
  prev = null;
  next = null;
}

abbrev pub remaining_quantity : Order → Quantity
remaining_quantity o = sub32 o.quantity o.filled_quantity

abbrev pub is_filled : Order → Bool
is_filled o = leb o.quantity o.filled_quantity
