-- ===== src/Transport/Message.antt =====
-- transport/message.h: what the threads send one another.
use lockfree_matching_engine.Core.Types.{OrderId, Side, OrderType, Price, Quantity, Timestamp}

pub record NewOrderMessage : Type 0 where
  pub id : OrderId
  pub side : Side
  pub kind : OrderType
  pub price : Price
  pub quantity : Quantity
  pub timestamp : Timestamp

pub record CancelMessage : Type 0 where
  pub id : OrderId
  pub timestamp : Timestamp

pub record FillMessage : Type 0 where
  pub aggressive_id : OrderId
  pub passive_id : OrderId
  pub price : Price
  pub quantity : Quantity
  pub timestamp : Timestamp
  pub aggressor_side : Side

pub record BookUpdateMessage : Type 0 where
  pub side : Side
  pub price : Price
  pub new_total_quantity : Quantity

-- `std::variant<NewOrderMessage, CancelMessage>`
pub data EngineMessage : Type 0 where
  new_order : NewOrderMessage → EngineMessage
  cancel : CancelMessage → EngineMessage

-- `std::variant<FillMessage, BookUpdateMessage>`
pub data OutputMessage : Type 0 where
  fill : FillMessage → OutputMessage
  book_update : BookUpdateMessage → OutputMessage
