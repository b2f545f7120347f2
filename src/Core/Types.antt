-- ===== src/Core/Types.antt =====
-- core/types.h. An identifier, a quantity and a timestamp are numbers below their word's size;
-- a price is a signed number of ticks. The two `double` conversions are parameters elsewhere.
use lockfree_matching_engine.Prelude.{ℕ, ℤ, Bool, true, false}

abbrev pub OrderId : Type 0
OrderId = ℕ

abbrev pub Price : Type 0
Price = ℤ

abbrev pub Quantity : Type 0
Quantity = ℕ

abbrev pub Timestamp : Type 0
Timestamp = ℕ

pub data Side : Type 0 where
  bid ask : Side

pub data OrderType : Type 0 where
  limit market : OrderType

abbrev pub max_price_ticks : ℕ
max_price_ticks = 10_000_000

abbrev pub is_bid : Side → Bool
is_bid bid = true
is_bid ask = false

abbrev pub is_limit : OrderType → Bool
is_limit limit = true
is_limit market = false
