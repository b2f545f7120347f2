-- ===== src/Core/OrderBook.antt =====
-- core/order_book.h and core/order_book.cpp: the book as an array of levels, with a map from
-- identifiers to orders. A best price has passed the range check, so it is an array index.
pub mod Scan
pub mod Quotes
pub mod Repair
pub mod RepairAsk
pub mod Counts
pub mod Invariant
pub mod Recount
pub mod Insert
pub mod AddOrder
pub mod TakeOut
pub mod CancelOrder
pub mod Fill
use lockfree_matching_engine.Prelude.{
  ℕ, zero, suc, ◌+◌, ◌-◌, ◌^◌, Bool, true, false, ◌||◌, Option, none, some, ◌==◌, ltb, leb,
  if◌then◌else◌, add64, sub64, ℤ, pos, negsuc, update, sub_ℕ,
}
use lockfree_matching_engine.Core.Types.{OrderId, Price, Side, bid, ask, max_price_ticks}
use lockfree_matching_engine.Core.Order.{Ptr, null}
use lockfree_matching_engine.Core.Store.{Store, deref}
use lockfree_matching_engine.Core.PriceLevel
use lockfree_matching_engine.Core.PriceLevel.{PriceLevel, empty_level, is_empty}

pub record OrderBook : Type 0 where
  pub levels : ℕ → PriceLevel
  pub best_bid : ℕ
  pub best_ask : ℕ
  pub bid_count : ℕ
  pub ask_count : ℕ
  pub order_map : OrderId → Option Ptr

abbrev pub empty_book : OrderBook
empty_book = record {
  levels = λ p. empty_level;
  best_bid = 0;
  best_ask = max_price_ticks - 1;
  bid_count = 0;
  ask_count = 0;
  order_map = λ id. none;
}

-- `static_cast<size_t>(price)`
abbrev pub level_index : Price → ℕ
level_index (pos n) = n
level_index (negsuc n) = 2 ^ 64 - suc n

abbrev pub has_bids : OrderBook → Bool
has_bids b = ltb 0 b.bid_count

abbrev pub has_asks : OrderBook → Bool
has_asks b = ltb 0 b.ask_count

-- Meaningless if a side is empty.
abbrev pub spread : OrderBook → Price
spread b = sub_ℕ b.best_ask b.best_bid

-- Null if the identifier is unknown.
unfoldable pub get_order : OrderId → OrderBook → Ptr
get_order id b = elim (b.order_map id) [ some order ↦ order | none ↦ null ]

abbrev pub get_level : OrderBook → ℕ → PriceLevel
get_level b p = b.levels p

-- `for (Price p = removed_price - 1; p >= 0; --p)`, with `n` for `p + 1`.
unfoldable pub scan_down : (ℕ → PriceLevel) → ℕ → Option ℕ
scan_down levels zero = none
scan_down levels (suc p) = elim (is_empty (levels p)) [ true ↦ scan_down levels p | false ↦ some p ]

-- `for (; p < MAX_PRICE_TICKS; ++p)`, with `k` rounds left.
unfoldable pub scan_up : (ℕ → PriceLevel) → ℕ → ℕ → Option ℕ
scan_up levels zero p = none
scan_up levels (suc k) p = elim (is_empty (levels p)) [
  | true ↦ scan_up levels k (p + 1)
  | false ↦ some p
]

unfoldable pub update_best_bid_after_remove : ℕ → OrderBook → OrderBook
unfolding scan_down
update_best_bid_after_remove removed_price b =
    if b.bid_count == 0
    then record b { best_bid = 0 }
    else elim (scan_down b.levels removed_price) [ some p ↦ record b { best_bid = p } | none ↦ b ]

unfoldable pub update_best_ask_after_remove : ℕ → OrderBook → OrderBook
unfolding scan_up
update_best_ask_after_remove removed_price b =
    if b.ask_count == 0
    then record b { best_ask = max_price_ticks - 1 }
    else elim (scan_up b.levels (max_price_ticks - (removed_price + 1)) (removed_price + 1)) [
      | some p ↦ record b { best_ask = p }
      | none ↦ b
    ]

-- `++bid_count_` or `++ask_count_`, and the comparison with the best price.
unfoldable pub count_added : Side → ℕ → OrderBook → OrderBook
count_added bid p b =
    let n = add64 b.bid_count 1 in
    record b { bid_count = n; best_bid = if (n == 1) || ltb b.best_bid p then p else b.best_bid }
count_added ask p b =
    let n = add64 b.ask_count 1 in
    record b { ask_count = n; best_ask = if (n == 1) || ltb p b.best_ask then p else b.best_ask }

-- The order at an index in range, with a new identifier.
unfoldable pub insert : Ptr → ℕ → Store → OrderBook → Store × OrderBook
unfolding count_added PriceLevel.push_back
insert order p s b =
    let o = deref s order in
    let (s', l) = PriceLevel.push_back order (s, b.levels p) in
    (
      s',
      count_added o.side p (record b {
        levels = update b.levels p l;
        order_map = update b.order_map o.id (some order);
      }),
    )

-- An insertion, unless the identifier is in the map.
unfoldable pub emplace : Ptr → ℕ → Store → OrderBook → Bool × Store × OrderBook
unfolding insert
emplace order p s b = elim (b.order_map (deref s order).id) [
  | some other ↦ (false, s, b)
  | none ↦ let (s', b') = insert order p s b in (true, s', b')
]

unfoldable pub add_order : Ptr → Store → OrderBook → Bool × Store × OrderBook
unfolding emplace
add_order order s b = elim (deref s order).price [
  | negsuc n ↦ (false, s, b)
  | pos p ↦ if leb max_price_ticks p then (false, s, b) else emplace order p s b
]

abbrev pub count_removed : Side → OrderBook → OrderBook
count_removed bid b = record b { bid_count = sub64 b.bid_count 1 }
count_removed ask b = record b { ask_count = sub64 b.ask_count 1 }

-- The rescan, if the best level was emptied.
unfoldable pub repair_best : Side → ℕ → OrderBook → OrderBook
unfolding update_best_bid_after_remove update_best_ask_after_remove
repair_best bid price b =
    if is_empty (b.levels price)
    then (if price == b.best_bid then update_best_bid_after_remove price b else b)
    else b
repair_best ask price b =
    if is_empty (b.levels price)
    then (if price == b.best_ask then update_best_ask_after_remove price b else b)
    else b

-- The order `order` that the map has under `id`.
unfoldable pub take_out : Ptr → OrderId → Store → OrderBook → Store × OrderBook
unfolding repair_best PriceLevel.remove
take_out order id s b =
    let o = deref s order in
    let price = level_index o.price in
    let (s', l) = PriceLevel.remove order (s, b.levels price) in
    (
      s',
      repair_best o.side price (
          count_removed o.side (record b {
            levels = update b.levels price l;
            order_map = update b.order_map id none;
          })),
    )

unfoldable pub cancel_order : OrderId → Store → OrderBook → Bool × Store × OrderBook
unfolding take_out
cancel_order id s b = elim (b.order_map id) [
  | none ↦ (false, s, b)
  | some order ↦ let (s', b') = take_out order id s b in (true, s', b')
]
