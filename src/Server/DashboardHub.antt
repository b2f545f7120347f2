-- ===== src/Server/DashboardHub.antt =====
-- server/dashboard_hub.h: what the threads leave for the dashboard: the top of the book, the tape of
-- the last fills, which `snapshot_json` reads from the oldest row on, and the statistics.
pub mod Tape
pub mod Levels
pub mod Json
use Prim.Native.String.{String}
use lockfree_matching_engine.Prelude.{
  ℕ, zero, suc, ◌+◌, ◌-◌, ◌%◌, Bool, true, false, List, [], ◌∷◌, ltb, leb, ◌==◌, if◌then◌else◌,
  update, ℤ, pos,
}
use lockfree_matching_engine.Core.Types.{Price, Quantity, max_price_ticks}
use lockfree_matching_engine.Core.PriceLevel.{PriceLevel, is_empty}
use lockfree_matching_engine.Core.OrderBook.{OrderBook, has_bids, has_asks}

pub record FillRow : Type 0 where
  pub seq : ℕ
  pub ts_ms : ℕ
  pub price : Price
  pub qty : Quantity
  pub taker_is_bid : Bool

-- `FillRow{}`
abbrev pub blank_row : FillRow
blank_row = record { seq = 0; ts_ms = 0; price = pos 0; qty = 0; taker_is_bid = false }

abbrev pub fill_keep : ℕ
fill_keep = 48

-- `fills_`, `fill_head_` and `fill_count_`.
pub record FillTape : Type 0 where
  pub fills : ℕ → FillRow
  pub fill_head : ℕ
  pub fill_count : ℕ

abbrev pub new_tape : FillTape
new_tape = record { fills = λ i. blank_row; fill_head = 0; fill_count = 0 }

-- A round of the loop of `publish_output`.
unfoldable pub publish_row : FillRow → FillTape → FillTape
publish_row row t = record {
  fills = update t.fills t.fill_head row;
  fill_head = (t.fill_head + 1) % fill_keep;
  fill_count = if ltb t.fill_count fill_keep then t.fill_count + 1 else t.fill_count;
}

unfoldable pub publish_rows : List FillRow → FillTape → FillTape
unfolding publish_row
publish_rows [] t = t
publish_rows (row ∷ rows) t = publish_rows rows (publish_row row t)

-- The row that `snapshot_json` prints in place `i`, for `i` below `fill_count`.
unfoldable pub snapshot_row : FillTape → ℕ → FillRow
snapshot_row t i = t.fills ((t.fill_head + fill_keep - t.fill_count + i) % fill_keep)

-- `Level`: a row of the book.
pub record LevelRow : Type 0 where
  pub price : ℕ
  pub qty : ℕ
  pub orders : ℕ

pub record Stats : Type 0 where
  pub match_p50 : ℕ
  pub match_p95 : ℕ
  pub match_p99 : ℕ
  pub order_p50 : ℕ
  pub order_p99 : ℕ
  pub processed : ℕ
  pub fills : ℕ
  pub pool_free : ℕ
  pub pool_capacity : ℕ
  pub dropped : ℕ
  pub clients : ℕ

abbrev pub book_depth : ℕ
book_depth = 15

abbrev pub scan_limit : ℕ
scan_limit = 100_000

-- The rows of a side are the first `bid_count_` or `ask_count_` entries of its array.
pub record DashboardHub : Type 0 where
  pub book_wanted : Bool
  pub mode : String
  pub product : String
  pub bids : List LevelRow
  pub asks : List LevelRow
  pub total_bids : ℕ
  pub total_asks : ℕ
  pub tape : FillTape
  pub stats : Stats

abbrev pub configure : String → String → DashboardHub → DashboardHub
configure mode product hub = record hub { mode = mode; product = product }

abbrev pub request_book : DashboardHub → DashboardHub
request_book hub = record hub { book_wanted = true }

abbrev pub level_row : ℕ → PriceLevel → LevelRow
level_row p l = record { price = p; qty = l.total_quantity; orders = l.order_count }

-- The loops of `publish_book`, with `n` prices left and room for `slots` rows.
unfoldable pub collect_down : (ℕ → PriceLevel) → ℕ → ℕ → ℕ → List LevelRow
collect_down levels slots zero p = []
collect_down levels slots (suc n) p =
    let skip = collect_down levels slots n (p - 1) in
    let keep = level_row p (levels p) ∷ collect_down levels (slots - 1) n (p - 1) in
    if slots == 0 then [] else if is_empty (levels p) then skip else keep

unfoldable pub collect_up : (ℕ → PriceLevel) → ℕ → ℕ → ℕ → List LevelRow
collect_up levels slots zero p = []
collect_up levels slots (suc n) p =
    let skip = collect_up levels slots n (p + 1) in
    let keep = level_row p (levels p) ∷ collect_up levels (slots - 1) n (p + 1) in
    if slots == 0 then [] else if is_empty (levels p) then skip else keep

-- The lowest and the highest price that are looked at.
abbrev pub floor_below : ℕ → ℕ
floor_below best = if ltb scan_limit best then best - scan_limit else 0

abbrev pub cap_above : ℕ → ℕ
cap_above best =
    if ltb best (max_price_ticks - scan_limit) then best + scan_limit else max_price_ticks - 1

abbrev pub bid_rows : OrderBook → List LevelRow
bid_rows book =
    if has_bids book
    then collect_down book.levels book_depth (book.best_bid + 1 - floor_below book.best_bid)
        book.best_bid
    else []

abbrev pub ask_rows : OrderBook → List LevelRow
ask_rows book =
    if has_asks book
    then collect_up book.levels book_depth (cap_above book.best_ask + 1 - book.best_ask)
        book.best_ask
    else []

-- `owns_lock` is what `try_lock` comes to.
unfoldable pub publish_book : Bool → OrderBook → DashboardHub → DashboardHub
unfolding collect_down collect_up
publish_book owns_lock book hub =
    if owns_lock
    then record hub {
      book_wanted = false;
      bids = bid_rows book;
      asks = ask_rows book;
      total_bids = book.bid_count;
      total_asks = book.ask_count;
    }
    else hub

unfoldable pub publish_output : Stats → List FillRow → DashboardHub → DashboardHub
unfolding publish_rows
publish_output stats rows hub = record hub { stats = stats; tape = publish_rows rows hub.tape }
