-- ===== src/Server/DashboardHub/Json.antt =====
-- server/dashboard_hub.h: the text of a frame, printed by `snprintf` through a buffer of 160 bytes. The
-- conversions of numbers are a parameter; %llu and %u are the same one.
pub mod Whole
use Prim.Native.String.{String, len, slice, ◌++◌ as ◌<>◌}
use lockfree_matching_engine.Prelude.{
  ℕ, zero, suc, ◌+◌, Bool, true, false, List, [], ◌∷◌, ℤ, pos, min,
}
use lockfree_matching_engine.Server.DashboardHub.{
  FillRow, FillTape, LevelRow, Stats, DashboardHub, snapshot_row,
}

pub record Conversions : Type 0 where
  pub digits : ℕ → String
  pub signed : ℤ → String

-- What `snprintf` leaves in the buffer of what it prints, the last byte being the end of the text.
unfoldable pub fit : String → String
fit s = slice s 0 (min (len s) 159)

abbrev pub cat : List String → String
cat [] = ""
cat (s ∷ ss) = s <> cat ss

-- `i ? "," : ""`
abbrev pub separator : Bool → String
separator true = ""
separator false = ","

-- A loop that prints rows, each through the buffer.
unfoldable pub print_rows : {R : Type 0} → (R → String) → Bool → List R → String
print_rows row first [] = ""
print_rows row first (r ∷ rs) = fit (separator first <> row r) <> print_rows row false rs

abbrev pub flag : Bool → ℕ
flag true = 1
flag false = 0

-- The fills that a snapshot prints, from the i-th on.
abbrev pub tape_rows : FillTape → ℕ → ℕ → List FillRow
tape_rows t i zero = []
tape_rows t i (suc n) = snapshot_row t i ∷ tape_rows t (suc i) n

module _ (c : Conversions) where
  abbrev pub head_text : ℕ → DashboardHub → String
  head_text now_ms hub = cat (
      "{\"t\":"
      ∷ c.digits now_ms
      ∷ ",\"mode\":\""
      ∷ hub.mode
      ∷ "\",\"product\":\""
      ∷ hub.product
      ∷ "\",\"bids\":["
      ∷ [])

  abbrev pub level_text : LevelRow → String
  level_text r =
      cat ("[" ∷ c.signed (pos r.price) ∷ "," ∷ c.digits r.qty ∷ "," ∷ c.digits r.orders ∷ "]" ∷ [])

  abbrev pub fill_text : FillRow → String
  fill_text f = cat (
      "["
      ∷ c.digits f.seq
      ∷ ","
      ∷ c.digits f.ts_ms
      ∷ ","
      ∷ c.signed f.price
      ∷ ","
      ∷ c.digits f.qty
      ∷ ","
      ∷ c.digits (flag f.taker_is_bid)
      ∷ "]"
      ∷ [])

  abbrev pub latency_text : Stats → String
  latency_text s = cat (
      "],\"stats\":{\"match_p50\":"
      ∷ c.digits s.match_p50
      ∷ ",\"match_p95\":"
      ∷ c.digits s.match_p95
      ∷ ",\"match_p99\":"
      ∷ c.digits s.match_p99
      ∷ ",\"order_p50\":"
      ∷ c.digits s.order_p50
      ∷ ",\"order_p99\":"
      ∷ c.digits s.order_p99
      ∷ ","
      ∷ [])

  abbrev pub counter_text : DashboardHub → String
  counter_text hub =
      let s = hub.stats in
      cat (
        "\"processed\":"
        ∷ c.digits s.processed
        ∷ ",\"fills\":"
        ∷ c.digits s.fills
        ∷ ",\"pool_free\":"
        ∷ c.digits s.pool_free
        ∷ ",\"pool_capacity\":"
        ∷ c.digits s.pool_capacity
        ∷ ",\"dropped\":"
        ∷ c.digits s.dropped
        ∷ ",\"clients\":"
        ∷ c.digits s.clients
        ∷ ",\"book_bids\":"
        ∷ c.digits hub.total_bids
        ∷ ",\"book_asks\":"
        ∷ c.digits hub.total_asks
        ∷ "}}"
        ∷ [])

  unfoldable pub snapshot_json : ℕ → DashboardHub → String
  snapshot_json now_ms hub = cat (
      fit (head_text now_ms hub)
      ∷ print_rows level_text true hub.bids
      ∷ "],\"asks\":["
      ∷ print_rows level_text true hub.asks
      ∷ "],\"fills\":["
      ∷ print_rows fill_text true (tape_rows hub.tape 0 hub.tape.fill_count)
      ∷ fit (latency_text hub.stats)
      ∷ fit (counter_text hub)
      ∷ [])
