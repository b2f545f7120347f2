-- ===== src/Feed/FeedHandler.antt =====
-- feed/feed_handler.cpp: the parser of level-2 frames. simdjson and the arithmetic of `double` are
-- parameters, and so is the clock, whose value `ts` a frame is stamped with.
pub mod Decimals
pub mod Live
pub mod Mirror
pub mod Changes
pub mod Sends
pub mod ApplyLevel
pub mod Rows
pub mod Frames
pub mod Book
pub mod Bounds
pub mod Sound
pub mod Counters
use Prim.Native.String.{String}
use text.Mathlib.Text
use lockfree_matching_engine.Prelude.{
  ℕ, ◌+◌, ◌-◌, Bool, true, false, not, ◌&&◌, ◌||◌, Option, none, some, List, [], ◌∷◌, ◌++◌, length,
  ◌==◌, if◌then◌else◌, add64, ℤ,
}
use lockfree_matching_engine.Core.Types.{OrderId, Side, bid, ask, limit, Price, Quantity, Timestamp}
use lockfree_matching_engine.Transport.Message.{
  NewOrderMessage, CancelMessage, EngineMessage, new_order, cancel,
}
use lockfree_matching_engine.Feed.FeedHandler.Decimals.{Doubles, to_ticks, to_lots}
use lockfree_matching_engine.Feed.FeedHandler.Live.{
  LevelKey, Level, LiveLevels, find_level, erase_level,
}

-- What the code uses of simdjson's DOM: `none` is an error code.
pub record Dom : Type 1 where
  pub Element : Type 0
  pub parse_document : String → Option Element
  pub at_key : Element → String → Option Element
  pub get_string : Element → Option String
  pub get_array : Element → Option (List Element)
  pub get_uint64 : Element → Option ℕ

-- `FeedHandler::Impl`, without the parser and its buffer.
pub record FeedHandler : Type 0 where
  pub live : LiveLevels
  pub next_id : OrderId
  pub last_sequence : ℕ
  pub have_sequence : Bool
  pub malformed : ℕ
  pub sequence_gaps : ℕ
  pub ignored : ℕ
  pub skipped : ℕ

abbrev pub new_handler : FeedHandler
new_handler = record {
  live = [];
  next_id = 1;
  last_sequence = 0;
  have_sequence = false;
  malformed = 0;
  sequence_gaps = 0;
  ignored = 0;
  skipped = 0;
}

-- A handler and the messages that it has appended to `out`.
abbrev pub Appended : Type 0
Appended = FeedHandler × List EngineMessage

abbrev pub count_malformed : FeedHandler → FeedHandler
count_malformed h = record h { malformed = add64 h.malformed 1 }

abbrev pub count_skipped : FeedHandler → FeedHandler
count_skipped h = record h { skipped = add64 h.skipped 1 }

abbrev pub count_ignored : FeedHandler → FeedHandler
count_ignored h = record h { ignored = add64 h.ignored 1 }

unfoldable pub note_sequence : ℕ → FeedHandler → FeedHandler
note_sequence seq h = record h {
  sequence_gaps =
      if h.have_sequence && not (seq == add64 h.last_sequence 1)
      then add64 h.sequence_gaps 1
      else h.sequence_gaps;
  have_sequence = true;
  last_sequence = seq;
}

-- The level's order, if it has one, is cancelled and forgotten.
unfoldable pub drop_level : LevelKey → Timestamp → FeedHandler → Appended
unfolding find_level erase_level
drop_level key ts h = elim (find_level key h.live) [
  | none ↦ (h, [])
  | some id ↦
      (record h { live = erase_level key h.live }, cancel (record { id = id; timestamp = ts }) ∷ [])
]

unfoldable pub level_order : LevelKey → Quantity → Timestamp → OrderId → NewOrderMessage
level_order key qty ts id = record {
  id = id;
  side = key.side;
  kind = limit;
  price = key.price;
  quantity = qty;
  timestamp = ts;
}

unfoldable pub add_level : LevelKey → Quantity → Timestamp → FeedHandler → Appended
unfolding level_order
add_level key qty ts h = (
  record h { live = record { key = key; id = h.next_id } ∷ h.live; next_id = add64 h.next_id 1 },
  new_order (level_order key qty ts h.next_id) ∷ [],
)

unfoldable pub apply_level : Side → Price → Quantity → Timestamp → FeedHandler → Appended
unfolding drop_level add_level
apply_level side price qty ts h =
    let key : LevelKey = record { price = price; side = side } in
    let (h1, out1) = drop_level key ts h in
    if qty == 0
    then (h1, out1)
    else (let (h2, out2) = add_level key qty ts h1 in (h2, out1 ++ out2))

-- The loop of `reset_book` over the live levels, in the order of the list.
abbrev pub cancel_all : Timestamp → LiveLevels → List EngineMessage
cancel_all ts [] = []
cancel_all ts (l ∷ ls) = cancel (record { id = l.id; timestamp = ts }) ∷ cancel_all ts ls

unfoldable pub reset_book : Timestamp → FeedHandler → Appended
reset_book ts h = (record h { live = [] }, cancel_all ts h.live)

unfoldable pub parse_side : String → Option Side
parse_side s =
    if Text.◌==◌ s "buy" || Text.◌==◌ s "bid"
    then some bid
    else if Text.◌==◌ s "sell" || Text.◌==◌ s "ask"
    then some ask
    else none

-- What a row of a frame turns out to be.
pub data Row : Type 0 where
  bad : Row
  out_of_book : Row
  level : Side → Price → Quantity → Row

-- After a row's price and size are read: `oob` tells the two failures apart.
abbrev pub to_row : Side → Option Price × Bool → Option Quantity → Row
to_row side (none, oob) size = if oob then out_of_book else bad
to_row side (some price, oob) none = bad
to_row side (some price, oob) (some qty) = level side price qty

-- A row's level is applied, or counted in one of the two counters.
unfoldable pub apply_row : Timestamp → Row → FeedHandler → Appended
apply_row ts bad h = (count_malformed h, [])
apply_row ts out_of_book h = (count_skipped h, [])
apply_row ts (level side price qty) h = apply_level side price qty ts h

-- The same in a snapshot, where `skip_zero` holds.
unfoldable pub apply_snapshot_row : Timestamp → Row → FeedHandler → Appended
apply_snapshot_row ts bad h = apply_row ts bad h
apply_snapshot_row ts out_of_book h = apply_row ts out_of_book h
apply_snapshot_row ts (level side price qty) h =
    if qty == 0 then (h, []) else apply_row ts (level side price qty) h

-- The loops over the rows, with what is done for a row.
unfoldable pub apply_rows : (Row → FeedHandler → Appended) → List Row → FeedHandler → Appended
apply_rows apply [] h = (h, [])
apply_rows apply (row ∷ rows) h =
    let (h1, out1) = apply row h in let (h2, out2) = apply_rows apply rows h1 in (h2, out1 ++ out2)

module _ (dom : Dom) (doubles : Doubles) where
  open dom use {Element, parse_document, at_key, get_string, get_array, get_uint64}

  -- All the strings of a row, in order; `none` if an element is no string.
  unfoldable pub row_strings : List Element → Option (List String)
  row_strings [] = some []
  row_strings (el ∷ els) = elim (get_string el) [
    | none ↦ none
    | some s ↦ elim (row_strings els) [ none ↦ none | some ss ↦ some (s ∷ ss) ]
  ]

  -- A row of `bids` or `asks`: price and size, and what follows is not looked at.
  unfoldable pub price_size_row : Side → Option (List String) → Row
  unfolding to_ticks to_lots
  price_size_row side none = bad
  price_size_row side (some []) = bad
  price_size_row side (some (price_s ∷ [])) = bad
  price_size_row side (some (price_s ∷ size_s ∷ more)) =
      to_row side (to_ticks doubles price_s) (to_lots doubles size_s)

  -- A row of `changes`: side, price and size.
  unfoldable pub change_row : Option (List String) → Row
  unfolding parse_side price_size_row
  change_row none = bad
  change_row (some []) = bad
  change_row (some (side_s ∷ [])) = bad
  change_row (some (side_s ∷ price_s ∷ [])) = bad
  change_row (some (side_s ∷ price_s ∷ size_s ∷ more)) = elim (parse_side side_s) [
    | none ↦ bad
    | some side ↦ price_size_row side (some (price_s ∷ size_s ∷ more))
  ]

  abbrev pub strings_of : Element → Option (List String)
  strings_of el = elim (get_array el) [ none ↦ none | some row ↦ row_strings row ]

  unfoldable pub change_rows : List Element → List Row
  unfolding change_row row_strings
  change_rows [] = []
  change_rows (el ∷ els) = change_row (strings_of el) ∷ change_rows els

  unfoldable pub price_size_rows : Side → List Element → List Row
  unfolding price_size_row row_strings
  price_size_rows side [] = []
  price_size_rows side (el ∷ els) = price_size_row side (strings_of el) ∷ price_size_rows side els

  -- `doc[key]` as an array.
  abbrev pub array_at : Element → String → Option (List Element)
  array_at doc key = elim (at_key doc key) [ none ↦ none | some el ↦ get_array el ]

  -- One side of a snapshot, which may be missing.
  unfoldable pub consume_price_size_array :
      Timestamp → Side → Option (List Element) → FeedHandler → Appended
  consume_price_size_array ts side none h = (h, [])
  consume_price_size_array ts side (some levels) h =
      apply_rows (apply_snapshot_row ts) (price_size_rows side levels) h

  unfoldable pub parse_update : Timestamp → Option (List Element) → FeedHandler → Appended
  parse_update ts none h = (count_malformed h, [])
  parse_update ts (some changes) h = apply_rows (apply_row ts) (change_rows changes) h

  unfoldable pub parse_snapshot :
      Timestamp → Option (List Element) → Option (List Element) → FeedHandler → Appended
  parse_snapshot ts bids asks h =
      let (h1, out1) = reset_book ts h in
      let (h2, out2) = consume_price_size_array ts bid bids h1 in
      let (h3, out3) = consume_price_size_array ts ask asks h2 in (h3, out1 ++ (out2 ++ out3))

  unfoldable pub parse_match : Option ℕ → FeedHandler → Appended
  parse_match none h = (count_ignored h, [])
  parse_match (some seq) h = (count_ignored (note_sequence seq h), [])

  -- What `parse` does with a document of a type.
  unfoldable pub parse_typed : Timestamp → Element → String → FeedHandler → Appended
  parse_typed ts doc type h =
      if Text.◌==◌ type "l2update"
      then parse_update ts (array_at doc "changes") h
      else if Text.◌==◌ type "snapshot"
      then parse_snapshot ts (array_at doc "bids") (array_at doc "asks") h
      else if Text.◌==◌ type "match" || Text.◌==◌ type "last_match"
      then parse_match (elim (at_key doc "sequence") [ none ↦ none | some el ↦ get_uint64 el ]) h
      else (count_ignored h, [])

  abbrev pub type_of : Element → Option String
  type_of doc = elim (at_key doc "type") [ none ↦ none | some el ↦ get_string el ]

  -- A document without a type is malformed.
  abbrev pub parse_of_type : Timestamp → Element → Option String → FeedHandler → Appended
  parse_of_type ts doc none h = (count_malformed h, [])
  parse_of_type ts doc (some type) h = parse_typed ts doc type h

  abbrev pub parse_found : Timestamp → Option Element → FeedHandler → Appended
  parse_found ts none h = (count_malformed h, [])
  parse_found ts (some doc) h = parse_of_type ts doc (type_of doc) h

  unfoldable pub parse_frame : Timestamp → String → FeedHandler → Appended
  parse_frame ts raw_json h = parse_found ts (parse_document raw_json) h

  -- `parse`: the handler, `out`, and how many messages were appended to it.
  unfoldable pub parse :
      Timestamp → String → List EngineMessage → FeedHandler → FeedHandler × List EngineMessage × ℕ
  parse ts raw_json out h =
      let (h', appended) = parse_frame ts raw_json h in
      let out' = out ++ appended in (h', out', length out' - length out)
