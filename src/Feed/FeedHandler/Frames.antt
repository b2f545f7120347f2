-- ===== src/Feed/FeedHandler/Frames.antt =====
-- What a frame says of the book, and that `parse` sends it.
use Prim.Native.String.{String}
use text.Mathlib.Text
use lockfree_matching_engine.Prelude.{
  ℕ, ◌<◌, ◌^◌, ◌+◌, ◌≡◌, refl, ap, Bool, true, false, ◌||◌, Option, none, some, List, [], ◌∷◌, ◌++◌,
  length, length-append, if◌then◌else◌, arith,
}
use lockfree_matching_engine.Core.Types.{Side, bid, ask, Timestamp}
use lockfree_matching_engine.Transport.Intake.{Outstanding}
use lockfree_matching_engine.Transport.Message.{EngineMessage}
use lockfree_matching_engine.Feed.FeedHandler.{
  FeedHandler, Appended, reset_book, apply_row, apply_snapshot_row, Dom, price_size_rows,
  change_rows, array_at, type_of, parse, parse_of_type, parse_found, consume_price_size_array,
  parse_update, parse_snapshot, parse_match, parse_typed, parse_frame, note_sequence, count_ignored,
}
use lockfree_matching_engine.Feed.FeedHandler.Decimals.{Doubles}
use lockfree_matching_engine.Feed.FeedHandler.Mirror.{LevelDepth, no_depth, Mirrors}
use lockfree_matching_engine.Feed.FeedHandler.Sends.{Sends, Sends-append, Sends-none}
use lockfree_matching_engine.Feed.FeedHandler.Rows.{
  reset_book-Sends, row_depth, snapshot_row_depth, rows_depth, apply_row-Sends,
  apply_snapshot_row-Sends, apply_rows-Sends, choose-Sends,
}

module _ (dom : Dom) (doubles : Doubles) where
  open dom use {parse_document, at_key, get_uint64}

  -- One side of a snapshot.
  abbrev pub side_depth : Side → Option (List dom.Element) → LevelDepth → LevelDepth
  side_depth side none d = d
  side_depth side (some levels) d =
      rows_depth snapshot_row_depth (price_size_rows dom doubles side levels) d

  abbrev pub update_depth : Option (List dom.Element) → LevelDepth → LevelDepth
  update_depth none d = d
  update_depth (some changes) d = rows_depth row_depth (change_rows dom doubles changes) d

  abbrev pub typed_depth : dom.Element → String → LevelDepth → LevelDepth
  typed_depth doc type d =
      if Text.◌==◌ type "l2update"
      then update_depth (array_at dom doubles doc "changes") d
      else if Text.◌==◌ type "snapshot"
      then side_depth ask (array_at dom doubles doc "asks")
          (side_depth bid (array_at dom doubles doc "bids") no_depth)
      else d

  abbrev pub depth_of_type : dom.Element → Option String → LevelDepth → LevelDepth
  depth_of_type doc none d = d
  depth_of_type doc (some type) d = typed_depth doc type d

  abbrev pub depth_found : Option dom.Element → LevelDepth → LevelDepth
  depth_found none d = d
  depth_found (some doc) d = depth_of_type doc (type_of dom doubles doc) d

  -- The depth of the book after a frame: updates set levels, a snapshot starts from an empty book,
  -- and other frames say nothing.
  unfoldable pub frame_depth : String → LevelDepth → LevelDepth
  frame_depth raw_json d = depth_found (parse_document raw_json) d

  consume-Sends :
      (ts : Timestamp) (side : Side) (levels : Option (List dom.Element)) (h : FeedHandler)
      (o : Outstanding) (d : LevelDepth)
      → Mirrors h.live h.next_id o d
      → h.next_id + length (consume_price_size_array dom doubles ts side levels h).1 < 2 ^ 64
      → Sends h (consume_price_size_array dom doubles ts side levels h) o (side_depth side levels d)
  unfolding consume_price_size_array
  consume-Sends ts side none h o d m room = Sends-none h h refl refl m
  consume-Sends ts side (some levels) h o d m room =
      apply_rows-Sends (apply_snapshot_row ts) snapshot_row_depth
        (λ row h o d. apply_snapshot_row-Sends ts row h) (price_size_rows dom doubles side levels) h
        o d m room

  parse_update-Sends :
      (ts : Timestamp) (changes : Option (List dom.Element)) (h : FeedHandler) (o : Outstanding)
      (d : LevelDepth)
      → Mirrors h.live h.next_id o d
      → h.next_id + length (parse_update dom doubles ts changes h).1 < 2 ^ 64
      → Sends h (parse_update dom doubles ts changes h) o (update_depth changes d)
  unfolding parse_update
  parse_update-Sends ts none h o d m room = Sends-none h _ refl refl m
  parse_update-Sends ts (some changes) h o d m room =
      apply_rows-Sends (apply_row ts) row_depth (λ row h o d. apply_row-Sends ts row h)
        (change_rows dom doubles changes) h o d m room

  parse_snapshot-Sends :
      (ts : Timestamp) (bids asks : Option (List dom.Element)) (h : FeedHandler) (o : Outstanding)
      (d : LevelDepth)
      → Mirrors h.live h.next_id o d
      → h.next_id + length (parse_snapshot dom doubles ts bids asks h).1 < 2 ^ 64
      → Sends h
          (parse_snapshot dom doubles ts bids asks h)
          o
          (side_depth ask asks (side_depth bid bids no_depth))
  unfolding parse_snapshot
  parse_snapshot-Sends ts bids asks h o d m room =
      let r1 = reset_book ts h in
      let r2 = consume_price_size_array dom doubles ts bid bids r1.0 in
      let r3 = consume_price_size_array dom doubles ts ask asks r2.0 in
      let outer = length-append r1.1 (r2.1 ++ r3.1) in
      let inner = length-append r2.1 r3.1 in
      let room' : h.next_id + length (r1.1 ++ (r2.1 ++ r3.1)) < 2 ^ 64 = room in
      let first = reset_book-Sends ts h m in
      let second =
        consume-Sends ts bid bids r1.0 first.orders no_depth first.mirrors
          (omega (arith, first.ids)) in
      let third =
        consume-Sends ts ask asks r2.0 second.orders (side_depth bid bids no_depth) second.mirrors
          (omega (arith, first.ids, second.ids)) in
      Sends-append h r1 (r3.0, r2.1 ++ r3.1) o first
        (Sends-append r1.0 r2 r3 first.orders second third)

  parse_match-Sends :
      (seq : Option ℕ) (h : FeedHandler) {o : Outstanding} {d : LevelDepth}
      → Mirrors h.live h.next_id o d
      → Sends h (parse_match dom doubles seq h) o d
  unfolding parse_match note_sequence
  parse_match-Sends none h m = Sends-none h _ refl refl m
  parse_match-Sends (some seq) h m = Sends-none h _ refl refl m

  parse_typed-Sends :
      (ts : Timestamp) (doc : dom.Element) (type : String) (h : FeedHandler) (o : Outstanding)
      (d : LevelDepth)
      → Mirrors h.live h.next_id o d
      → h.next_id + length (parse_typed dom doubles ts doc type h).1 < 2 ^ 64
      → Sends h (parse_typed dom doubles ts doc type h) o (typed_depth doc type d)
  unfolding parse_typed
  parse_typed-Sends ts doc type h o d m room =
      choose-Sends (Text.◌==◌ type "l2update") _ _ room
        (λ fits. parse_update-Sends ts (array_at dom doubles doc "changes") h o d m fits)
        (λ room'.
          choose-Sends (Text.◌==◌ type "snapshot") _ _ room'
            (λ fits.
              parse_snapshot-Sends ts (array_at dom doubles doc "bids")
                (array_at dom doubles doc "asks") h o d m fits)
            (λ fits. ignored-Sends (Text.◌==◌ type "match" || Text.◌==◌ type "last_match")))
    where
      ignored-Sends :
          (b : Bool)
          → let seq : Option ℕ = elim (at_key doc "sequence") [
            | none ↦ none
            | some el ↦ get_uint64 el
          ] in
            Sends h (if b then parse_match dom doubles seq h else (count_ignored h, [])) o d
      ignored-Sends true = parse_match-Sends _ h m
      ignored-Sends false = Sends-none h _ refl refl m

  pub parse_frame-Sends :
      (ts : Timestamp) (raw_json : String) (h : FeedHandler) (o : Outstanding) (d : LevelDepth)
      → Mirrors h.live h.next_id o d
      → h.next_id + length (parse_frame dom doubles ts raw_json h).1 < 2 ^ 64
      → Sends h (parse_frame dom doubles ts raw_json h) o (frame_depth raw_json d)
  unfolding parse_frame frame_depth
  parse_frame-Sends ts raw_json h o d m room = by_document (parse_document raw_json) room
    where
      by_type :
          (doc : dom.Element) (type : Option String)
          → h.next_id + length (parse_of_type dom doubles ts doc type h).1 < 2 ^ 64
          → Sends h (parse_of_type dom doubles ts doc type h) o (depth_of_type doc type d)
      by_type doc none room = Sends-none h _ refl refl m
      by_type doc (some t) room = parse_typed-Sends ts doc t h o d m room

      by_document :
          (doc : Option dom.Element)
          → h.next_id + length (parse_found dom doubles ts doc h).1 < 2 ^ 64
          → Sends h (parse_found dom doubles ts doc h) o (depth_found doc d)
      by_document none room = Sends-none h _ refl refl m
      by_document (some doc) room = by_type doc (type_of dom doubles doc) room

  -- Frames and the times at which they are parsed, with what is appended to `out` for all of them.
  abbrev pub parse_all : List (Timestamp × String) → List EngineMessage → FeedHandler → Appended
  parse_all [] out h = (h, out)
  parse_all ((ts, raw_json) ∷ frames) out h =
      let (h', out', n) = parse dom doubles ts raw_json out h in parse_all frames out' h'

  abbrev pub frames_depth : List (Timestamp × String) → LevelDepth → LevelDepth
  frames_depth [] d = d
  frames_depth ((ts, raw_json) ∷ frames) d = frames_depth frames (frame_depth raw_json d)

  -- `parse` appends to `out` and returns how many messages it has appended.
  pub parse_lem :
      (ts : Timestamp) (raw_json : String) (out : List EngineMessage) (h : FeedHandler)
      → let r = parse_frame dom doubles ts raw_json h in
        parse dom doubles ts raw_json out h ≡ (r.0, out ++ r.1, length r.1)
  unfolding parse
  parse_lem ts raw_json out h =
      ap (λ n. (r.0, out ++ r.1, n)) (omega (arith, length-append out r.1))
    where
      r : Appended
      r = parse_frame dom doubles ts raw_json h
