-- ===== src/Feed/FeedHandler/Sound.antt =====
-- What the engine relies on in the messages that a handler sends: quantities that fit their word and
-- are not zero, and prices that the book has a level for; and the engine that is sent them.
use Prim.Native.String.{String}
use text.Mathlib.Text
use lockfree_matching_engine.Prelude.{
  ℕ, ◌<◌, ◌^◌, ◌+◌, ◌≡◌, Bool, true, false, ◌||◌, Option, none, some, List, [], ◌∷◌, ◌++◌, arith,
  ◌==◌, Bool-cases, inl, inr, if◌then◌else◌, Option-cases,
}
use lockfree_matching_engine.Core.Types.{Side, bid, ask, Price, Quantity, Timestamp}
use lockfree_matching_engine.Core.Store.{Store}
use lockfree_matching_engine.Core.MatchingEngine
use lockfree_matching_engine.Core.MatchingEngine.NewOrder.{Holds}
use lockfree_matching_engine.Core.MatchingEngine.Process.{
  AllFit, process_all, exchange_all, process_all-init,
}
use lockfree_matching_engine.Transport.Intake.{HasLevel, AllSound, AllSound-append}
use lockfree_matching_engine.Transport.Message.{EngineMessage, new_order, cancel}
use lockfree_matching_engine.Feed.FeedHandler.{
  Dom, FeedHandler, new_handler, Appended, Row, bad, out_of_book, level, apply_row,
  apply_snapshot_row, apply_rows, apply_level, drop_level, reset_book, cancel_all, price_size_rows,
  change_rows, consume_price_size_array, parse_update, parse_snapshot, parse_match, parse_typed,
  parse_of_type, parse_found, parse_frame, type_of,
}
use lockfree_matching_engine.Feed.FeedHandler.Decimals.{Doubles}
use lockfree_matching_engine.Feed.FeedHandler.Live.{LevelKey, LiveLevels, find_level}
use lockfree_matching_engine.Feed.FeedHandler.Frames.{parse_all}
use lockfree_matching_engine.Feed.FeedHandler.Book.{parse_all-step}
use lockfree_matching_engine.Feed.FeedHandler.Bounds.{
  SoundRow, SoundRows, change_rows-SoundRows, price_size_rows-SoundRows,
}

pub AllSound-AllFit : (msgs : List EngineMessage) → AllSound msgs → AllFit msgs
AllSound-AllFit [] h = tt
AllSound-AllFit (new_order msg ∷ msgs) h = (h.0.2, AllSound-AllFit msgs h.1)
AllSound-AllFit (cancel msg ∷ msgs) h = (tt, AllSound-AllFit msgs h.1)

drop_level-AllSound :
    (key : LevelKey) (ts : Timestamp) (h : FeedHandler) → AllSound (drop_level key ts h).1
unfolding drop_level
drop_level-AllSound key ts h = elim (Option-cases (find_level key h.live)) [
  | inl e ↦ rw (e, drop_level) tt
  | inr (id, e) ↦ rw (e, drop_level) (tt, tt)
]

apply_level-AllSound :
    (side : Side) (price : Price) (qty : Quantity) (ts : Timestamp) (h : FeedHandler)
    → HasLevel price
    → qty < 2 ^ 32
    → AllSound (apply_level side price qty ts h).1
unfolding apply_level
apply_level-AllSound side price qty ts h p q =
    let key : LevelKey = record { price = price; side = side } in
    let r = drop_level key ts h in
    elim (Bool-cases (qty == 0)) [
      | inl e ↦ rw e (drop_level-AllSound key ts h)
      | inr e ↦
          rw e (AllSound-append r.1 _ (drop_level-AllSound key ts h) ((p, ground arith, q), tt))
    ]

apply_row-AllSound :
    (ts : Timestamp) (row : Row) (h : FeedHandler) → SoundRow row → AllSound (apply_row ts row h).1
unfolding apply_row
apply_row-AllSound ts bad h s = tt
apply_row-AllSound ts out_of_book h s = tt
apply_row-AllSound ts (level side price qty) h s = apply_level-AllSound side price qty ts h s.0 s.1

apply_snapshot_row-AllSound :
    (ts : Timestamp) (row : Row) (h : FeedHandler)
    → SoundRow row
    → AllSound (apply_snapshot_row ts row h).1
unfolding apply_snapshot_row
apply_snapshot_row-AllSound ts bad h s = apply_row-AllSound ts bad h s
apply_snapshot_row-AllSound ts out_of_book h s = apply_row-AllSound ts out_of_book h s
apply_snapshot_row-AllSound ts (level side price qty) h s = elim (Bool-cases (qty == 0)) [
  | inl e ↦ rw e tt
  | inr e ↦ rw e (apply_row-AllSound ts (level side price qty) h s)
]

module _ (apply : Row → FeedHandler → Appended)
    (each : (row : Row) (h : FeedHandler) → SoundRow row → AllSound (apply row h).1) where
  apply_rows-AllSound :
      (rows : List Row) (h : FeedHandler) → SoundRows rows → AllSound (apply_rows apply rows h).1
  unfolding apply_rows
  apply_rows-AllSound [] h s = tt
  apply_rows-AllSound (row ∷ rows) h s =
      let r = apply row h in
      AllSound-append r.1 (apply_rows apply rows r.0).1 (each row h s.0)
        (apply_rows-AllSound rows r.0 s.1)

cancel_all-AllSound : (ts : Timestamp) (live : LiveLevels) → AllSound (cancel_all ts live)
cancel_all-AllSound ts [] = tt
cancel_all-AllSound ts (l ∷ ls) = (tt, cancel_all-AllSound ts ls)

choose-AllSound :
    (b : Bool) (r s : Appended) → AllSound r.1 → AllSound s.1 → AllSound (if b then r else s).1
choose-AllSound true r s h k = h
choose-AllSound false r s h k = k

module _ (dom : Dom) (doubles : Doubles) where
  consume-AllSound :
      (ts : Timestamp) (side : Side) (levels : Option (List dom.Element)) (h : FeedHandler)
      → AllSound (consume_price_size_array dom doubles ts side levels h).1
  unfolding consume_price_size_array
  consume-AllSound ts side none h = tt
  consume-AllSound ts side (some levels) h =
      apply_rows-AllSound (apply_snapshot_row ts) (apply_snapshot_row-AllSound ts)
        (price_size_rows dom doubles side levels) h
        (price_size_rows-SoundRows dom doubles side levels)

  parse_update-AllSound :
      (ts : Timestamp) (changes : Option (List dom.Element)) (h : FeedHandler)
      → AllSound (parse_update dom doubles ts changes h).1
  unfolding parse_update
  parse_update-AllSound ts none h = tt
  parse_update-AllSound ts (some changes) h =
      apply_rows-AllSound (apply_row ts) (apply_row-AllSound ts) (change_rows dom doubles changes) h
        (change_rows-SoundRows dom doubles changes)

  parse_snapshot-AllSound :
      (ts : Timestamp) (bids asks : Option (List dom.Element)) (h : FeedHandler)
      → AllSound (parse_snapshot dom doubles ts bids asks h).1
  unfolding parse_snapshot reset_book
  parse_snapshot-AllSound ts bids asks h =
      let r1 = reset_book ts h in
      let r2 = consume_price_size_array dom doubles ts bid bids r1.0 in
      let r3 = consume_price_size_array dom doubles ts ask asks r2.0 in
      AllSound-append r1.1 (r2.1 ++ r3.1) (cancel_all-AllSound ts h.live) (
        AllSound-append r2.1 r3.1 (consume-AllSound ts bid bids r1.0)
          (consume-AllSound ts ask asks r2.0))

  parse_match-AllSound :
      (seq : Option ℕ) (h : FeedHandler) → AllSound (parse_match dom doubles seq h).1
  unfolding parse_match
  parse_match-AllSound none h = tt
  parse_match-AllSound (some seq) h = tt

  parse_typed-AllSound :
      (ts : Timestamp) (doc : dom.Element) (type : String) (h : FeedHandler)
      → AllSound (parse_typed dom doubles ts doc type h).1
  unfolding parse_typed
  parse_typed-AllSound ts doc type h =
      choose-AllSound (Text.◌==◌ type "l2update") _ _ (parse_update-AllSound ts _ h) (
        choose-AllSound (Text.◌==◌ type "snapshot") _ _ (parse_snapshot-AllSound ts _ _ h) (
          choose-AllSound (Text.◌==◌ type "match" || Text.◌==◌ type "last_match") _ _
            (parse_match-AllSound _ h) tt))

  parse_frame-AllSound :
      (ts : Timestamp) (raw_json : String) (h : FeedHandler)
      → AllSound (parse_frame dom doubles ts raw_json h).1
  unfolding parse_frame
  parse_frame-AllSound ts raw_json h = by_document (dom.parse_document raw_json)
    where
      by_type :
          (doc : dom.Element) (type : Option String)
          → AllSound (parse_of_type dom doubles ts doc type h).1
      by_type doc none = tt
      by_type doc (some t) = parse_typed-AllSound ts doc t h

      by_document : (doc : Option dom.Element) → AllSound (parse_found dom doubles ts doc h).1
      by_document none = tt
      by_document (some doc) = by_type doc (type_of dom doubles doc)

  parse_all-AllSound :
      (frames : List (Timestamp × String)) (out : List EngineMessage) (h : FeedHandler)
      → AllSound out
      → AllSound (parse_all dom doubles frames out h).1
  parse_all-AllSound [] out h s = s
  parse_all-AllSound ((ts, raw_json) ∷ frames) out h s =
      let r = parse_frame dom doubles ts raw_json h in
      rw (parse_all-step dom doubles ts raw_json frames out h) (
        parse_all-AllSound frames (out ++ r.1) r.0
          (AllSound-append out r.1 s (parse_frame-AllSound ts raw_json h)))

  -- For any sequence of frames parsed from a new handler, and a new engine with n slots over any
  -- memory, n + 1 < 2^64: the new orders among the messages have a price strictly between 0 and
  -- 10,000,000 ticks and a quantity from 1 to 2^32 - 1, and the engine that processes the
  -- messages reports the fills of the abstract exchange with room for n orders and holds the
  -- orders that it offers.
  pub parse_all-process_all :
      (frames : List (Timestamp × String)) (n : ℕ) (memory : Store)
      → n + 1 < 2 ^ 64
      → let out = (parse_all dom doubles frames [] new_handler).1 in
        let (f, depth) = exchange_all n out (λ p. []) in
        let (g, e) = process_all out (MatchingEngine.init n memory) in
        AllSound out × (g ≡ f) × Holds n e depth
  parse_all-process_all frames n memory small =
      let out = (parse_all dom doubles frames [] new_handler).1 in
      let sound = parse_all-AllSound frames [] new_handler tt in
      let (same, holds) = process_all-init n memory out small (AllSound-AllFit out sound) in
      (sound, same, holds)
