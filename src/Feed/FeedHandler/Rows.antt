-- ===== src/Feed/FeedHandler/Rows.antt =====
-- What a row of a frame says of the book, and that it is sent.
use lockfree_matching_engine.Prelude.{
  ◌<◌, ◌^◌, ◌+◌, ◌≡◌, refl, sym, ◌∙◌, Bool, true, false, none, some, List, [], ◌∷◌, length,
  length-append, ◌==◌, if◌then◌else◌, Bool-cases, inl, inr, update, arith,
}
use lockfree_matching_engine.Core.Types.{OrderId, Timestamp}
use lockfree_matching_engine.Transport.Intake.{Outstanding, replay}
use lockfree_matching_engine.Feed.FeedHandler.{
  FeedHandler, Appended, cancel_all, reset_book, Row, bad, out_of_book, level, apply_row,
  apply_snapshot_row, apply_rows, level_order,
}
use lockfree_matching_engine.Feed.FeedHandler.Live.{
  LiveLevels, find_level, erase_level, same_key_refl, erase_level_absent,
}
use lockfree_matching_engine.Feed.FeedHandler.Mirror.{LevelDepth, no_depth, set_depth, Mirrors}
use lockfree_matching_engine.Feed.FeedHandler.Changes.{
  erase_level-Mirrors, Mirrors-same, replay-nil, replay-cancel,
}
use lockfree_matching_engine.Feed.FeedHandler.Sends.{Sends, Sends-append, Sends-none}
use lockfree_matching_engine.Feed.FeedHandler.ApplyLevel.{apply_level-Sends}

-- Cancelling all the live orders leaves no order outstanding.
cancel_all_lem :
    (ts : Timestamp) (live : LiveLevels) (next_id : OrderId) (o : Outstanding) (d : LevelDepth)
    → Mirrors live next_id o d
    → (o' : Outstanding) × (replay (cancel_all ts live) o ≡ some o')
      × Mirrors [] next_id o' no_depth
unfolding find_level erase_level
cancel_all_lem ts [] next_id o d m = (o, replay-nil o, Mirrors-same (λ k. sym (m.absent k refl)) m)
cancel_all_lem ts (l ∷ ls) next_id o d m =
    let found : find_level l.key (l ∷ ls) ≡ some l.id = rw (same_key_refl l.key) in
    let (ts', b, p) = m.backed l.key l.id found in
    let same : erase_level l.key (l ∷ ls) ≡ ls =
      rw (same_key_refl l.key) (erase_level_absent l.key ls m.single.0) in
    let (o', e, m') =
      cancel_all_lem ts ls next_id (update o l.id none) (set_depth d l.key 0)
        (rw (← same) (erase_level-Mirrors m l.key l.id found)) in
    (
      o',
      replay-cancel ts l.id (level_order l.key (d l.key) ts' l.id) (cancel_all ts ls) o b ∙ e,
      m',
    )

pub reset_book-Sends :
    (ts : Timestamp) (h : FeedHandler) {o : Outstanding} {d : LevelDepth}
    → Mirrors h.live h.next_id o d
    → Sends h (reset_book ts h) o no_depth
unfolding reset_book
reset_book-Sends ts h {o} {d} m =
    let (o', e, m') = cancel_all_lem ts h.live h.next_id o d m in
    record { orders = o'; replayed = e; mirrors = m'; ids = omega arith }

-- What a row of a frame says: the quantity at its level, if it is sound.
abbrev pub row_depth : Row → LevelDepth → LevelDepth
row_depth bad d = d
row_depth out_of_book d = d
row_depth (level side price qty) d = set_depth d (record { price = price; side = side }) qty

-- A size of zero says nothing in a snapshot.
abbrev pub snapshot_row_depth : Row → LevelDepth → LevelDepth
snapshot_row_depth bad d = d
snapshot_row_depth out_of_book d = d
snapshot_row_depth (level side price qty) d =
    if qty == 0 then d else set_depth d (record { price = price; side = side }) qty

unfoldable pub rows_depth : (Row → LevelDepth → LevelDepth) → List Row → LevelDepth → LevelDepth
rows_depth by [] d = d
rows_depth by (row ∷ rows) d = rows_depth by rows (by row d)

pub apply_row-Sends :
    (ts : Timestamp) (row : Row) (h : FeedHandler) {o : Outstanding} {d : LevelDepth}
    → Mirrors h.live h.next_id o d
    → h.next_id + length (apply_row ts row h).1 < 2 ^ 64
    → Sends h (apply_row ts row h) o (row_depth row d)
unfolding apply_row
apply_row-Sends ts bad h m room = Sends-none h _ refl refl m
apply_row-Sends ts out_of_book h m room = Sends-none h _ refl refl m
apply_row-Sends ts (level side price qty) h m room = apply_level-Sends side price qty ts h m room

pub apply_snapshot_row-Sends :
    (ts : Timestamp) (row : Row) (h : FeedHandler) {o : Outstanding} {d : LevelDepth}
    → Mirrors h.live h.next_id o d
    → h.next_id + length (apply_snapshot_row ts row h).1 < 2 ^ 64
    → Sends h (apply_snapshot_row ts row h) o (snapshot_row_depth row d)
unfolding apply_snapshot_row apply_row
apply_snapshot_row-Sends ts bad h m room = Sends-none h _ refl refl m
apply_snapshot_row-Sends ts out_of_book h m room = Sends-none h _ refl refl m
apply_snapshot_row-Sends ts (level side price qty) h m room = elim (Bool-cases (qty == 0)) [
  | inl e ↦ rw e (Sends-none h h refl refl m)
  | inr e ↦ rw e (apply_level-Sends side price qty ts h m (rw e at room))
]

module _ (apply : Row → FeedHandler → Appended) (by : Row → LevelDepth → LevelDepth)
    (each : (row : Row) (h : FeedHandler) (o : Outstanding) (d : LevelDepth)
      → Mirrors h.live h.next_id o d
      → h.next_id + length (apply row h).1 < 2 ^ 64
      → Sends h (apply row h) o (by row d)) where
  pub apply_rows-Sends :
      (rows : List Row) (h : FeedHandler) (o : Outstanding) (d : LevelDepth)
      → Mirrors h.live h.next_id o d
      → h.next_id + length (apply_rows apply rows h).1 < 2 ^ 64
      → Sends h (apply_rows apply rows h) o (rows_depth by rows d)
  unfolding apply_rows rows_depth
  apply_rows-Sends [] h o d m room = Sends-none h h refl refl m
  apply_rows-Sends (row ∷ rows) h o d m room =
      let r = apply row h in
      let s = apply_rows apply rows r.0 in
      let added = length-append r.1 s.1 in
      let first = each row h o d m (omega arith) in
      Sends-append h r s o first
        (apply_rows-Sends rows r.0 first.orders (by row d) first.mirrors (omega (arith, first.ids)))

pub choose-Sends :
    (b : Bool) (r s : Appended) {h : FeedHandler} {o : Outstanding} {d d' : LevelDepth}
    → h.next_id + length (if b then r else s).1 < 2 ^ 64
    → (h.next_id + length r.1 < 2 ^ 64 → Sends h r o d)
    → (h.next_id + length s.1 < 2 ^ 64 → Sends h s o d')
    → Sends h (if b then r else s) o (if b then d else d')
choose-Sends true r s room yes_case no_case = yes_case room
choose-Sends false r s room yes_case no_case = no_case room
