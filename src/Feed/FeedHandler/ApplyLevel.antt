-- ===== src/Feed/FeedHandler/ApplyLevel.antt =====
-- `apply_level` keeps the live levels in step with the orders outstanding, and sets one level.
use lockfree_matching_engine.Prelude.{
  ℕ, ◌<◌, ◌^◌, ◌+◌, ◌≡◌, refl, sym, ap, ◌∙◌, true, false, none, some, [], ◌∷◌, ◌++◌, length,
  length-append, ◌==◌, ==→eq, Bool-cases, Option-cases, inl, inr, update, add64, arith,
}
use lockfree_matching_engine.Core.Types.{OrderId, Side, Price, Quantity, Timestamp}
use lockfree_matching_engine.Transport.Intake.{Outstanding}
use lockfree_matching_engine.Transport.Message.{cancel}
use lockfree_matching_engine.Feed.FeedHandler.{
  FeedHandler, Appended, drop_level, level_order, add_level, apply_level,
}
use lockfree_matching_engine.Feed.FeedHandler.Live.{
  LevelKey, LiveLevels, find_level, erase_level, same_key, same_key→eq, find_level-erase_level_self,
}
use lockfree_matching_engine.Feed.FeedHandler.Mirror.{LevelDepth, set_depth, Mirrors}
use lockfree_matching_engine.Feed.FeedHandler.Changes.{
  erase_level-Mirrors, add_level-Mirrors, Mirrors-same, replay-nil, replay-cancel, replay-new,
}
use lockfree_matching_engine.Feed.FeedHandler.Sends.{Sends, Sends-append, Sends-same}

record Drops (key : LevelKey) (h : FeedHandler) (r : Appended) (o : Outstanding) (d : LevelDepth)
    : Type 0 where
  pub sends : Sends h r o (set_depth d key 0)
  pub gone : find_level key r.0.live ≡ none
  pub same_ids : r.0.next_id ≡ h.next_id

set_depth-absent : (d : LevelDepth) (key k : LevelKey) → d key ≡ 0 → set_depth d key 0 k ≡ d k
set_depth-absent d key k h = elim (Bool-cases (same_key key k)) [
  | inl same ↦ rw (same, ← same_key→eq key k same) (sym h)
  | inr other ↦ rw other
]

drop_level-none :
    (key : LevelKey) (ts : Timestamp) (h : FeedHandler)
    → find_level key h.live ≡ none
    → drop_level key ts h ≡ (h, [])
unfolding drop_level
drop_level-none key ts h e = rw (e, drop_level)

drop_level-some :
    (key : LevelKey) (ts : Timestamp) (h : FeedHandler) (id : OrderId)
    → find_level key h.live ≡ some id
    → drop_level key ts h ≡ (
      record h { live = erase_level key h.live },
      cancel (record { id = id; timestamp = ts }) ∷ [],
    )
unfolding drop_level
drop_level-some key ts h id e = rw (e, drop_level)

drop_level-Drops :
    (key : LevelKey) (ts : Timestamp) (h : FeedHandler) {o : Outstanding} {d : LevelDepth}
    → Mirrors h.live h.next_id o d
    → Drops key h (drop_level key ts h) o d
drop_level-Drops key ts h {o} {d} m = elim (Option-cases (find_level key h.live)) [
  | inl e ↦ rw (drop_level-none key ts h e) (record {
    sends = record {
      orders = o;
      replayed = replay-nil o;
      mirrors = Mirrors-same (λ k. set_depth-absent d key k (m.absent key e)) m;
      ids = omega arith;
    };
    gone = e;
    same_ids = refl;
  })
  | inr (id, e) ↦
      let (ts', b, p) = m.backed key id e in
      rw (drop_level-some key ts h id e) (record {
        sends = record {
          orders = update o id none;
          replayed =
              replay-cancel ts id (level_order key (d key) ts' id) [] o b
              ∙ replay-nil (update o id none);
          mirrors = erase_level-Mirrors m key id e;
          ids = omega arith;
        };
        gone = find_level-erase_level_self key h.live;
        same_ids = refl;
      })
]

not_used :
    {live : LiveLevels} {next_id : OrderId} {o : Outstanding} {d : LevelDepth}
    → Mirrors live next_id o d
    → o next_id ≡ none
not_used {next_id} {o} m = elim (Option-cases (o next_id)) [
  | inl e ↦ e
  | inr (msg, e) ↦ absurd (omega (arith, m.fresh next_id msg e))
]

add_level-Sends :
    (key : LevelKey) (qty : Quantity) (ts : Timestamp) (h : FeedHandler) {o : Outstanding}
    {d : LevelDepth}
    → Mirrors h.live h.next_id o d
    → find_level key h.live ≡ none
    → 0 < qty
    → h.next_id + 1 < 2 ^ 64
    → Sends h (add_level key qty ts h) o (set_depth d key qty)
unfolding add_level level_order
add_level-Sends key qty ts h {o} m gone pos_qty room =
    let msg = level_order key qty ts h.next_id in
    let o' = update o h.next_id (some msg) in
    record {
      orders = o';
      replayed = replay-new msg [] o (not_used m) ∙ replay-nil o';
      mirrors = rw (small h.next_id room) (add_level-Mirrors m key qty ts gone pos_qty);
      ids = omega arith;
    }
  where
    small : (n : ℕ) → n + 1 < 2 ^ 64 → add64 n 1 ≡ n + 1
    small n h = omega arith

set_depth_twice :
    (d : LevelDepth) (key : LevelKey) (qty : Quantity) (k : LevelKey)
    → set_depth d key qty k ≡ set_depth (set_depth d key 0) key qty k
set_depth_twice d key qty k = ground arith

add_level-length :
    (key : LevelKey) (qty : Quantity) (ts : Timestamp) (h : FeedHandler)
    → length (add_level key qty ts h).1 ≡ 1
unfolding add_level
add_level-length key qty ts h = refl

apply_level-zero :
    (side : Side) (price : Price) (qty : Quantity) (ts : Timestamp) (h : FeedHandler)
    → (qty == 0) ≡ true
    → apply_level side price qty ts h ≡ drop_level (record { price = price; side = side }) ts h
unfolding apply_level
apply_level-zero side price qty ts h e = rw e

apply_level-pos :
    (side : Side) (price : Price) (qty : Quantity) (ts : Timestamp) (h : FeedHandler)
    → (qty == 0) ≡ false
    → let key : LevelKey = record { price = price; side = side } in
      let r = drop_level key ts h in
      apply_level side price qty ts h
      ≡ ((add_level key qty ts r.0).0, r.1 ++ (add_level key qty ts r.0).1)
unfolding apply_level
apply_level-pos side price qty ts h e = rw e

pub apply_level-Sends :
    (side : Side) (price : Price) (qty : Quantity) (ts : Timestamp) (h : FeedHandler)
    {o : Outstanding} {d : LevelDepth}
    → Mirrors h.live h.next_id o d
    → h.next_id + length (apply_level side price qty ts h).1 < 2 ^ 64
    → Sends h
        (apply_level side price qty ts h)
        o
        (set_depth d (record { price = price; side = side }) qty)
apply_level-Sends side price qty ts h {o} {d} m room =
    let key : LevelKey = record { price = price; side = side } in
    let drops = drop_level-Drops key ts h m in
    elim (Bool-cases (qty == 0)) [
      | inl e ↦
          let zero : qty ≡ 0 = ==→eq qty 0 e in
          rw (apply_level-zero side price qty ts h e, zero) drops.sends
      | inr e ↦
          let q = apply_level-pos side price qty ts h e in
          let room' : h.next_id
                + length
                    ((drop_level key ts h).1 ++ (add_level key qty ts (drop_level key ts h).0).1)
              < 2 ^ 64 =
            rw (← ap (λ (r : Appended). length r.1) q) room in
          rw q (
            Sends-same (set_depth_twice d key qty) (
              Sends-append h (drop_level key ts h) (add_level key qty ts (drop_level key ts h).0) o
                drops.sends
                (add_level-Sends key qty ts (drop_level key ts h).0 drops.sends.mirrors drops.gone
                  (ground arith)
                  (omega (
                    arith,
                    drops.same_ids,
                    room',
                    add_level-length key qty ts (drop_level key ts h).0,
                    length-append (drop_level key ts h).1
                        (add_level key qty ts (drop_level key ts h).0).1,
                  )))))
    ]
