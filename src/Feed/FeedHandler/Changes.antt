-- ===== src/Feed/FeedHandler/Changes.antt =====
-- What one message does to the orders outstanding, and one change of the live levels with it.
use lockfree_matching_engine.Prelude.{
  ◌<◌, ◌+◌, ◌≡◌, refl, sym, ap, ◌∙◌, true, false, none, some, List, [], ◌∷◌, ◌==◌, ==→eq, ==_refl,
  Bool-cases, inl, inr, update, arith,
}
use lockfree_matching_engine.Core.Types.{OrderId, Quantity, Timestamp}
use lockfree_matching_engine.Transport.Intake.{Outstanding, deliver, replay}
use lockfree_matching_engine.Transport.Message.{NewOrderMessage, EngineMessage, new_order, cancel}
use lockfree_matching_engine.Feed.FeedHandler.{level_order}
use lockfree_matching_engine.Feed.FeedHandler.Live.{
  LevelKey, LiveLevels, find_level, erase_level, same_key, same_key→eq, same_key_refl,
  Single-erase_level, find_level-erase_level_self, find_level-erase_level_ne,
}
use lockfree_matching_engine.Feed.FeedHandler.Mirror.{
  LevelDepth, set_depth, key_of, Mirrors, backed-key,
}

level_order-key :
    (key : LevelKey) (qty : Quantity) (ts : Timestamp) (id : OrderId) (msg : NewOrderMessage)
    → some (level_order key qty ts id) ≡ some msg
    → key_of msg ≡ key
unfolding level_order
level_order-key key qty ts id msg h =
    let p : msg.price ≡ key.price = cc in let s : msg.side ≡ key.side = cc in cc

module _ {live : LiveLevels} {next_id : OrderId} {o : Outstanding} {d : LevelDepth}
    (m : Mirrors live next_id o d) where
  -- Without the order of a live level, the level is without quantity.
  pub erase_level-Mirrors :
      (key : LevelKey) (id : OrderId)
      → find_level key live ≡ some id
      → Mirrors (erase_level key live) next_id (update o id none) (set_depth d key 0)
  unfolding level_order
  erase_level-Mirrors key id h = record {
    backed = λ k i e. elim (Bool-cases (same_key key k)) [
      | inl same ↦
          let gone = find_level-erase_level_self key live in
          let same' = same_key→eq key k same in cc
      | inr other ↦
          let e' : find_level k live ≡ some i =
            sym (find_level-erase_level_ne key k live other) ∙ e in
          let (ts, b, p) = m.backed k i e' in (ts, rw (other, apart k i e' other) b, rw other p)
    ];
    absent = λ k e. elim (Bool-cases (same_key key k)) [
      | inl same ↦ rw same
      | inr other ↦ rw other (m.absent k (sym (find_level-erase_level_ne key k live other) ∙ e))
    ];
    known = λ i msg e. elim (Bool-cases (i == id)) [
      | inl same ↦ let e' : none ≡ some msg = (rw same at e) in cc
      | inr other ↦
          let f = m.known i msg (rw other at e) in
          find_level-erase_level_ne key (key_of msg) live (differ (key_of msg) i f other) ∙ f
    ];
    fresh = λ i msg e. elim (Bool-cases (i == id)) [
      | inl same ↦ let e' : none ≡ some msg = (rw same at e) in cc
      | inr other ↦ m.fresh i msg (rw other at e)
    ];
    single = Single-erase_level key live m.single;
  }
    where
      apart :
          (k : LevelKey) (i : OrderId)
          → find_level k live ≡ some i
          → same_key key k ≡ false
          → (i == id) ≡ false
      apart k i e other = elim (Bool-cases (i == id)) [
        | inl same ↦
            let e' : find_level k live ≡ some id = rw (← ==→eq i id same) e in
            let l : key ≡ k = backed-key m key k id h e' in cc (same_key_refl key)
        | inr ne ↦ ne
      ]

      differ :
          (k : LevelKey) (i : OrderId)
          → find_level k live ≡ some i
          → (i == id) ≡ false
          → same_key key k ≡ false
      differ k i f other = elim (Bool-cases (same_key key k)) [
        | inl same ↦
            let f' : find_level key live ≡ some i = rw (same_key→eq key k same) f in
            let e : i ≡ id = cc in ground (arith, e)
        | inr ne ↦ ne
      ]

  -- The next identifier, with an order for a level that has none.
  pub add_level-Mirrors :
      (key : LevelKey) (qty : Quantity) (ts : Timestamp)
      → find_level key live ≡ none
      → 0 < qty
      → let id = next_id in
        Mirrors
          (record { key = key; id = id } ∷ live)
          (next_id + 1)
          (update o id (some (level_order key qty ts id)))
          (set_depth d key qty)
  unfolding find_level
  add_level-Mirrors key qty ts h pos_qty = record {
    backed = λ k i e. elim (Bool-cases (same_key key k)) [
      | inl same ↦
          let e' : i ≡ next_id = ground arith in
          (
            ts,
            rw (e', same, ==_refl)
                (ap (λ j. some (level_order j qty ts next_id)) (same_key→eq key k same)),
            rw same pos_qty,
          )
      | inr other ↦
          let e' : find_level k live ≡ some i = (rw other at e) in
          let (ts', b, p) = m.backed k i e' in
          let old = m.fresh i (level_order k (d k) ts' i) b in
          let ne : (i == next_id) ≡ false = ground arith in (ts', rw (other, ne) b, rw other p)
    ];
    absent = λ k e. elim (Bool-cases (same_key key k)) [
      | inl same ↦ let e' : some next_id ≡ none = (rw same at e) in cc
      | inr other ↦ rw other (m.absent k (rw other at e))
    ];
    known = λ i msg e. elim (Bool-cases (i == next_id)) [
      | inl same ↦
          let k = level_order-key key qty ts next_id msg (rw same at e) in
          let hit : same_key key (key_of msg) ≡ true = cc (same_key_refl key) in
          let e' : next_id ≡ i = ground arith in rw hit (ap some e')
      | inr other ↦
          let f = m.known i msg (rw other at e) in
          elim (Bool-cases (same_key key (key_of msg))) [
            | inl same ↦ let q = same_key→eq key (key_of msg) same in cc
            | inr ne ↦ rw ne f
          ]
    ];
    fresh = λ i msg e. elim (Bool-cases (i == next_id)) [
      | inl same ↦ ground arith
      | inr other ↦ let old = m.fresh i msg (rw other at e) in omega arith
    ];
    single = (h, m.single);
  }

pub Mirrors-same :
    {live : LiveLevels} {next_id : OrderId} {o : Outstanding} {d d' : LevelDepth}
    → ((k : LevelKey) → d' k ≡ d k)
    → Mirrors live next_id o d
    → Mirrors live next_id o d'
Mirrors-same same m = record {
  backed = λ k i e. let (ts, b, p) = m.backed k i e in (ts, rw (same k) b, rw (same k) p);
  absent = λ k e. rw (same k) (m.absent k e);
  known = m.known;
  fresh = m.fresh;
  single = m.single;
}

pub replay-nil : (o : Outstanding) → replay [] o ≡ some o
unfolding replay
replay-nil o = refl

pub replay-cancel :
    (ts : Timestamp) (id : OrderId) (msg : NewOrderMessage) (msgs : List EngineMessage)
    (o : Outstanding)
    → o id ≡ some msg
    → replay (cancel (record { id = id; timestamp = ts }) ∷ msgs) o ≡ replay msgs (update o id none)
unfolding replay deliver
replay-cancel ts id msg msgs o h = rw (h, replay)

pub replay-new :
    (msg : NewOrderMessage) (msgs : List EngineMessage) (o : Outstanding)
    → o msg.id ≡ none
    → replay (new_order msg ∷ msgs) o ≡ replay msgs (update o msg.id (some msg))
unfolding replay deliver
replay-new msg msgs o h = rw (h, replay)
