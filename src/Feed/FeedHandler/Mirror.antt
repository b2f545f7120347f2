-- ===== src/Feed/FeedHandler/Mirror.antt =====
-- The receiver's side of the messages, and what the handler's map says of it.
use lockfree_matching_engine.Prelude.{◌<◌, ◌≡◌, sym, ◌∙◌, none, some, if◌then◌else◌}
use lockfree_matching_engine.Core.Types.{OrderId, Quantity, Timestamp}
use lockfree_matching_engine.Transport.Intake.{Outstanding}
use lockfree_matching_engine.Transport.Message.{NewOrderMessage}
use lockfree_matching_engine.Feed.FeedHandler.{level_order}
use lockfree_matching_engine.Feed.FeedHandler.Live.{
  LevelKey, LiveLevels, find_level, same_key, Single,
}

-- The quantity at each level.
abbrev pub LevelDepth : Type 0
LevelDepth = LevelKey → Quantity

abbrev pub no_depth : LevelDepth
no_depth key = 0

abbrev pub set_depth : LevelDepth → LevelKey → Quantity → LevelDepth
set_depth d key qty k = if same_key key k then qty else d k

abbrev pub key_of : NewOrderMessage → LevelKey
key_of msg = record { price = msg.price; side = msg.side }

-- The live levels are the orders outstanding, one at each level with a quantity, and of that
-- quantity; identifiers from `next_id` on are not in use.
pub record Mirrors (live : LiveLevels) (next_id : OrderId) (o : Outstanding) (d : LevelDepth)
    : Type 0 where
  pub backed :
      (key : LevelKey) (id : OrderId)
      → find_level key live ≡ some id
      → (ts : Timestamp) × (o id ≡ some (level_order key (d key) ts id)) × (0 < d key)
  pub absent : (key : LevelKey) → find_level key live ≡ none → d key ≡ 0
  pub known :
      (id : OrderId) (msg : NewOrderMessage)
      → o id ≡ some msg
      → find_level (key_of msg) live ≡ some id
  pub fresh : (id : OrderId) (msg : NewOrderMessage) → o id ≡ some msg → id < next_id
  pub single : Single live

-- Two levels do not share an order.
pub backed-key :
    {live : LiveLevels} {next_id : OrderId} {o : Outstanding} {d : LevelDepth}
    → Mirrors live next_id o d
    → (j k : LevelKey) (id : OrderId) → find_level j live ≡ some id
    → find_level k live ≡ some id
    → j ≡ k
unfolding level_order
backed-key {d} m j k id hj hk =
    let (tj, ej, pj) = m.backed j id hj in
    let (tk, ek, pk) = m.backed k id hk in
    let same : some (level_order j (d j) tj id) ≡ some (level_order k (d k) tk id) = sym ej ∙ ek in
    let p : j.price ≡ k.price = cc in let s : j.side ≡ k.side = cc in cc
