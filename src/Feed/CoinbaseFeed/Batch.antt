-- ===== src/Feed/CoinbaseFeed/Batch.antt =====
-- What becomes of a frame's messages while the engine thread takes nothing out of the ring.
use Prim.Native.String.{String}
use lockfree_matching_engine.Prelude.{◌≡◌, refl, ap₂, List, [], ◌∷◌}
use lockfree_matching_engine.Core.Types.{Timestamp}
use lockfree_matching_engine.Transport.Message.{EngineMessage, new_order, cancel}
use lockfree_matching_engine.Transport.Intake.{with_time, all_with_time}
use lockfree_matching_engine.Transport.SpscQueue.Sequential.{Contains}
use lockfree_matching_engine.Transport.SpscQueue.PushEach.{Offered, push_each-Offered}
use lockfree_matching_engine.Feed.FeedHandler.{Dom, parse_frame}
use lockfree_matching_engine.Feed.FeedHandler.Decimals.{Doubles}
use lockfree_matching_engine.Feed.FeedHandler.Frames.{parse_lem}
use lockfree_matching_engine.Feed.CoinbaseFeed.{
  CoinbaseFeed, feed_queue_size, stamp, stamp_all, on_message,
}

pub stamp-with_time : (now : Timestamp) (msg : EngineMessage) → stamp now msg ≡ with_time now msg
stamp-with_time now (new_order msg) = refl
stamp-with_time now (cancel msg) = refl

stamp_all-all_with_time :
    (now : Timestamp) (msgs : List EngineMessage) → stamp_all now msgs ≡ all_with_time now msgs
stamp_all-all_with_time now [] = refl
stamp_all-all_with_time now (msg ∷ msgs) =
    ap₂ (◌∷◌) (stamp-with_time now msg) (stamp_all-all_with_time now msgs)

module _ (dom : Dom) (doubles : Doubles) where
  -- For a frame that comes while the ring holds some messages and nothing is taken out: the
  -- handler is the one that has parsed the frame, the ring then holds behind the old messages
  -- the first of the frame's, each with the clock's time in place of its own timestamp and
  -- otherwise unchanged, as many as there was room for, and each of the frame's messages is
  -- counted, as pushed or as dropped, modulo 2^64.
  pub on_message_lem :
      (ts now : Timestamp) (raw : String) (f : CoinbaseFeed) (old : List EngineMessage)
      → Contains feed_queue_size f.ring.queue old
      → let (handler, batch) = parse_frame dom doubles ts raw f.handler in
        let f' = on_message dom doubles ts now raw f in
        (f'.handler ≡ handler)
        × Offered feed_queue_size f.ring f'.ring old (all_with_time now batch)
  unfolding on_message
  on_message_lem ts now raw f old c =
      let (handler, batch) = parse_frame dom doubles ts raw f.handler in
      rw (parse_lem dom doubles ts raw [] f.handler, ← stamp_all-all_with_time now batch)
        (refl, push_each-Offered feed_queue_size (stamp_all now batch) old f.ring c)
