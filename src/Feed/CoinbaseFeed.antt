-- ===== src/Feed/CoinbaseFeed.antt =====
-- feed/coinbase_feed.cpp: the handler of a websocket frame, which parses the frame into a batch,
-- stamps its messages and pushes them into the engine's ring.
pub mod Batch
use Prim.Native.String.{String, ◌++◌ as ◌<>◌}
use lockfree_matching_engine.Prelude.{
  ℕ, ◌+◌, Bool, true, false, List, [], ◌∷◌, if◌then◌else◌, add64,
}
use lockfree_matching_engine.Core.Types.{Timestamp}
use lockfree_matching_engine.Transport.Message.{
  NewOrderMessage, CancelMessage, EngineMessage, new_order, cancel,
}
use lockfree_matching_engine.Transport.SpscQueue.PushEach.{Pushing, push_each}
use lockfree_matching_engine.Feed.FeedHandler.{Dom, FeedHandler, parse}
use lockfree_matching_engine.Feed.FeedHandler.Decimals.{Doubles}

abbrev pub feed_queue_size : ℕ
feed_queue_size = 65536

-- The subscription that is sent after every connect.
abbrev pub subscription : String → String
subscription product_id =
    "{\"type\":\"subscribe\",\"product_ids\":[\"" <> product_id
    <> "\"],\"channels\":[\"level2_batch\",\"matches\"]}"

-- `*queue_`, and the counters `pushed_` and `dropped_`, are in `ring`.
pub record CoinbaseFeed : Type 0 where
  pub handler : FeedHandler
  pub ring : Pushing EngineMessage

abbrev pub stamp : Timestamp → EngineMessage → EngineMessage
stamp now (new_order msg) = new_order (record msg { timestamp = now })
stamp now (cancel msg) = cancel (record msg { timestamp = now })

abbrev pub stamp_all : Timestamp → List EngineMessage → List EngineMessage
stamp_all now [] = []
stamp_all now (msg ∷ msgs) = stamp now msg ∷ stamp_all now msgs

-- `ts` is the time that `parse` reads, and `now` the one read after it.
unfoldable pub on_message :
    Dom → Doubles → Timestamp → Timestamp → String → CoinbaseFeed → CoinbaseFeed
on_message dom doubles ts now raw f =
    let (handler, batch, appended) = parse dom doubles ts raw [] f.handler in
    record { handler = handler; ring = push_each feed_queue_size (stamp_all now batch) f.ring }
