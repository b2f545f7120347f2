-- ===== src/Feed/Tests.antt =====
-- The theorems of feed/ at concrete inputs: a document with one change, and numbers read as they are.
use Prim.Native.String.{String}
use text.Mathlib.Text
use lockfree_matching_engine.Prelude.{
  ℕ, ◌+◌, ◌≡◌, refl, Option, none, some, List, [], ◌∷◌, ◌++◌, false, length, leb, pos,
  if◌then◌else◌, arith,
}
use lockfree_matching_engine.Core.Types.{Timestamp}
use lockfree_matching_engine.Core.Store.{Store, free_node}
use lockfree_matching_engine.Transport.Message.{EngineMessage}
use lockfree_matching_engine.Feed.FeedHandler.{
  Dom, new_handler, parse, parse_frame, parse_typed, parse_update, apply_rows, apply_row,
  apply_level, drop_level, add_level, change_rows, change_row, row_strings, price_size_row,
  parse_side,
}
use lockfree_matching_engine.Feed.FeedHandler.Decimals.{
  Doubles, to_ticks, to_lots, parse_double, dollars_to_ticks,
}
use lockfree_matching_engine.Feed.FeedHandler.Live.{find_level}
use lockfree_matching_engine.Feed.FeedHandler.Mirror.{no_depth}
use lockfree_matching_engine.Feed.FeedHandler.Frames.{parse_all, frames_depth}
use lockfree_matching_engine.Feed.FeedHandler.Book.{InStep, parse_all_lem}
use lockfree_matching_engine.Core.MatchingEngine
use lockfree_matching_engine.Core.MatchingEngine.NewOrder.{Holds}
use lockfree_matching_engine.Core.MatchingEngine.Process.{process_all, exchange_all}
use lockfree_matching_engine.Transport.Message.{cancel}
use lockfree_matching_engine.Transport.Intake.{all_with_time, AllSound}
use lockfree_matching_engine.Transport.SpscQueue.{new_queue}
use lockfree_matching_engine.Transport.SpscQueue.Ring.{new_queue-IsRing}
use lockfree_matching_engine.Feed.FeedHandler.Sound.{parse_all-process_all}
use lockfree_matching_engine.Feed.CoinbaseFeed.{CoinbaseFeed, feed_queue_size, on_message}
use lockfree_matching_engine.Feed.CoinbaseFeed.Batch.{on_message_lem}
use lockfree_matching_engine.Transport.SpscQueue.PushEach.{Offered}
use lockfree_matching_engine.Feed.WsClient.{
  WsClient, Event, send, resolve_ends, tcp_connect_ends, tls_handshake_ends, ws_handshake_ends,
  write_ends, stop, new_client, default_ws_config, start_connect, handle, Run, started, turn,
  post_send, on_resolve, on_tcp_connect, on_tcp_connected, on_tls_handshake, on_ws_handshake,
  on_write, do_write, resolve,
}
use lockfree_matching_engine.Feed.WsClient.Writes.{OneWriter, Run-OneWriter}
use lockfree_matching_engine.Feed.WsClient.Stop.{
  handle_all, arrivals, connection, ReadsOn, stopped_while_resolving,
}

data Node : Type 0 where
  words : String → Node
  row : String → String → String → Node
  changes : Node → Node
  update_of : Node → Node

abbrev node_at : Node → String → Option Node
node_at (words s) key = none
node_at (row side price size) key = none
node_at (changes n) key = none
node_at (update_of n) key =
    if Text.◌==◌ key "type"
    then some (words "l2update")
    else if Text.◌==◌ key "changes"
    then some (changes n)
    else none

abbrev node_string : Node → Option String
node_string (words s) = some s
node_string (row side price size) = none
node_string (changes n) = none
node_string (update_of n) = none

abbrev node_array : Node → Option (List Node)
node_array (words s) = none
node_array (row side price size) = some (words side ∷ words price ∷ words size ∷ [])
node_array (changes n) = some (n ∷ [])
node_array (update_of n) = none

abbrev dom : Dom
dom = record {
  Element = Node;
  parse_document = λ s. if Text.◌==◌ s "frame" then some (update_of (row "buy" "1" "5")) else none;
  at_key = node_at;
  get_string = node_string;
  get_array = node_array;
  get_uint64 = λ n. none;
}

abbrev digit : String → Option (ℕ × String)
digit s = if Text.◌==◌ s "1" then some (1, "") else if Text.◌==◌ s "5" then some (5, "") else none

abbrev doubles : Doubles
doubles = record {
  Double = ℕ;
  from_chars = digit;
  zero_coins = 0;
  lots_per_coin = 1;
  quantity_max = 4294967295;
  dollars_per_tick = 1;
  times = λ a b. a;
  over = λ a b. a;
  at_most = leb;
  round = λ a. a;
  to_int64 = pos;
  llround = pos;
}

abbrev frames : List (Timestamp × String)
frames = (7, "frame") ∷ (8, "noise") ∷ []

sent : length (parse_all dom doubles frames [] new_handler).1 ≡ 1
unfolding parse parse_frame parse_typed parse_update apply_rows apply_row apply_level drop_level
    add_level change_rows change_row row_strings price_size_row parse_side to_ticks to_lots
    parse_double dollars_to_ticks find_level
sent = refl

parse_all_lem_example :
    InStep (parse_all dom doubles frames [] new_handler) (frames_depth dom doubles frames no_depth)
parse_all_lem_example = parse_all_lem dom doubles frames (omega (arith, sent))

abbrev empty_memory : Store
empty_memory p = free_node 0

parse_all-process_all_example :
    let out = (parse_all dom doubles frames [] new_handler).1 in
    let (f, depth) = exchange_all 3 out (λ p. []) in
    let (g, e) = process_all out (MatchingEngine.init 3 empty_memory) in
    AllSound out × (g ≡ f) × Holds 3 e depth
parse_all-process_all_example =
    parse_all-process_all dom doubles frames 3 empty_memory (omega arith)

abbrev no_message : EngineMessage
no_message = cancel (record { id = 0; timestamp = 0 })

abbrev idle_feed : CoinbaseFeed
idle_feed = record {
  handler = new_handler;
  ring = record { queue = new_queue no_message; pushed = 0; dropped = 0 };
}

on_message_lem_example :
    let (handler, batch) = parse_frame dom doubles 7 "frame" new_handler in
    let f' = on_message dom doubles 7 8 "frame" idle_feed in
    (f'.handler ≡ handler)
    × Offered feed_queue_size idle_feed.ring f'.ring [] (all_with_time 8 batch)
on_message_lem_example = on_message_lem dom doubles 7 8 "frame" idle_feed [] (record {
  behind = 0;
  seen = 0;
  ring = new_queue-IsRing feed_queue_size no_message (omega arith);
})

-- Two frames that are sent before the handshake ends, of which one is written.
abbrev first_frame : List Event
first_frame =
    resolve_ends none
    ∷ send false "a"
    ∷ send false "b"
    ∷ tcp_connect_ends none none
    ∷ tls_handshake_ends none
    ∷ ws_handshake_ends none
    ∷ write_ends none
    ∷ []

first_frame-Run :
    Run default_ws_config (handle_all default_ws_config first_frame (start_connect new_client))
unfolding handle_all handle start_connect post_send on_resolve on_tcp_connect on_tcp_connected
    on_tls_handshake on_ws_handshake on_write do_write
first_frame-Run =
    let queued =
      turn (send false "b") _ (turn (send false "a") _ (turn (resolve_ends none) _ started refl) tt)
        tt in
    let secured =
      turn (tls_handshake_ends none) _ (turn (tcp_connect_ends none none) _ queued refl) refl in
    turn (write_ends none) _ (turn (ws_handshake_ends none) _ secured refl) refl

Run-OneWriter_example :
    OneWriter (handle_all default_ws_config first_frame (start_connect new_client))
Run-OneWriter_example = Run-OneWriter default_ws_config first_frame-Run

start_connect-resolves : (start_connect new_client).awaited ≡ resolve
unfolding start_connect
start_connect-resolves = refl

abbrev stopped_client : WsClient
stopped_client = handle_all default_ws_config (arrivals ("a" ∷ "b" ∷ [])) (
    handle_all default_ws_config connection
      (handle default_ws_config (stop false) (start_connect new_client)))

stopped_while_resolving_example :
    Run default_ws_config stopped_client
    × ReadsOn
        ((start_connect new_client).connects + 1)
        ((start_connect new_client).messages ++ "a" ∷ "b" ∷ [])
        stopped_client
stopped_while_resolving_example =
    stopped_while_resolving default_ws_config false ("a" ∷ "b" ∷ []) (start_connect new_client)
      started start_connect-resolves
