-- ===== src/Feed/WsClient.antt =====
-- feed/ws_client.h and .cpp: the websocket client as the handlers that its one thread runs. What
-- the network does is a parameter: how an operation ends, and what `is_open` returns.
pub mod Writes
pub mod Stop
use Prim.Native.String.{String}
use lockfree_matching_engine.Prelude.{
  ℕ, ◌+◌, ◌*◌, ◌^◌, ◌≡◌, Bool, true, false, ◌||◌, ◌&&◌, not, Option, none, some, List, [], ◌∷◌,
  ◌++◌, if◌then◌else◌, min, add32,
}
use lockfree_matching_engine.Transport.WriteQueue.{is_empty, pop_front, put_front, front_of}

-- An error code: operation_aborted, or any other.
pub data Failure : Type 0 where
  aborted failed : Failure

-- How an asynchronous operation ends.
abbrev pub Outcome : Type 0
Outcome = Option Failure

-- `ws_` and its socket: not made, made, sent a close frame, or with the socket closed.
pub data Transport : Type 0 where
  absent made closing closed : Transport

abbrev pub has_stream : Transport → Bool
has_stream absent = false
has_stream made = true
has_stream closing = true
has_stream closed = true

abbrev pub close_socket : Transport → Transport
close_socket absent = absent
close_socket made = closed
close_socket closing = closed
close_socket closed = closed

-- The operation that is in flight besides writes, the timer and the close.
pub data Awaited : Type 0 where
  nothing resolve tcp_connect tls_handshake ws_handshake read : Awaited

-- `timer_delay` is what the timer was last set to, unless it was cancelled since.
-- `writes` are the frames of the async_writes in flight. `accepted` and `completed` are kept for the
-- statements: the frames queued, and those written, since the transport was made. `connects`,
-- `disconnects` and `messages` are the calls of the three user handlers.
pub record WsClient : Type 0 where
  pub write_queue : List String
  pub writing : Bool
  pub reconnect_attempts : ℕ
  pub stopping : Bool
  pub transport : Transport
  pub timer_delay : Option ℕ
  pub awaited : Awaited
  pub writes : List String
  pub accepted : List String
  pub completed : List String
  pub connects : ℕ
  pub disconnects : ℕ
  pub messages : List String

abbrev pub new_client : WsClient
new_client = record {
  write_queue = [];
  writing = false;
  reconnect_attempts = 0;
  stopping = false;
  transport = absent;
  timer_delay = none;
  awaited = nothing;
  writes = [];
  accepted = [];
  completed = [];
  connects = 0;
  disconnects = 0;
  messages = [];
}

pub record WsConfig : Type 0 where
  pub reconnect_base_delay : ℕ
  pub reconnect_max_delay : ℕ

abbrev pub default_ws_config : WsConfig
default_ws_config = record { reconnect_base_delay = 500; reconnect_max_delay = 30000 }

unfoldable pub do_write : WsClient → WsClient
do_write c = record c { writing = true; writes = put_front c.write_queue c.writes }

abbrev pub fresh_transport : WsClient → WsClient
fresh_transport c = record c {
  transport = made;
  writing = false;
  write_queue = [];
  awaited = resolve;
  accepted = [];
  completed = [];
}

unfoldable pub start_connect : WsClient → WsClient
start_connect c = if c.stopping then c else fresh_transport c

unfoldable pub reconnect_delay : WsConfig → ℕ → ℕ
reconnect_delay cfg attempts =
    min (cfg.reconnect_base_delay * 2 ^ min attempts 16) cfg.reconnect_max_delay

abbrev pub is_aborted : Failure → Bool
is_aborted aborted = true
is_aborted failed = false

unfoldable pub schedule_reconnect : WsConfig → Failure → WsClient → WsClient
schedule_reconnect cfg ec c = if c.stopping || is_aborted ec then c else record c {
  disconnects = c.disconnects + 1;
  timer_delay = some (reconnect_delay cfg c.reconnect_attempts);
  transport = close_socket c.transport;
  reconnect_attempts = add32 c.reconnect_attempts 1;
}

unfoldable pub post_send : Bool → String → WsClient → WsClient
post_send is_open msg c =
    let queued = record c {
      write_queue = c.write_queue ++ msg ∷ [];
      accepted = c.accepted ++ msg ∷ [];
    } in
    if has_stream c.transport && is_open && not c.writing then do_write queued else queued

-- A polite close of a websocket that is open, else a close of the socket. The operations that this
-- ends, and the cancelled wait, still call their handlers.
unfoldable pub post_stop : Bool → WsClient → WsClient
post_stop is_open c = record c {
  stopping = true;
  timer_delay = none;
  transport = if has_stream c.transport && is_open then closing else close_socket c.transport;
}

abbrev pub await : Awaited → WsClient → WsClient
await op c = record c { awaited = op }

-- A connection attempt opens the socket, a closed one too.
unfoldable pub on_resolve : WsConfig → Outcome → WsClient → WsClient
on_resolve cfg (some ec) c = schedule_reconnect cfg ec (await nothing c)
on_resolve cfg none c = record c { awaited = tcp_connect; transport = made }

unfoldable pub on_tcp_connected : WsConfig → Outcome → WsClient → WsClient
on_tcp_connected cfg (some ec) c = schedule_reconnect cfg ec (await nothing c)
on_tcp_connected cfg none c = await tls_handshake c

-- The second outcome is that of setting the name for SNI, which follows a connection made.
unfoldable pub on_tcp_connect : WsConfig → Outcome → Outcome → WsClient → WsClient
on_tcp_connect cfg (some ec) sni c = schedule_reconnect cfg ec (await nothing c)
on_tcp_connect cfg none sni c = on_tcp_connected cfg sni c

unfoldable pub on_tls_handshake : WsConfig → Outcome → WsClient → WsClient
on_tls_handshake cfg (some ec) c = schedule_reconnect cfg ec (await nothing c)
on_tls_handshake cfg none c = await ws_handshake c

-- The connect handler sends by `post_send`, which runs later.
abbrev pub flush_queue : WsClient → WsClient
flush_queue c = if not (is_empty c.write_queue) && not c.writing then do_write c else c

unfoldable pub on_ws_handshake : WsConfig → Outcome → WsClient → WsClient
on_ws_handshake cfg (some ec) c = schedule_reconnect cfg ec (await nothing c)
on_ws_handshake cfg none c =
    await read (flush_queue (record c { reconnect_attempts = 0; connects = c.connects + 1 }))

unfoldable pub on_read : WsConfig → Outcome → String → WsClient → WsClient
on_read cfg (some ec) frame c = schedule_reconnect cfg ec (await nothing c)
on_read cfg none frame c = await read (record c { messages = c.messages ++ frame ∷ [] })

abbrev pub written : WsClient → WsClient
written c = record c {
  write_queue = pop_front c.write_queue;
  completed = c.completed ++ front_of c.write_queue;
}

abbrev pub write_next : WsClient → WsClient
write_next c = if is_empty c.write_queue then c else do_write c

-- The write that ends is no longer in flight.
abbrev pub end_write : WsClient → WsClient
end_write c = record c { writing = false; writes = pop_front c.writes }

unfoldable pub on_write : WsConfig → Outcome → WsClient → WsClient
on_write cfg (some ec) c = schedule_reconnect cfg ec (end_write c)
on_write cfg none c = write_next (written (end_write c))

unfoldable pub on_timer : Bool → WsClient → WsClient
on_timer tec c = if tec || c.stopping then c else start_connect c

-- A turn of the client's thread: a posted call, or the end of an operation.
pub data Event : Type 0 where
  send : Bool → String → Event
  stop : Bool → Event
  resolve_ends : Outcome → Event
  tcp_connect_ends : Outcome → Outcome → Event
  tls_handshake_ends ws_handshake_ends : Outcome → Event
  read_ends : Outcome → String → Event
  write_ends : Outcome → Event
  timer_ends : Bool → Event

unfoldable pub handle : WsConfig → Event → WsClient → WsClient
handle cfg (send is_open msg) = post_send is_open msg
handle cfg (stop is_open) = post_stop is_open
handle cfg (resolve_ends ec) = on_resolve cfg ec
handle cfg (tcp_connect_ends ec sni) = on_tcp_connect cfg ec sni
handle cfg (tls_handshake_ends ec) = on_tls_handshake cfg ec
handle cfg (ws_handshake_ends ec) = on_ws_handshake cfg ec
handle cfg (read_ends ec frame) = on_read cfg ec frame
handle cfg (write_ends ec) = on_write cfg ec
handle cfg (timer_ends tec) = on_timer tec

-- When an event can come: an operation ends only if it is in flight, and what was in flight on a
-- transport that was closed has ended before the timer for the next attempt fires.
abbrev pub Enabled : Event → WsClient → Type 0
Enabled (send is_open msg) c = Unit {0}
Enabled (stop is_open) c = Unit {0}
Enabled (resolve_ends ec) c = c.awaited ≡ resolve
Enabled (tcp_connect_ends ec sni) c = c.awaited ≡ tcp_connect
Enabled (tls_handshake_ends ec) c = c.awaited ≡ tls_handshake
Enabled (ws_handshake_ends ec) c = c.awaited ≡ ws_handshake
Enabled (read_ends ec frame) c = c.awaited ≡ read
Enabled (write_ends ec) c = is_empty c.writes ≡ false
Enabled (timer_ends tec) c = is_empty c.writes ≡ true

-- What `run` can come to, from the first attempt to connect on.
pub data Run (cfg : WsConfig) : WsClient → Type 0 where
  started : Run cfg (start_connect new_client)
  turn : (e : Event) (c : WsClient) → Run cfg c → Enabled e c → Run cfg (handle cfg e c)
