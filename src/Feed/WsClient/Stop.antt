-- ===== src/Feed/WsClient/Stop.antt =====
-- What a call of `stop` comes to.
use Prim.Native.String.{String}
use lockfree_matching_engine.Prelude.{
  ℕ, ◌+◌, ◌≡◌, refl, Bool, true, false, ◌&&◌, not, none, List, [], ◌∷◌, ◌++◌, append_assoc,
  append-nil, sym, ap, ◌∙◌, if◌then◌else◌,
}
use lockfree_matching_engine.Feed.WsClient.{
  WsClient, WsConfig, do_write, post_stop, on_resolve, on_tcp_connected, on_tcp_connect,
  on_tls_handshake, on_ws_handshake, on_read, Event, stop, resolve_ends, tcp_connect_ends,
  tls_handshake_ends, ws_handshake_ends, read_ends, handle, read, await, Run, turn, resolve,
}
use lockfree_matching_engine.Transport.WriteQueue.{is_empty}

unfoldable pub handle_all : WsConfig → List Event → WsClient → WsClient
handle_all cfg [] c = c
handle_all cfg (e ∷ es) c = handle_all cfg es (handle cfg e c)

abbrev pub arrivals : List String → List Event
arrivals [] = []
arrivals (frame ∷ frames) = read_ends none frame ∷ arrivals frames

-- The events of a connection made.
abbrev pub connection : List Event
connection =
    resolve_ends none
    ∷ tcp_connect_ends none none
    ∷ tls_handshake_ends none
    ∷ ws_handshake_ends none
    ∷ []

-- A client that reads though it is to stop, `connects` and `messages` its calls of the handlers.
pub record ReadsOn (connects : ℕ) (messages : List String) (c : WsClient) : Type 0 where
  pub stopping : c.stopping ≡ true
  pub reading : c.awaited ≡ read
  pub connected : c.connects ≡ connects
  pub received : c.messages ≡ messages

by_flush :
    (b : Bool) (c : WsClient) (connects : ℕ) (messages : List String)
    → ReadsOn connects messages (await read c)
    → ReadsOn connects messages (await read (if b then do_write c else c))
unfolding do_write
by_flush true c connects messages v = record {
  stopping = v.stopping;
  reading = refl;
  connected = v.connected;
  received = v.received;
}
by_flush false c connects messages v = v

arrivals-ReadsOn :
    (cfg : WsConfig) (frames : List String) (n : ℕ) (before : List String) (c : WsClient)
    → ReadsOn n before c
    → ReadsOn n (before ++ frames) (handle_all cfg (arrivals frames) c)
unfolding handle_all handle on_read
arrivals-ReadsOn cfg [] n before c v = record {
  stopping = v.stopping;
  reading = v.reading;
  connected = v.connected;
  received = v.received ∙ sym (append-nil before);
}
arrivals-ReadsOn cfg (frame ∷ frames) n before c v =
    rw (← append_assoc before (frame ∷ []) frames) (
      arrivals-ReadsOn cfg frames n (before ++ frame ∷ []) _ record {
        stopping = v.stopping;
        reading = refl;
        connected = v.connected;
        received = ap (λ xs. xs ++ frame ∷ []) v.received;
      })

on_ws_handshake-ReadsOn :
    (cfg : WsConfig) (c : WsClient)
    → c.stopping ≡ true
    → ReadsOn (c.connects + 1) c.messages (on_ws_handshake cfg none c)
unfolding on_ws_handshake
on_ws_handshake-ReadsOn cfg c e =
    let healthy = record c { reconnect_attempts = 0; connects = c.connects + 1 } in
    by_flush (not (is_empty c.write_queue) && not c.writing) healthy (c.connects + 1) c.messages
      record { stopping = e; reading = refl; connected = refl; received = refl }

arrivals-Run :
    (cfg : WsConfig) (frames : List String) (c : WsClient)
    → Run cfg c
    → c.awaited ≡ read
    → Run cfg (handle_all cfg (arrivals frames) c)
unfolding handle_all handle on_read
arrivals-Run cfg [] c r e = r
arrivals-Run cfg (frame ∷ frames) c r e =
    arrivals-Run cfg frames _ (turn (read_ends none frame) c r e) refl

connected-ReadsOn :
    (cfg : WsConfig) (is_open : Bool) (c : WsClient)
    → ReadsOn (c.connects + 1) c.messages (handle_all cfg connection (post_stop is_open c))
unfolding handle_all handle post_stop on_resolve on_tcp_connect on_tcp_connected on_tls_handshake
connected-ReadsOn cfg is_open c = on_ws_handshake-ReadsOn cfg _ refl

connected-Run :
    (cfg : WsConfig) (is_open : Bool) (c : WsClient)
    → Run cfg c
    → c.awaited ≡ resolve
    → Run cfg (handle_all cfg connection (handle cfg (stop is_open) c))
unfolding handle_all handle post_stop on_resolve on_tcp_connect on_tcp_connected on_tls_handshake
connected-Run cfg is_open c r e =
    let stopped = turn (stop is_open) c r tt in
    let resolved = turn (resolve_ends none) _ stopped e in
    let joined = turn (tcp_connect_ends none none) _ resolved refl in
    turn (ws_handshake_ends none) _ (turn (tls_handshake_ends none) _ joined refl) refl

-- In any run of the websocket client in which the host is being resolved, if `stop` is called,
-- and the resolution and the three handshakes then succeed, that is again a run, and after it
-- and any frames that arrive the client is stopping and still awaits the next frame, having
-- called the connect handler and delivered every frame.
pub stopped_while_resolving :
    (cfg : WsConfig) (is_open : Bool) (frames : List String) (c : WsClient)
    → Run cfg c
    → c.awaited ≡ resolve
    → Run cfg
        (handle_all cfg (arrivals frames) (handle_all cfg connection (handle cfg (stop is_open) c)))
      × ReadsOn (c.connects + 1) (c.messages ++ frames) (
          handle_all cfg
            (arrivals frames)
            (handle_all cfg connection (handle cfg (stop is_open) c)))
unfolding handle
stopped_while_resolving cfg is_open frames c r e =
    let v = connected-ReadsOn cfg is_open c in
    (
      arrivals-Run cfg frames _ (connected-Run cfg is_open c r e) v.reading,
      arrivals-ReadsOn cfg frames (c.connects + 1) c.messages _ v,
    )
