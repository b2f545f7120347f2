-- ===== src/Feed/WsClient/Writes.antt =====
-- Frames go out one at a time and in the order of the calls of `send`.
use Prim.Native.String.{String}
use lockfree_matching_engine.Prelude.{
  ◌≡◌, refl, sym, ap, ◌∙◌, Bool, true, false, ◌||◌, ◌&&◌, not, none, some, [], ◌∷◌, ◌++◌,
  append_assoc, arith, if◌then◌else◌,
}
use lockfree_matching_engine.Feed.WsClient.{
  WsClient, WsConfig, Failure, Outcome, new_client, do_write, start_connect, schedule_reconnect,
  is_aborted, post_send, post_stop, on_resolve, on_tcp_connected, on_tcp_connect, on_tls_handshake,
  on_ws_handshake, on_read, on_write, on_timer, Event, send, stop, resolve_ends, tcp_connect_ends,
  tls_handshake_ends, ws_handshake_ends, read_ends, write_ends, timer_ends, handle, Enabled, Run,
  started, turn, written, end_write, flush_queue, await, nothing, fresh_transport, has_stream,
  Awaited, tls_handshake, ws_handshake, read,
}
use lockfree_matching_engine.Transport.WriteQueue.{
  is_empty, pop_front, InFlight, queued-InFlight, do_write-InFlight, end_write-InFlight,
  none_in_flight, append_some, front_written,
}

-- A write is in flight just when the flag is up, it is that of the front of the queue alone, and what
-- was written and what waits is what was queued, in order.
pub record OneWriter (c : WsClient) : Type 0 where
  pub in_flight : InFlight c.writing c.write_queue c.writes
  pub in_order : c.completed ++ c.write_queue ≡ c.accepted

do_write-OneWriter :
    (c : WsClient)
    → c.writing ≡ false
    → is_empty c.write_queue ≡ false
    → OneWriter c
    → OneWriter (do_write c)
unfolding do_write
do_write-OneWriter c idle full v = record {
  in_flight = do_write-InFlight c.writing c.write_queue c.writes idle full v.in_flight;
  in_order = v.in_order;
}

-- A test of the client leaves one writer if both of its branches do.
by_test :
    (b : Bool) (c d : WsClient)
    → (b ≡ true → OneWriter c)
    → (b ≡ false → OneWriter d)
    → OneWriter (if b then c else d)
by_test true c d on off = on refl
by_test false c d on off = off refl

start_connect-OneWriter :
    (c : WsClient) → is_empty c.writes ≡ true → OneWriter c → OneWriter (start_connect c)
unfolding start_connect
start_connect-OneWriter c idle v =
    by_test c.stopping c (fresh_transport c) (λ e. v)
      λ e. record { in_flight = none_in_flight c.writes idle; in_order = refl }

schedule_reconnect-OneWriter :
    (cfg : WsConfig) (ec : Failure) (c : WsClient)
    → OneWriter c
    → OneWriter (schedule_reconnect cfg ec c)
unfolding schedule_reconnect
schedule_reconnect-OneWriter cfg ec c v =
    by_test (c.stopping || is_aborted ec) c _ (λ e. v)
      λ e. record { in_flight = v.in_flight; in_order = v.in_order }

await-OneWriter : (op : Awaited) (c : WsClient) → OneWriter c → OneWriter (await op c)
await-OneWriter op c v = record { in_flight = v.in_flight; in_order = v.in_order }

lost-OneWriter :
    (cfg : WsConfig) (ec : Failure) (c : WsClient)
    → OneWriter c
    → OneWriter (schedule_reconnect cfg ec (await nothing c))
lost-OneWriter cfg ec c v =
    schedule_reconnect-OneWriter cfg ec (await nothing c) (await-OneWriter nothing c v)

not_writing : (a b w : Bool) → (a && b && not w) ≡ true → w ≡ false
not_writing a b w e = ground arith

post_send-OneWriter :
    (is_open : Bool) (msg : String) (c : WsClient)
    → OneWriter c
    → OneWriter (post_send is_open msg c)
unfolding post_send
post_send-OneWriter is_open msg c v =
    let queued-OneWriter : OneWriter
        (record c { write_queue = c.write_queue ++ msg ∷ []; accepted = c.accepted ++ msg ∷ [] }) =
      record {
        in_flight = queued-InFlight c.writing c.write_queue c.writes msg v.in_flight;
        in_order =
            sym (append_assoc c.completed c.write_queue (msg ∷ []))
            ∙ ap (λ xs. xs ++ msg ∷ []) v.in_order;
      } in
    by_test (has_stream c.transport && is_open && not c.writing) _ _
      (λ e.
        do_write-OneWriter _ (not_writing (has_stream c.transport) is_open c.writing e)
          (append_some c.write_queue msg) queued-OneWriter)
      λ e. queued-OneWriter

flush_queue-OneWriter : (c : WsClient) → OneWriter c → OneWriter (flush_queue c)
flush_queue-OneWriter c v =
    by_test (not (is_empty c.write_queue) && not c.writing) _ c
      (λ e. do_write-OneWriter c (ground arith) (ground arith) v) λ e. v

end_write-OneWriter : (c : WsClient) → OneWriter c → OneWriter (end_write c)
end_write-OneWriter c v = record {
  in_flight = end_write-InFlight c.writing c.write_queue c.writes v.in_flight;
  in_order = v.in_order;
}

on_write-OneWriter :
    (cfg : WsConfig) (ec : Outcome) (c : WsClient) → OneWriter c → OneWriter (on_write cfg ec c)
unfolding on_write
on_write-OneWriter cfg (some ec) c v =
    schedule_reconnect-OneWriter cfg ec (end_write c) (end_write-OneWriter c v)
on_write-OneWriter cfg none c v =
    let ended = end_write-OneWriter c v in
    let written-OneWriter : OneWriter (written (end_write c)) = record {
      in_flight = ended.in_flight;
      in_order = front_written c.completed c.write_queue c.accepted v.in_order;
    } in
    by_test (is_empty (pop_front c.write_queue)) _ _ (λ e. written-OneWriter)
      λ e. do_write-OneWriter (written (end_write c)) refl e written-OneWriter

on_ws_handshake-OneWriter :
    (cfg : WsConfig) (ec : Outcome) (c : WsClient)
    → OneWriter c
    → OneWriter (on_ws_handshake cfg ec c)
unfolding on_ws_handshake
on_ws_handshake-OneWriter cfg (some ec) c v = lost-OneWriter cfg ec c v
on_ws_handshake-OneWriter cfg none c v =
    await-OneWriter read _
      (flush_queue-OneWriter _ record { in_flight = v.in_flight; in_order = v.in_order })

on_read-OneWriter :
    (cfg : WsConfig) (ec : Outcome) (frame : String) (c : WsClient)
    → OneWriter c
    → OneWriter (on_read cfg ec frame c)
unfolding on_read
on_read-OneWriter cfg (some ec) frame c v = lost-OneWriter cfg ec c v
on_read-OneWriter cfg none frame c v = record { in_flight = v.in_flight; in_order = v.in_order }

handle-OneWriter :
    (cfg : WsConfig) (e : Event) (c : WsClient)
    → Enabled e c
    → OneWriter c
    → OneWriter (handle cfg e c)
unfolding handle post_stop on_resolve on_tcp_connect on_tcp_connected on_tls_handshake on_timer
handle-OneWriter cfg (send is_open msg) c h v = post_send-OneWriter is_open msg c v
handle-OneWriter cfg (stop is_open) c h v = record {
  in_flight = v.in_flight;
  in_order = v.in_order;
}
handle-OneWriter cfg (resolve_ends (some ec)) c h v = lost-OneWriter cfg ec c v
handle-OneWriter cfg (resolve_ends none) c h v = record {
  in_flight = v.in_flight;
  in_order = v.in_order;
}
handle-OneWriter cfg (tcp_connect_ends (some ec) sni) c h v = lost-OneWriter cfg ec c v
handle-OneWriter cfg (tcp_connect_ends none (some ec)) c h v = lost-OneWriter cfg ec c v
handle-OneWriter cfg (tcp_connect_ends none none) c h v = await-OneWriter tls_handshake c v
handle-OneWriter cfg (tls_handshake_ends (some ec)) c h v = lost-OneWriter cfg ec c v
handle-OneWriter cfg (tls_handshake_ends none) c h v = await-OneWriter ws_handshake c v
handle-OneWriter cfg (ws_handshake_ends ec) c h v = on_ws_handshake-OneWriter cfg ec c v
handle-OneWriter cfg (read_ends ec frame) c h v = on_read-OneWriter cfg ec frame c v
handle-OneWriter cfg (write_ends ec) c h v = on_write-OneWriter cfg ec c v
handle-OneWriter cfg (timer_ends tec) c h v =
    by_test (tec || c.stopping) c _ (λ e. v) λ e. start_connect-OneWriter c h v

-- In every run of the websocket client, in which posted calls and the ends of operations come in
-- any order, but a retry only after the writes on the closed transport have ended: a write is in
-- flight just when `writing_` is set, it is one write and that of the front of the queue, and
-- the frames written since the last attempt to connect, followed by the queue, are the frames
-- given to `send` since, in order.
pub Run-OneWriter : (cfg : WsConfig) {c : WsClient} → Run cfg c → OneWriter c
Run-OneWriter cfg started =
    start_connect-OneWriter new_client refl record { in_flight = refl; in_order = refl }
Run-OneWriter cfg (turn e c r h) = handle-OneWriter cfg e c h (Run-OneWriter cfg r)
