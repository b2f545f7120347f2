-- ===== src/Server/DashboardServer/Sessions.antt =====
-- What holds of the sessions in every run.
use Prim.Native.String.{String}
use lockfree_matching_engine.Prelude.{
  ◌≤◌, ◌≡◌, refl, sym, ap, ◌∙◌, Bool, true, false, ◌&&◌, not, List, [], ◌∷◌, ◌++◌, length,
  append_assoc, length-append, if◌then◌else◌, leb, arith,
}
use lockfree_matching_engine.Transport.WriteQueue.{
  is_empty, pop_front, InFlight, queued-InFlight, do_write-InFlight, end_write-InFlight,
  append_some, front_written,
}
use lockfree_matching_engine.Server.DashboardServer.Fitting.{fitting, fitting-fits, fitting-refused}
use lockfree_matching_engine.Server.DashboardServer.{
  DashboardSession, handshake, read, max_queued, do_write, flush_queue, on_handshake, close, queued,
  offered, send, end_write, written, on_write, erased, unread,
}

-- A write is in flight just when the flag is up, it is that of the front of the queue alone, what was
-- written and what waits is what was given while there was room, in order, and the queue is bounded.
-- Before the handshake
-- ends nothing is written.
pub record IsSession (s : DashboardSession) : Type 0 where
  pub in_flight : InFlight s.writing s.queue s.writes
  pub in_order : s.completed ++ s.queue ≡ s.accepted
  pub queued_all : s.accepted ≡ fitting s.given
  pub bounded : length s.queue ≤ max_queued
  pub waiting : s.pending ≡ handshake → s.ready ≡ false
  pub unready : s.ready ≡ false → s.writing ≡ false

abbrev pub Sessions : List DashboardSession → Type 0
Sessions [] = Unit {0}
Sessions (s ∷ ss) = IsSession s × Sessions ss

-- What is kept of a session: it is one, and it is in the set if it was.
pub record Kept (s t : DashboardSession) : Type 0 where
  pub session : IsSession t
  pub same_set : t.in_set ≡ s.in_set

by_test :
    (b : Bool) (s t u : DashboardSession)
    → (b ≡ true → Kept s t)
    → (b ≡ false → Kept s u)
    → Kept s (if b then t else u)
by_test true s t u on off = on refl
by_test false s t u on off = off refl

do_write-Kept :
    (s : DashboardSession)
    → s.ready ≡ true
    → s.writing ≡ false
    → is_empty s.queue ≡ false
    → IsSession s
    → Kept s (do_write s)
unfolding do_write
do_write-Kept s ready idle full v = record {
  session = record {
    in_flight = do_write-InFlight s.writing s.queue s.writes idle full v.in_flight;
    in_order = v.in_order;
    queued_all = v.queued_all;
    bounded = v.bounded;
    waiting = v.waiting;
    unready = λ e. ground arith;
  };
  same_set = refl;
}

flush_queue-Kept :
    (s : DashboardSession)
    → s.ready ≡ true
    → s.writing ≡ false
    → IsSession s
    → Kept s (flush_queue s)
flush_queue-Kept s ready idle v =
    by_test (is_empty s.queue) s s (do_write s) (λ e. record { session = v; same_set = refl })
      λ e. do_write-Kept s ready idle e v

pub on_handshake-Kept :
    (s : DashboardSession) → s.pending ≡ handshake → IsSession s → Kept s (on_handshake s)
unfolding on_handshake
on_handshake-Kept s at v =
    let idle = v.unready (v.waiting at) in
    let k =
      flush_queue-Kept (record s { ready = true; pending = read }) refl idle
        record {
          in_flight = v.in_flight;
          in_order = v.in_order;
          queued_all = v.queued_all;
          bounded = v.bounded;
          waiting = λ e. ground arith;
          unready = λ e. ground arith;
        } in
    record { session = k.session; same_set = k.same_set }

pub close-Kept : (is_open : Bool) (s : DashboardSession) → IsSession s → Kept s (close is_open s)
unfolding close
close-Kept is_open s v =
    by_test is_open s (record s { closing = true }) s
      (λ e. record {
        session = record {
          in_flight = v.in_flight;
          in_order = v.in_order;
          queued_all = v.queued_all;
          bounded = v.bounded;
          waiting = v.waiting;
          unready = v.unready;
        };
        same_set = refl;
      })
      λ e. record { session = v; same_set = refl }

-- A frame that comes to a full queue.
refused-IsSession :
    (frame : String) (s : DashboardSession)
    → leb max_queued (length s.queue) ≡ true
    → IsSession s
    → IsSession (offered frame s)
refused-IsSession frame s full v = record {
  in_flight = v.in_flight;
  in_order = v.in_order;
  queued_all = v.queued_all ∙ sym (fitting-refused s.given frame (length s.queue) full);
  bounded = v.bounded;
  waiting = v.waiting;
  unready = v.unready;
}

queued-IsSession :
    (frame : String) (s : DashboardSession)
    → leb max_queued (length s.queue) ≡ false
    → IsSession s
    → IsSession (queued frame (offered frame s))
queued-IsSession frame s room v = record {
  in_flight = queued-InFlight s.writing s.queue s.writes frame v.in_flight;
  in_order =
      sym (append_assoc s.completed s.queue (frame ∷ [])) ∙ ap (λ xs. xs ++ frame ∷ []) v.in_order;
  queued_all =
      ap (λ xs. xs ++ frame ∷ []) v.queued_all
      ∙ sym (fitting-fits s.given frame (length s.queue) room);
  bounded = ground (arith, length-append s.queue (frame ∷ []));
  waiting = v.waiting;
  unready = v.unready;
}

pub send-Kept :
    (frame : String) (is_open : Bool) (s : DashboardSession)
    → IsSession s
    → Kept s (send frame is_open s)
unfolding send
send-Kept frame is_open s v =
    by_test (leb max_queued (length s.queue)) s _ _
      (λ e.
        let k = close-Kept is_open (offered frame s) (refused-IsSession frame s e v) in
        record { session = k.session; same_set = k.same_set })
      λ e.
        let w = queued-IsSession frame s e v in
        by_test (s.ready && not s.writing) s _ _
          (λ t.
            let k =
              do_write-Kept (queued frame (offered frame s)) (ground arith) (ground arith)
                (append_some s.queue frame) w in
            record { session = k.session; same_set = k.same_set })
          λ t. record { session = w; same_set = refl }

pub erased-IsSession : (s : DashboardSession) → IsSession s → IsSession (erased s)
erased-IsSession s v = record {
  in_flight = v.in_flight;
  in_order = v.in_order;
  queued_all = v.queued_all;
  bounded = v.bounded;
  waiting = v.waiting;
  unready = v.unready;
}

pub unread-IsSession : (s : DashboardSession) → IsSession s → IsSession (unread s)
unread-IsSession s v = record {
  in_flight = v.in_flight;
  in_order = v.in_order;
  queued_all = v.queued_all;
  bounded = v.bounded;
  waiting = λ e. ground arith;
  unready = v.unready;
}

pub end_write-IsSession : (s : DashboardSession) → IsSession s → IsSession (end_write s)
end_write-IsSession s v = record {
  in_flight = end_write-InFlight s.writing s.queue s.writes v.in_flight;
  in_order = v.in_order;
  queued_all = v.queued_all;
  bounded = v.bounded;
  waiting = v.waiting;
  unready = λ e. refl;
}

length-pop_front : (xs : List String) → length (pop_front xs) ≤ length xs
length-pop_front [] = omega arith
length-pop_front (x ∷ xs) = omega arith

-- A session that writes is ready.
writes_ready :
    (ready writing : Bool) (queue writes : List String)
    → InFlight writing queue writes
    → is_empty writes ≡ false
    → (ready ≡ false → writing ≡ false)
    → ready ≡ true
writes_ready true writing queue writes v some_write u = refl
writes_ready false true queue writes v some_write u = sym (u refl)
writes_ready false false queue writes v some_write u = sym some_write ∙ ap is_empty v

pub on_write-Kept :
    (s : DashboardSession) → is_empty s.writes ≡ false → IsSession s → Kept s (on_write s)
unfolding on_write
on_write-Kept s some_write v =
    let ready = writes_ready s.ready s.writing s.queue s.writes v.in_flight some_write v.unready in
    let k = flush_queue-Kept (written s) ready refl record {
      in_flight = end_write-InFlight s.writing s.queue s.writes v.in_flight;
      in_order = front_written s.completed s.queue s.accepted v.in_order;
      queued_all = v.queued_all;
      bounded = omega (arith, length-pop_front s.queue, v.bounded);
      waiting = v.waiting;
      unready = λ e. refl;
    } in
    record { session = k.session; same_set = k.same_set }
