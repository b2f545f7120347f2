-- ===== src/Server/DashboardServer/Runs.antt =====
-- What holds of the sessions, and of the count of clients, in every run.
use Prim.Native.String.{String}
use lockfree_matching_engine.Prelude.{
  ℕ, zero, suc, ◌+◌, ◌≡◌, refl, sym, ap, ◌∙◌, Bool, true, false, ◌||◌, List, [], ◌∷◌, ◌++◌,
  if◌then◌else◌, arith, one_if, Bool-cases, inl, inr,
}
use lockfree_matching_engine.Server.DashboardServer.{
  DashboardSession, DashboardServer, new_session, on_handshake, close, send, end_write, on_write,
  set_size, store_clients, update_at, at_session, erased, drop_session, unread, handshake_ends,
  read_ends, write_ends, accept_ends, each_session, broadcast, timer_ends, start, on_stop, Event,
  accepted_one, handshaken, read_one, written_one, ticked, stopped, handle, Enabled, Run, started,
  turn, At,
}
use lockfree_matching_engine.Server.DashboardServer.Sessions.{
  IsSession, Sessions, Kept, on_handshake-Kept, send-Kept, close-Kept, erased-IsSession,
  unread-IsSession, end_write-IsSession, on_write-Kept,
}

-- A change of the i-th session, which may rely on what enabled it.
update_at-Sessions :
    (P : DashboardSession → Type 0) (f : DashboardSession → DashboardSession)
    → ((s : DashboardSession) → P s → IsSession s → IsSession (f s))
    → (i : ℕ) (ss : List DashboardSession) → At P i ss
    → Sessions ss
    → Sessions (update_at i f ss)
update_at-Sessions P f keep i [] at v = v
update_at-Sessions P f keep zero (s ∷ ss) at (v, vs) = (keep s at v, vs)
update_at-Sessions P f keep (suc i) (s ∷ ss) at (v, vs) =
    (v, update_at-Sessions P f keep i ss at vs)

-- A change of a session that may be there.
update_any-Sessions :
    (f : DashboardSession → DashboardSession)
    → ((s : DashboardSession) → IsSession s → IsSession (f s))
    → (i : ℕ) (ss : List DashboardSession) → Sessions ss
    → Sessions (update_at i f ss)
update_any-Sessions f keep i [] v = v
update_any-Sessions f keep zero (s ∷ ss) (v, vs) = (keep s v, vs)
update_any-Sessions f keep (suc i) (s ∷ ss) (v, vs) = (v, update_any-Sessions f keep i ss vs)

update_at-set_size :
    (P : DashboardSession → Type 0) (f : DashboardSession → DashboardSession)
    → ((s : DashboardSession) → P s → IsSession s → (f s).in_set ≡ s.in_set)
    → (i : ℕ) (ss : List DashboardSession) → At P i ss
    → Sessions ss
    → set_size (update_at i f ss) ≡ set_size ss
update_at-set_size P f keep i [] at v = refl
update_at-set_size P f keep zero (s ∷ ss) at (v, vs) =
    ap (λ b. one_if b + set_size ss) (keep s at v)
update_at-set_size P f keep (suc i) (s ∷ ss) at (v, vs) =
    ap (λ n. one_if s.in_set + n) (update_at-set_size P f keep i ss at vs)

either-IsSession :
    (b : Bool) (t s : DashboardSession) → IsSession t → IsSession s → IsSession (if b then t else s)
either-IsSession true t s v w = v
either-IsSession false t s v w = w

each_session-Sessions :
    (f : Bool → DashboardSession → DashboardSession)
    → ((o : Bool) (s : DashboardSession) → IsSession s → IsSession (f o s))
    → (is_open : ℕ → Bool) (ss : List DashboardSession) → Sessions ss
    → Sessions (each_session f is_open ss)
each_session-Sessions f keep is_open [] v = v
each_session-Sessions f keep is_open (s ∷ ss) (v, vs) = (
  either-IsSession s.in_set (f (is_open 0) s) s (keep (is_open 0) s v) v,
  each_session-Sessions f keep (λ i. is_open (suc i)) ss vs,
)

either_in_set :
    (b : Bool) (t s : DashboardSession)
    → t.in_set ≡ s.in_set
    → (if b then t else s).in_set ≡ s.in_set
either_in_set true t s e = e
either_in_set false t s e = refl

each_session-set_size :
    (frame : String) (is_open : ℕ → Bool) (ss : List DashboardSession)
    → Sessions ss
    → set_size (each_session (send frame) is_open ss) ≡ set_size ss
each_session-set_size frame is_open [] v = refl
each_session-set_size frame is_open (s ∷ ss) (v, vs) =
    let sent = (send-Kept frame (is_open 0) s v).same_set in
    let rest = each_session-set_size frame (λ i. is_open (suc i)) ss vs in
    let same = either_in_set s.in_set (send frame (is_open 0) s) s sent in
    ap (λ b. one_if b + set_size (each_session (send frame) (λ i. is_open (suc i)) ss)) same
    ∙ ap (λ n. one_if s.in_set + n) rest

-- No session is in the set once each of it was erased.
erase_all-set_size :
    (is_open : ℕ → Bool) (ss : List DashboardSession)
    → set_size (each_session (λ o s. erased (close o s)) is_open ss) ≡ 0
erase_all-set_size is_open [] = refl
erase_all-set_size is_open (s ∷ ss) =
    let rest = erase_all-set_size (λ i. is_open (suc i)) ss in
    elim (Bool-cases s.in_set) [ inl e ↦ rw (e, rest) refl | inr e ↦ rw (e, rest) refl ]

Sessions-append : (ss ts : List DashboardSession) → Sessions ss → Sessions ts → Sessions (ss ++ ts)
Sessions-append [] ts v w = w
Sessions-append (s ∷ ss) ts (v, vs) w = (v, Sessions-append ss ts vs w)

-- The client count is the size of the set.
pub record IsServer (d : DashboardServer) : Type 0 where
  pub sessions : Sessions d.made
  pub counted : d.clients ≡ set_size d.made

kept :
    (P : DashboardSession → Type 0) (f : DashboardSession → DashboardSession)
    → ((s : DashboardSession) → P s → IsSession s → Kept s (f s))
    → (i : ℕ) (d : DashboardServer) → At P i d.made
    → IsServer d
    → IsServer (at_session i f d)
kept P f keep i d at v = record {
  sessions = update_at-Sessions P f (λ s p w. (keep s p w).session) i d.made at v.sessions;
  counted =
      v.counted
      ∙ sym (update_at-set_size P f (λ s p w. (keep s p w).same_set) i d.made at v.sessions);
}

drop_session-IsServer :
    (f : DashboardSession → DashboardSession)
    → ((s : DashboardSession) → IsSession s → IsSession (f s))
    → (i : ℕ) (d : DashboardServer) → IsServer d
    → IsServer (drop_session i (at_session i f d))
unfolding drop_session
drop_session-IsServer f keep i d v = record {
  sessions =
      update_any-Sessions erased erased-IsSession i _
        (update_any-Sessions f keep i d.made v.sessions);
  counted = refl;
}

either-IsSession-IsServer :
    (b : Bool) (d e : DashboardServer) → IsServer d → IsServer e → IsServer (if b then d else e)
either-IsSession-IsServer true d e v w = v
either-IsSession-IsServer false d e v w = w

new_session-IsSession : IsSession new_session
new_session-IsSession = record {
  in_flight = refl;
  in_order = refl;
  queued_all = refl;
  bounded = omega arith;
  waiting = λ e. refl;
  unready = λ e. refl;
}

handle-IsServer :
    (e : Event) (d : DashboardServer) → Enabled e d → IsServer d → IsServer (handle e d)
unfolding handle accept_ends handshake_ends read_ends write_ends timer_ends on_stop
handle-IsServer (accepted_one ec) d at v =
    either-IsSession-IsServer (ec || d.stopping) _
      (store_clients (record d { made = d.made ++ new_session ∷ [] }))
      (record { sessions = v.sessions; counted = v.counted })
      (record {
        sessions = Sessions-append d.made (new_session ∷ []) v.sessions (new_session-IsSession, tt);
        counted = refl;
      })
handle-IsServer (handshaken i true) d at v = drop_session-IsServer unread unread-IsSession i d v
handle-IsServer (handshaken i false) d at v = kept _ on_handshake on_handshake-Kept i d at v
handle-IsServer (read_one i true) d at v = drop_session-IsServer unread unread-IsSession i d v
handle-IsServer (read_one i false) d at v = v
handle-IsServer (written_one i true) d at v =
    drop_session-IsServer end_write end_write-IsSession i d v
handle-IsServer (written_one i false) d at v = kept _ on_write on_write-Kept i d at v
handle-IsServer (ticked ec frame is_open) d at v =
    either-IsSession-IsServer (ec || d.stopping) (record d { armed = false })
      (broadcast frame is_open d) (record { sessions = v.sessions; counted = v.counted })
      (record {
        sessions =
            each_session-Sessions (send frame) (λ o s w. (send-Kept frame o s w).session) is_open
              d.made v.sessions;
        counted = v.counted ∙ sym (each_session-set_size frame is_open d.made v.sessions);
      })
handle-IsServer (stopped is_open) d at v = record {
  sessions =
      each_session-Sessions _ (λ o s w. erased-IsSession _ (close-Kept o s w).session) is_open
        d.made v.sessions;
  counted = sym (erase_all-set_size is_open d.made);
}

-- In every run of a dashboard server that listens, in which operations end in any order and with
-- or without an error: `client_count` is the number of sessions in the set, and each session has
-- at most 64 frames in its queue, has a write in flight just when `writing_` is set, which is
-- one write and that of the front of its queue, and has written, and still has to write, just
-- the frames that it was given while fewer than 64 waited, in order.
pub Run-IsServer : {d : DashboardServer} → Run d → IsServer d
unfolding start
Run-IsServer started = record { sessions = tt; counted = refl }
Run-IsServer (turn e d r at) = handle-IsServer e d at (Run-IsServer r)
