-- ===== src/Server/DashboardServer/Stop.antt =====
-- What a call of `stop` comes to.
use lockfree_matching_engine.Prelude.{
  ℕ, zero, suc, ◌≡◌, refl, Bool, true, false, List, [], ◌∷◌, if◌then◌else◌, Bool-cases, inl, inr,
}
use lockfree_matching_engine.Transport.WriteQueue.{is_empty}
use lockfree_matching_engine.Server.DashboardServer.{
  DashboardSession, DashboardServer, handshake, read, do_write, flush_queue, on_handshake, close,
  update_at, erased, handshake_ends, each_session, on_stop, handshaken, stopped, handle, Run, turn,
  At,
}

-- A session that reads, though it is in no set.
pub record Forgotten (s : DashboardSession) : Type 0 where
  pub reading : s.pending ≡ read
  pub erased_from_set : s.in_set ≡ false

-- A session that waits for its handshake, though it is in no set.
record Unset (s : DashboardSession) : Type 0 where
  shaking : s.pending ≡ handshake
  erased_from_set : s.in_set ≡ false

flush_queue-Forgotten : (s : DashboardSession) → Forgotten s → Forgotten (flush_queue s)
unfolding do_write
flush_queue-Forgotten s v = elim (Bool-cases (is_empty s.queue)) [
  | inl e ↦ rw e v
  | inr e ↦ rw e record { reading = v.reading; erased_from_set = v.erased_from_set }
]

on_handshake-Forgotten : (s : DashboardSession) → Unset s → Forgotten (on_handshake s)
unfolding on_handshake
on_handshake-Forgotten s v =
    flush_queue-Forgotten (record s { ready = true; pending = read })
      record { reading = refl; erased_from_set = v.erased_from_set }

closed-Unset :
    (is_open : Bool) (s : DashboardSession)
    → s.pending ≡ handshake
    → Unset (erased (close is_open s))
unfolding close
closed-Unset true s e = record { shaking = e; erased_from_set = refl }
closed-Unset false s e = record { shaking = e; erased_from_set = refl }

if_in_set-Unset :
    (b : Bool) (t s : DashboardSession)
    → s.in_set ≡ b
    → s.pending ≡ handshake
    → Unset t
    → Unset (if b then t else s)
if_in_set-Unset true t s e h v = v
if_in_set-Unset false t s e h v = record { shaking = h; erased_from_set = e }

each_session-Unset :
    (is_open : ℕ → Bool) (i : ℕ) (ss : List DashboardSession)
    → At (λ s. s.pending ≡ handshake) i ss
    → At Unset i (each_session (λ o s. erased (close o s)) is_open ss)
each_session-Unset is_open i [] at = at
each_session-Unset is_open zero (s ∷ ss) at =
    if_in_set-Unset s.in_set (erased (close (is_open 0) s)) s refl at
      (closed-Unset (is_open 0) s at)
each_session-Unset is_open (suc i) (s ∷ ss) at = each_session-Unset (λ j. is_open (suc j)) i ss at

update_at-At :
    (P Q : DashboardSession → Type 0) (f : DashboardSession → DashboardSession)
    → ((s : DashboardSession) → P s → Q (f s))
    → (i : ℕ) (ss : List DashboardSession) → At P i ss
    → At Q i (update_at i f ss)
update_at-At P Q f g i [] at = at
update_at-At P Q f g zero (s ∷ ss) at = g s at
update_at-At P Q f g (suc i) (s ∷ ss) at = update_at-At P Q f g i ss at

At-map :
    (P Q : DashboardSession → Type 0)
    → ((s : DashboardSession) → P s → Q s)
    → (i : ℕ) (ss : List DashboardSession) → At P i ss
    → At Q i ss
At-map P Q g i [] at = at
At-map P Q g zero (s ∷ ss) at = g s at
At-map P Q g (suc i) (s ∷ ss) at = At-map P Q g i ss at

-- The server after `stop` and a handshake that then ends well.
abbrev pub stopped_then_shaken : (ℕ → Bool) → ℕ → DashboardServer → DashboardServer
stopped_then_shaken is_open i d = handle (handshaken i false) (handle (stopped is_open) d)

-- A server that was stopped, and that has a session which reads on.
pub record HangsOn (i : ℕ) (d : DashboardServer) : Type 0 where
  pub run : Run d
  pub stopping : d.stopping ≡ true
  pub no_clients : d.clients ≡ 0
  pub forgotten : At Forgotten i d.made

-- In any run of a server whose thread is joinable and in which a session still waits for its
-- handshake, if `stop` is called and the handshake then ends well, that is again a run, in which
-- the server is stopping, counts no client and has that session in no set, while the session has
-- a read in flight.
pub stopped_while_shaking :
    (is_open : ℕ → Bool) (i : ℕ) (d : DashboardServer)
    → Run d
    → d.joinable ≡ true
    → At (λ s. s.pending ≡ handshake) i d.made
    → HangsOn i (stopped_then_shaken is_open i d)
unfolding handle handshake_ends on_stop
stopped_while_shaking is_open i d r joinable at =
    let unset = each_session-Unset is_open i d.made at in
    record {
      run =
          turn (handshaken i false) _ (turn (stopped is_open) d r joinable)
            (At-map Unset (λ s. s.pending ≡ handshake) (λ s v. v.shaking) i _ unset);
      stopping = refl;
      no_clients = refl;
      forgotten = update_at-At Unset Forgotten on_handshake on_handshake-Forgotten i _ unset;
    }
