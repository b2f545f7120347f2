-- ===== src/Server/DashboardServer/Broadcast.antt =====
-- What the sessions get of the frames of the timer.
use Prim.Native.String.{String}
use lockfree_matching_engine.Prelude.{
  ℕ, zero, suc, ◌+◌, ◌≤◌, ◌≡◌, sym, ap, Bool, true, false, ◌&&◌, not, List, [], ◌∷◌, ◌++◌, length,
  append_assoc, append-nil, length-append, if◌then◌else◌, leb, arith, subst,
}
use lockfree_matching_engine.Server.DashboardServer.{
  DashboardSession, DashboardServer, max_queued, do_write, queued, offered, send, each_session,
  broadcast, timer_ends, At,
}

-- A session of the set that was given `frames`, and has room for n more.
pub record Receives (frames : List String) (n : ℕ) (s : DashboardSession) : Type 0 where
  pub member : s.in_set ≡ true
  pub given : s.accepted ≡ frames
  pub room : length s.queue + n ≤ max_queued

write_if_idle-Receives :
    (b : Bool) (frames : List String) (n : ℕ) (s : DashboardSession)
    → Receives frames n s
    → Receives frames n (if b then do_write s else s)
unfolding do_write
write_if_idle-Receives true frames n s v = record {
  member = v.member;
  given = v.given;
  room = v.room;
}
write_if_idle-Receives false frames n s v = v

send-Receives :
    (frame : String) (is_open : Bool) (frames : List String) (n : ℕ) (s : DashboardSession)
    → Receives frames (suc n) s
    → Receives (frames ++ frame ∷ []) n (send frame is_open s)
unfolding send
send-Receives frame is_open frames n s v =
    let room = v.room in
    let not_full : leb max_queued (length s.queue) ≡ false = ground arith in
    rw not_full (
      write_if_idle-Receives (s.ready && not s.writing) (frames ++ frame ∷ []) n
        (queued frame (offered frame s))
        record {
          member = v.member;
          given = ap (λ xs. xs ++ frame ∷ []) v.given;
          room = omega (arith, length-append s.queue (frame ∷ []));
        })

each_session-Receives :
    (frame : String) (is_open : ℕ → Bool) (frames : List String) (n i : ℕ)
    (ss : List DashboardSession)
    → At (Receives frames (suc n)) i ss
    → At (Receives (frames ++ frame ∷ []) n) i (each_session (send frame) is_open ss)
each_session-Receives frame is_open frames n i [] at = at
each_session-Receives frame is_open frames n zero (s ∷ ss) at =
    subst (λ b. Receives (frames ++ frame ∷ []) n (if b then send frame (is_open 0) s else s))
      (sym at.member) (send-Receives frame (is_open 0) frames n s at)
each_session-Receives frame is_open frames n (suc i) (s ∷ ss) at =
    each_session-Receives frame (λ j. is_open (suc j)) frames n i ss at

-- Ticks of the timer, each with its frame and what `is_open` returns.
unfoldable pub ticks : List (String × (ℕ → Bool)) → DashboardServer → DashboardServer
ticks [] d = d
ticks ((frame, is_open) ∷ ts) d = ticks ts (timer_ends false frame is_open d)

abbrev pub frames_of : List (String × (ℕ → Bool)) → List String
frames_of [] = []
frames_of ((frame, is_open) ∷ ts) = frame ∷ frames_of ts

timer_ends-broadcast :
    (frame : String) (is_open : ℕ → Bool) (d : DashboardServer)
    → d.stopping ≡ false
    → timer_ends false frame is_open d ≡ broadcast frame is_open d
unfolding timer_ends
timer_ends-broadcast frame is_open d going =
    ap (λ b. if b then record d { armed = false } else broadcast frame is_open d) going

-- If the server is not stopping and a session of the set has room for n frames more than the
-- timer has ticks, then after these ticks the session is still in the set, was given the frame
-- of every tick, in order, and has room for n more, whatever the other sessions are and do not
-- take; each tick called `snapshot_fn` once.
pub ticks-Receives :
    (ts : List (String × (ℕ → Bool))) (frames : List String) (n i : ℕ) (d : DashboardServer)
    → d.stopping ≡ false
    → At (Receives frames (length ts + n)) i d.made
    → At (Receives (frames ++ frames_of ts) n) i (ticks ts d).made
      × ((ticks ts d).snapshots ≡ d.snapshots + length ts)
unfolding ticks
ticks-Receives [] frames n i d going at =
    let none_more : 0 + n ≡ n = omega arith in
    (
      subst (λ fs. At (Receives fs n) i d.made) (sym (append-nil frames))
          (subst (λ m. At (Receives frames m) i d.made) none_more at),
      omega arith,
    )
ticks-Receives ((frame, is_open) ∷ ts) frames n i d going at =
    let one_more : suc (length ts) + n ≡ suc (length ts + n) = omega arith in
    let first =
      each_session-Receives frame is_open frames (length ts + n) i d.made
        (subst (λ m. At (Receives frames m) i d.made) one_more at) in
    let (given, taken) =
      ticks-Receives ts (frames ++ frame ∷ []) n i (broadcast frame is_open d) going first in
    subst
      (λ e.
        At (Receives (frames ++ frame ∷ frames_of ts) n) i (ticks ts e).made
        × ((ticks ts e).snapshots ≡ d.snapshots + suc (length ts)))
      (sym (timer_ends-broadcast frame is_open d going))
      (
        subst (λ fs. At (Receives fs n) i (ticks ts (broadcast frame is_open d)).made)
            (append_assoc frames (frame ∷ []) (frames_of ts)) given,
        omega (arith, taken),
      )
