-- ===== src/Server/DashboardServer.antt =====
-- server/ws_server.h and .cpp: the broadcast server as the handlers that its one thread runs, with the
-- sessions of the browsers. An `ec` is whether an operation ends in an error; that and what `is_open`
-- returns are arguments.
pub mod Fitting
pub mod Sessions
pub mod Runs
pub mod Broadcast
pub mod Stop
use Prim.Native.String.{String}
use lockfree_matching_engine.Prelude.{
  ℕ, zero, suc, ◌+◌, ◌≤◌, ◌≡◌, Bool, true, false, ◌||◌, ◌&&◌, not, List, [], ◌∷◌, ◌++◌, length,
  if◌then◌else◌, leb, one_if, ◌==◌,
}
use lockfree_matching_engine.Transport.WriteQueue.{is_empty, pop_front, put_front, front_of}

-- The operation of a session that is in flight besides a write and a close.
pub data Pending : Type 0 where
  nothing handshake read : Pending

-- `in_set` is whether the server's set has the session; a session that was erased lives on in the
-- handlers that it waits for. `writes` are the frames of the async_writes in flight. Kept for the
-- statements: `given` has the frame of each call of `send` with the number of frames that waited
-- then, `accepted` the frames that were queued, and `completed` those that were written.
pub record DashboardSession : Type 0 where
  pub queue : List String
  pub ready : Bool
  pub writing : Bool
  pub closing : Bool
  pub pending : Pending
  pub in_set : Bool
  pub writes : List String
  pub given : List (String × ℕ)
  pub accepted : List String
  pub completed : List String

abbrev pub max_queued : ℕ
max_queued = 64

-- A session that was made, inserted and started.
abbrev pub new_session : DashboardSession
new_session = record {
  queue = [];
  ready = false;
  writing = false;
  closing = false;
  pending = handshake;
  in_set = true;
  writes = [];
  given = [];
  accepted = [];
  completed = [];
}

unfoldable pub do_write : DashboardSession → DashboardSession
do_write s = record s { writing = true; writes = put_front s.queue s.writes }

abbrev pub flush_queue : DashboardSession → DashboardSession
flush_queue s = if is_empty s.queue then s else do_write s

unfoldable pub on_handshake : DashboardSession → DashboardSession
on_handshake s = flush_queue (record s { ready = true; pending = read })

unfoldable pub close : Bool → DashboardSession → DashboardSession
close is_open s = if is_open then record s { closing = true } else s

abbrev pub queued : String → DashboardSession → DashboardSession
queued frame s = record s { queue = s.queue ++ frame ∷ []; accepted = s.accepted ++ frame ∷ [] }

abbrev pub write_if_idle : DashboardSession → DashboardSession
write_if_idle s = if s.ready && not s.writing then do_write s else s

abbrev pub offered : String → DashboardSession → DashboardSession
offered frame s = record s { given = s.given ++ (frame, length s.queue) ∷ [] }

unfoldable pub send : String → Bool → DashboardSession → DashboardSession
send frame is_open before =
    let s = offered frame before in
    if leb max_queued (length s.queue) then close is_open s else write_if_idle (queued frame s)

-- The write that ends is no longer in flight.
abbrev pub end_write : DashboardSession → DashboardSession
end_write s = record s { writing = false; writes = pop_front s.writes }

abbrev pub written : DashboardSession → DashboardSession
written s = record (end_write s) {
  queue = pop_front s.queue;
  completed = s.completed ++ front_of s.queue;
}

unfoldable pub on_write : DashboardSession → DashboardSession
on_write s = flush_queue (written s)

-- `made` are the sessions in the order they were made: a session is known by its place.
pub record DashboardServer : Type 0 where
  pub made : List DashboardSession
  pub clients : ℕ
  pub accepting : Bool
  pub armed : Bool
  pub joinable : Bool
  pub stopping : Bool
  pub snapshots : ℕ

abbrev pub new_server : DashboardServer
new_server = record {
  made = [];
  clients = 0;
  accepting = false;
  armed = false;
  joinable = false;
  stopping = false;
  snapshots = 0;
}

-- `sessions_.size()`.
abbrev pub set_size : List DashboardSession → ℕ
set_size [] = 0
set_size (s ∷ ss) = one_if s.in_set + set_size ss

-- `clients_.store(sessions_.size())`.
abbrev pub store_clients : DashboardServer → DashboardServer
store_clients d = record d { clients = set_size d.made }

abbrev pub update_at :
    ℕ → (DashboardSession → DashboardSession) → List DashboardSession → List DashboardSession
update_at i f [] = []
update_at zero f (s ∷ ss) = f s ∷ ss
update_at (suc i) f (s ∷ ss) = s ∷ update_at i f ss

abbrev pub at_session :
    ℕ → (DashboardSession → DashboardSession) → DashboardServer → DashboardServer
at_session i f d = record d { made = update_at i f d.made }

abbrev pub erased : DashboardSession → DashboardSession
erased s = record s { in_set = false }

unfoldable pub drop_session : ℕ → DashboardServer → DashboardServer
drop_session i d = store_clients (at_session i erased d)

abbrev pub unread : DashboardSession → DashboardSession
unread s = record s { pending = nothing }

unfoldable pub handshake_ends : ℕ → Bool → DashboardServer → DashboardServer
handshake_ends i true d = drop_session i (at_session i unread d)
handshake_ends i false d = at_session i on_handshake d

-- A frame that is read is consumed, and the session reads on.
unfoldable pub read_ends : ℕ → Bool → DashboardServer → DashboardServer
read_ends i true d = drop_session i (at_session i unread d)
read_ends i false d = d

unfoldable pub write_ends : ℕ → Bool → DashboardServer → DashboardServer
write_ends i true d = drop_session i (at_session i end_write d)
write_ends i false d = at_session i on_write d

unfoldable pub accept_ends : Bool → DashboardServer → DashboardServer
accept_ends ec d =
    if ec || d.stopping
    then record d { accepting = false }
    else store_clients (record d { made = d.made ++ new_session ∷ [] })

-- A call on each session of the set, with what `is_open` returns for the i-th.
abbrev pub each_session :
    (Bool → DashboardSession → DashboardSession)
    → (ℕ → Bool)
    → List DashboardSession
    → List DashboardSession
each_session f is_open [] = []
each_session f is_open (s ∷ ss) =
    (if s.in_set then f (is_open 0) s else s) ∷ each_session f (λ i. is_open (suc i)) ss

abbrev pub broadcast : String → (ℕ → Bool) → DashboardServer → DashboardServer
broadcast frame is_open d = record d {
  made = each_session (send frame) is_open d.made;
  snapshots = d.snapshots + 1;
}

-- Where the set is empty, the broadcast takes a snapshot and sends nothing.
unfoldable pub timer_ends : Bool → String → (ℕ → Bool) → DashboardServer → DashboardServer
timer_ends ec frame is_open d =
    if ec || d.stopping then record d { armed = false } else broadcast frame is_open d

-- Whether the acceptor could be opened, bound and made to listen is an argument.
unfoldable pub start : Bool → DashboardServer → Bool × DashboardServer
start true d = (true, record d { accepting = true; armed = true; joinable = true })
start false d = (false, d)

-- What `stop` posts. The cancelled wait and the closed acceptor still call their handlers.
unfoldable pub on_stop : (ℕ → Bool) → DashboardServer → DashboardServer
on_stop is_open d = record d {
  stopping = true;
  made = each_session (λ o s. erased (close o s)) is_open d.made;
  clients = 0;
}

-- A turn of the server's thread.
pub data Event : Type 0 where
  accepted_one : Bool → Event
  handshaken read_one written_one : ℕ → Bool → Event
  ticked : Bool → String → (ℕ → Bool) → Event
  stopped : (ℕ → Bool) → Event

unfoldable pub handle : Event → DashboardServer → DashboardServer
handle (accepted_one ec) = accept_ends ec
handle (handshaken i ec) = handshake_ends i ec
handle (read_one i ec) = read_ends i ec
handle (written_one i ec) = write_ends i ec
handle (ticked ec frame is_open) = timer_ends ec frame is_open
handle (stopped is_open) = on_stop is_open

-- The i-th session satisfies `P`.
abbrev pub At : (DashboardSession → Type 0) → ℕ → List DashboardSession → Type 0
At P i [] = ⊥
At P zero (s ∷ ss) = P s
At P (suc i) (s ∷ ss) = At P i ss

-- An operation ends only if it is in flight.
abbrev pub Enabled : Event → DashboardServer → Type 0
Enabled (accepted_one ec) d = d.accepting ≡ true
Enabled (handshaken i ec) d = At (λ s. s.pending ≡ handshake) i d.made
Enabled (read_one i ec) d = At (λ s. s.pending ≡ read) i d.made
Enabled (written_one i ec) d = At (λ s. is_empty s.writes ≡ false) i d.made
Enabled (ticked ec frame is_open) d = d.armed ≡ true
Enabled (stopped is_open) d = d.joinable ≡ true

-- What a server that listens can come to.
pub data Run : DashboardServer → Type 0 where
  started : Run (start true new_server).1
  turn : (e : Event) (d : DashboardServer) → Run d → Enabled e d → Run (handle e d)
