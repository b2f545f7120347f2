-- ===== src/Transport/WriteQueue.antt =====
-- The queue of frames of a websocket session, in feed/ws_client.h and server/ws_server.cpp: the writes
-- that are in flight, and what is written of what was queued.
use Prim.Native.String.{String}
use lockfree_matching_engine.Prelude.{
  ◌≡◌, refl, ap, ◌∙◌, Bool, true, false, List, [], ◌∷◌, ◌++◌, append_assoc, arith,
}

abbrev pub is_empty : List String → Bool
is_empty [] = true
is_empty (x ∷ xs) = false

abbrev pub pop_front : List String → List String
pop_front [] = []
pop_front (x ∷ xs) = xs

-- The first argument of `put_front` is the queue whose front goes into flight.
abbrev pub put_front : List String → List String → List String
put_front [] inflight = inflight
put_front (x ∷ xs) inflight = x ∷ inflight

abbrev pub front_of : List String → List String
front_of [] = []
front_of (x ∷ xs) = x ∷ []

-- The writes in flight, by the flag and the queue.
abbrev pub InFlight : Bool → List String → List String → Type 0
InFlight false queue writes = writes ≡ []
InFlight true [] writes = ⊥
InFlight true (x ∷ queue) writes = writes ≡ x ∷ []

pub queued-InFlight :
    (writing : Bool) (queue writes : List String) (msg : String)
    → InFlight writing queue writes
    → InFlight writing (queue ++ msg ∷ []) writes
queued-InFlight false queue writes msg v = v
queued-InFlight true [] writes msg v = absurd v
queued-InFlight true (x ∷ queue) writes msg v = v

pub do_write-InFlight :
    (writing : Bool) (queue writes : List String)
    → writing ≡ false
    → is_empty queue ≡ false
    → InFlight writing queue writes
    → InFlight true queue (put_front queue writes)
do_write-InFlight false [] writes idle full v = absurd (ground arith)
do_write-InFlight false (x ∷ queue) writes idle full v = ap (λ w. x ∷ w) v
do_write-InFlight true queue writes idle full v = absurd (ground arith)

-- Where no write is in flight, none is after its flag is lowered.
pub end_write-InFlight :
    (writing : Bool) (queue writes : List String)
    → InFlight writing queue writes
    → pop_front writes ≡ []
end_write-InFlight false queue writes v = ap pop_front v
end_write-InFlight true [] writes v = absurd v
end_write-InFlight true (x ∷ queue) writes v = ap pop_front v

pub none_in_flight : (writes : List String) → is_empty writes ≡ true → writes ≡ []
none_in_flight [] e = refl
none_in_flight (x ∷ writes) e = absurd (ground arith)

pub append_some : (xs : List String) (x : String) → is_empty (xs ++ x ∷ []) ≡ false
append_some [] x = refl
append_some (y ∷ xs) x = refl

-- The frame at the front goes from the queue to the written ones.
pub front_written :
    (done queue all : List String)
    → done ++ queue ≡ all
    → (done ++ front_of queue) ++ pop_front queue ≡ all
front_written done [] all e = append_assoc done [] [] ∙ e
front_written done (x ∷ queue) all e = append_assoc done (x ∷ []) queue ∙ e
