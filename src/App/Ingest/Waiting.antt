-- ===== src/App/Ingest/Waiting.antt =====
-- What the ring comes to while the synthetic ingest thread waits for room, and when the wait ends.
use lockfree_matching_engine.Prelude.{
  ℕ, zero, suc, ◌+◌, ◌<◌, ◌≤◌, ◌≡◌, ◌⊎◌, length-append, refl, sym, ap, ◌∙◌, subst, Bool, true,
  false, Option, List, [], ◌∷◌, ◌++◌, append_assoc, append-nil, length, arith, inl, inr,
}
use lockfree_matching_engine.Transport.Message.{EngineMessage}
use lockfree_matching_engine.Transport.SpscQueue.{try_push, try_pop}
use lockfree_matching_engine.Transport.SpscQueue.Sequential.{
  Contains, Pushed, try_push_lem, Popped, try_pop_lem,
}
use lockfree_matching_engine.Feed.CoinbaseFeed.{feed_queue_size}
use lockfree_matching_engine.App.Ingest.{
  InputQueue, Attempt, Wait, pushed, returned, waiting, returned_by, pop_times, Tried, after_pops,
  after_push, push_wait,
}

-- Of `all` the engine thread has taken these, and the ring has the others, in order.
pub record Delivers (taken : List EngineMessage) (q : InputQueue) (all : List EngineMessage)
    : Type 0 where
  pub left : List EngineMessage
  pub in_order : taken ++ left ≡ all
  pub holds : Contains feed_queue_size q left

pub Delivers-nothing :
    (q : InputQueue) (old : List EngineMessage) → Contains feed_queue_size q old → Delivers [] q old
Delivers-nothing q old c = record { left = old; in_order = refl; holds = c }

-- What was taken before stands in front.
pub Delivers-after :
    (got : List EngineMessage) (q : InputQueue) (taken left more old : List EngineMessage)
    → taken ++ left ≡ old
    → Delivers got q (left ++ more)
    → Delivers (taken ++ got) q (old ++ more)
Delivers-after got q taken left more old e d = record {
  left = d.left;
  in_order =
      append_assoc taken got d.left
      ∙ ap (λ xs. taken ++ xs) d.in_order
      ∙ sym (append_assoc taken left more)
      ∙ ap (λ xs. xs ++ more) e;
  holds = d.holds;
}

left_le : (taken left all : List EngineMessage) → taken ++ left ≡ all → length left ≤ length all
left_le taken left all e =
    let same : length (taken ++ left) ≡ length all = ap length e in
    omega (arith, length-append taken left, same)

-- After a pop there is room.
record Freed (n : ℕ) (r : List EngineMessage × InputQueue) (old : List EngineMessage) : Type 0 where
  delivers : Delivers r.0 r.1 old
  room : 0 < n → length delivers.left + 1 < feed_queue_size

by_pop :
    (n : ℕ) (old : List EngineMessage) (r : Option EngineMessage × InputQueue)
    → length old < feed_queue_size
    → Popped feed_queue_size old r
    → ((left : List EngineMessage)
        → Contains feed_queue_size r.1 left
        → Delivers (pop_times n r.1).0 (pop_times n r.1).1 left)
    → Freed (suc n) (returned_by r.0 ++ (pop_times n r.1).0, (pop_times n r.1).1) old
by_pop n [] r l h rest =
    let d = rest [] h.1 in
    let got = (pop_times n r.1).0 in
    let room : length d.left + 1 < feed_queue_size =
      omega (arith, left_le got d.left [] d.in_order) in
    rw h.0 (record {
      delivers = record { left = d.left; in_order = d.in_order; holds = d.holds };
      room = λ some_pop. room;
    })
by_pop n (x ∷ xs) r l h rest =
    let d = rest xs h.1 in
    let got = (pop_times n r.1).0 in
    let room : length d.left + 1 < feed_queue_size =
      omega (arith, left_le got d.left xs d.in_order) in
    rw h.0 (record {
      delivers = record { left = d.left; in_order = ap (λ ys. x ∷ ys) d.in_order; holds = d.holds };
      room = λ some_pop. room;
    })

pop_times-Freed :
    (n : ℕ) (q : InputQueue) (old : List EngineMessage)
    → Contains feed_queue_size q old
    → Freed n (pop_times n q) old
unfolding pop_times
pop_times-Freed zero q old c = record {
  delivers = Delivers-nothing q old c;
  room = λ none_popped. absurd (omega arith);
}
pop_times-Freed (suc n) q old c =
    by_pop n old (try_pop feed_queue_size q) (omega (arith, c.ring.room))
      (try_pop_lem feed_queue_size q old c)
      λ left d. (pop_times-Freed n (try_pop feed_queue_size q).1 left d).delivers

abbrev pub sent_by : Wait → EngineMessage → List EngineMessage
sent_by pushed msg = msg ∷ []
sent_by returned msg = []
sent_by waiting msg = []

-- A wait that ends well has put the message behind the others.
abbrev pub Waited : List EngineMessage → EngineMessage → Tried → Type 0
Waited old msg r = Delivers r.1 r.2 (old ++ sent_by r.0 msg)

Waited-after :
    (taken left old : List EngineMessage) (msg : EngineMessage) (r : Tried)
    → taken ++ left ≡ old
    → Waited left msg r
    → Waited old msg (after_pops taken r)
Waited-after taken left old msg r e d = Delivers-after r.1 r.2 taken left (sent_by r.0 msg) old e d

pub none_more :
    (q : InputQueue) (old : List EngineMessage)
    → Contains feed_queue_size q old
    → Delivers [] q (old ++ [])
none_more q old c = subst (Delivers [] q) (sym (append-nil old)) (Delivers-nothing q old c)

by_push :
    (shutdown : Bool) (old : List EngineMessage) (msg : EngineMessage) (r : Bool × InputQueue)
    (rest : InputQueue → Tried)
    → Pushed feed_queue_size msg old r
    → ((q : InputQueue) → Contains feed_queue_size q old → Waited old msg (rest q))
    → Waited old msg (after_push shutdown r rest)
by_push shutdown old msg (true, q) rest h w = Delivers-nothing q (old ++ msg ∷ []) h.1
by_push true old msg (false, q) rest h w = none_more q old h.1
by_push false old msg (false, q) rest h w = w q h.1

pub push_wait-Waited :
    (attempts : List Attempt) (msg : EngineMessage) (q : InputQueue) (old : List EngineMessage)
    → Contains feed_queue_size q old
    → Waited old msg (push_wait attempts msg q)
unfolding push_wait
push_wait-Waited [] msg q old c = none_more q old c
push_wait-Waited (a ∷ attempts) msg q old c =
    let d = (pop_times-Freed a.popped q old c).delivers in
    let tried = try_push_lem feed_queue_size msg (pop_times a.popped q).1 d.left d.holds in
    Waited-after (pop_times a.popped q).0 d.left old msg _ d.in_order (
      by_push a.shutdown d.left msg (try_push feed_queue_size msg (pop_times a.popped q).1)
        (push_wait attempts msg) tried λ q' c'. push_wait-Waited attempts msg q' d.left c')

-- The engine thread pops before one of the attempts, and the flag is down in those before it.
abbrev pub Served : List Attempt → Type 0
Served [] = ⊥
Served (a ∷ attempts) = (0 < a.popped) ⊎ ((a.shutdown ≡ false) × Served attempts)

by_room :
    (shutdown : Bool) (old : List EngineMessage) (msg : EngineMessage) (r : Bool × InputQueue)
    (rest : InputQueue → Tried)
    → Pushed feed_queue_size msg old r
    → (length old + 1 < feed_queue_size)
      ⊎ ((shutdown ≡ false)
          × ((q : InputQueue) → Contains feed_queue_size q old → (rest q).0 ≡ pushed))
    → (after_push shutdown r rest).0 ≡ pushed
by_room shutdown old msg (true, q) rest h w = refl
by_room shutdown old msg (false, q) rest h (inl room) = absurd (omega (arith, h.0))
by_room true old msg (false, q) rest h (inr (down, w)) = absurd (ground arith)
by_room false old msg (false, q) rest h (inr (down, w)) = w q h.1

pub push_wait-pushed :
    (attempts : List Attempt) (msg : EngineMessage) (q : InputQueue) (old : List EngineMessage)
    → Contains feed_queue_size q old
    → Served attempts
    → (push_wait attempts msg q).0 ≡ pushed
unfolding push_wait
push_wait-pushed [] msg q old c s = absurd s
push_wait-pushed (a ∷ attempts) msg q old c s =
    let f = pop_times-Freed a.popped q old c in
    let d = f.delivers in
    by_room a.shutdown d.left msg (try_push feed_queue_size msg (pop_times a.popped q).1)
      (push_wait attempts msg)
      (try_push_lem feed_queue_size msg (pop_times a.popped q).1 d.left d.holds)
      (elim s [
        | inl some_pop ↦ inl (f.room some_pop)
        | inr (down, later) ↦ inr (down, λ q' c'. push_wait-pushed attempts msg q' d.left c' later)
      ])
