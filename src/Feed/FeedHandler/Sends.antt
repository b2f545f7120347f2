-- ===== src/Feed/FeedHandler/Sends.antt =====
-- What a part of `parse` amounts to for the receiver of its messages, and how parts add up.
use lockfree_matching_engine.Prelude.{
  ◌≤◌, ◌+◌, ◌≡◌, ◌∙◌, some, [], ◌++◌, length, length-append, arith,
}
use lockfree_matching_engine.Transport.Intake.{Outstanding, replay, replay-append}
use lockfree_matching_engine.Feed.FeedHandler.{FeedHandler, Appended}
use lockfree_matching_engine.Feed.FeedHandler.Live.{LevelKey}
use lockfree_matching_engine.Feed.FeedHandler.Mirror.{LevelDepth, Mirrors}
use lockfree_matching_engine.Feed.FeedHandler.Changes.{Mirrors-same, replay-nil}

-- What a handler and the messages that it appends come to, for a receiver with the orders `o`: it
-- can act on each message, and the live levels then mirror its orders, at the depth `d`.
pub record Sends (h : FeedHandler) (r : Appended) (o : Outstanding) (d : LevelDepth) : Type 0 where
  pub orders : Outstanding
  pub replayed : replay r.1 o ≡ some orders
  pub mirrors : Mirrors r.0.live r.0.next_id orders d
  pub ids : r.0.next_id ≤ h.next_id + length r.1

-- One after the other.
pub Sends-append :
    (h : FeedHandler) (r s : Appended) (o : Outstanding) {d d' : LevelDepth}
    → (first : Sends h r o d) → Sends r.0 s first.orders d'
    → Sends h (s.0, r.1 ++ s.1) o d'
Sends-append h r s o first second = record {
  orders = second.orders;
  replayed = replay-append r.1 s.1 o first.orders first.replayed ∙ second.replayed;
  mirrors = second.mirrors;
  ids = omega (arith, first.ids, second.ids, length-append r.1 s.1);
}

pub Sends-same :
    {h : FeedHandler} {r : Appended} {o : Outstanding} {d d' : LevelDepth}
    → ((k : LevelKey) → d' k ≡ d k)
    → Sends h r o d
    → Sends h r o d'
Sends-same same s = record {
  orders = s.orders;
  replayed = s.replayed;
  mirrors = Mirrors-same same s.mirrors;
  ids = s.ids;
}

-- Nothing is sent.
pub Sends-none :
    (h h' : FeedHandler) {o : Outstanding} {d : LevelDepth}
    → h'.live ≡ h.live
    → h'.next_id ≡ h.next_id
    → Mirrors h.live h.next_id o d
    → Sends h (h', []) o d
Sends-none h h' {o} e i m = record {
  orders = o;
  replayed = replay-nil o;
  mirrors = rw (e, i) m;
  ids = omega (arith, i);
}
