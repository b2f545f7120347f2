-- ===== src/Feed/FeedHandler/Book.antt =====
-- The messages of a sequence of frames, for a receiver that starts with no order.
use Prim.Native.String.{String}
use lockfree_matching_engine.Prelude.{
  ℕ, ◌<◌, ◌≤◌, ◌^◌, ◌+◌, ◌≡◌, refl, ap, ◌∙◌, some, List, [], ◌∷◌, ◌++◌, length, length-append,
  arith,
}
use lockfree_matching_engine.Core.Types.{Timestamp}
use lockfree_matching_engine.Transport.Intake.{Outstanding, replay, replay-append, no_orders}
use lockfree_matching_engine.Transport.Message.{EngineMessage}
use lockfree_matching_engine.Feed.FeedHandler.{Dom, FeedHandler, new_handler, Appended, parse_frame}
use lockfree_matching_engine.Feed.FeedHandler.Decimals.{Doubles}
use lockfree_matching_engine.Feed.FeedHandler.Live.{find_level}
use lockfree_matching_engine.Feed.FeedHandler.Mirror.{LevelDepth, no_depth, Mirrors}
use lockfree_matching_engine.Feed.FeedHandler.Changes.{replay-nil}
use lockfree_matching_engine.Feed.FeedHandler.Frames.{
  parse_frame-Sends, parse_all, frame_depth, frames_depth, parse_lem,
}

-- A receiver with no order can act on each of the messages sent, and the live levels then mirror
-- its orders, at the depth `d`; each identifier used is the identifier of a message sent.
pub record InStep (r : Appended) (d : LevelDepth) : Type 0 where
  pub orders : Outstanding
  pub replayed : replay r.1 no_orders ≡ some orders
  pub mirrors : Mirrors r.0.live r.0.next_id orders d
  pub ids : r.0.next_id ≤ length r.1 + 1

module _ (dom : Dom) (doubles : Doubles) where
  pub parse_all-step :
      (ts : Timestamp) (raw_json : String) (frames : List (Timestamp × String))
      (out : List EngineMessage) (h : FeedHandler)
      → let r = parse_frame dom doubles ts raw_json h in
        parse_all dom doubles ((ts, raw_json) ∷ frames) out h
        ≡ parse_all dom doubles frames (out ++ r.1) r.0
  parse_all-step ts raw_json frames out h =
      ap (λ (x : FeedHandler × List EngineMessage × ℕ). parse_all dom doubles frames x.1 x.0)
        (parse_lem dom doubles ts raw_json out h)

  length-parse_all :
      (frames : List (Timestamp × String)) (out : List EngineMessage) (h : FeedHandler)
      → length out ≤ length (parse_all dom doubles frames out h).1
  length-parse_all [] out h = omega arith
  length-parse_all ((ts, raw_json) ∷ frames) out h =
      let r = parse_frame dom doubles ts raw_json h in
      rw (parse_all-step ts raw_json frames out h)
        (omega (arith, length-append out r.1, length-parse_all frames (out ++ r.1) r.0))

  parse_frame-InStep :
      (ts : Timestamp) (raw_json : String) (out : List EngineMessage) (h : FeedHandler)
      (d : LevelDepth)
      → InStep (h, out) d
      → let r = parse_frame dom doubles ts raw_json h in
        length (out ++ r.1) + 1 < 2 ^ 64
        → InStep (r.0, out ++ r.1) (frame_depth dom doubles raw_json d)
  parse_frame-InStep ts raw_json out h d s room =
      let r = parse_frame dom doubles ts raw_json h in
      let e = length-append out r.1 in
      let f =
        parse_frame-Sends dom doubles ts raw_json h s.orders d s.mirrors (omega (arith, s.ids)) in
      record {
        orders = f.orders;
        replayed = replay-append out r.1 no_orders s.orders s.replayed ∙ f.replayed;
        mirrors = f.mirrors;
        ids = omega (arith, f.ids, s.ids);
      }

  parse_all-InStep :
      (frames : List (Timestamp × String)) (out : List EngineMessage) (h : FeedHandler)
      (d : LevelDepth)
      → InStep (h, out) d
      → length (parse_all dom doubles frames out h).1 + 1 < 2 ^ 64
      → InStep (parse_all dom doubles frames out h) (frames_depth dom doubles frames d)
  parse_all-InStep [] out h d s room = s
  parse_all-InStep ((ts, raw_json) ∷ frames) out h d s room =
      let r = parse_frame dom doubles ts raw_json h in
      let e = parse_all-step ts raw_json frames out h in
      let room' : length (parse_all dom doubles frames (out ++ r.1) r.0).1 + 1 < 2 ^ 64 =
        rw (← e) room in
      rw e (
        parse_all-InStep frames (out ++ r.1) r.0 (frame_depth dom doubles raw_json d)
          (parse_frame-InStep ts raw_json out h d s
            (omega (arith, length-parse_all frames (out ++ r.1) r.0)))
          room')

  new_handler-InStep : InStep (new_handler, []) no_depth
  unfolding find_level
  new_handler-InStep = record {
    orders = no_orders;
    replayed = replay-nil no_orders;
    mirrors = record {
      backed = λ key id e. cc;
      absent = λ key e. refl;
      known = λ id msg e. cc;
      fresh = λ id msg e. cc;
      single = tt;
    };
    ids = omega arith;
  }

  -- For any sequence of frames parsed from a new handler, if fewer than 2^64 - 1 messages come
  -- of them: a receiver that starts with no order can act on each of the messages (a new order
  -- has an identifier that is not in use, a cancel one that is), and it then has one order for
  -- each level that the frames leave with a quantity, at that level and of that quantity, under
  -- the identifier that the handler has for it, and no other order.
  pub parse_all_lem :
      (frames : List (Timestamp × String))
      → length (parse_all dom doubles frames [] new_handler).1 + 1 < 2 ^ 64
      → InStep
          (parse_all dom doubles frames [] new_handler)
          (frames_depth dom doubles frames no_depth)
  parse_all_lem frames room =
      parse_all-InStep frames [] new_handler no_depth new_handler-InStep room
