-- ===== src/Tools/OrderFile.antt =====
-- tools/synthetic_generator.cpp and tools/replay_tool.cpp: the binary file of records, each a tag and
-- the bytes of a message, as one tool writes it and the other reads it.
pub mod RoundTrip
use lockfree_matching_engine.Prelude.{
  ℕ, zero, suc, ◌+◌, ◌≡◌, Bool, true, false, List, [], ◌∷◌, ◌++◌, length, ◌==◌, leb, if◌then◌else◌,
  take, drop,
}
use lockfree_matching_engine.Transport.Message.{
  NewOrderMessage, CancelMessage, EngineMessage, new_order, cancel,
}

abbrev pub tag_new_order : ℕ
tag_new_order = 1

abbrev pub tag_cancel : ℕ
tag_cancel = 2

-- The object representations of the two structs, which are trivially copyable: as many bytes as
-- `sizeof`, and copying them back gives the message.
pub record Layout : Type 0 where
  pub size_new : ℕ
  pub size_cancel : ℕ
  pub new_bytes : NewOrderMessage → List ℕ
  pub cancel_bytes : CancelMessage → List ℕ
  pub new_of : List ℕ → NewOrderMessage
  pub cancel_of : List ℕ → CancelMessage
  pub new_size : (msg : NewOrderMessage) → length (new_bytes msg) ≡ size_new
  pub cancel_size : (msg : CancelMessage) → length (cancel_bytes msg) ≡ size_cancel
  pub new_copied : (msg : NewOrderMessage) → new_of (new_bytes msg) ≡ msg
  pub cancel_copied : (msg : CancelMessage) → cancel_of (cancel_bytes msg) ≡ msg

-- What the generator has written, and its two counts.
pub record Written : Type 0 where
  pub bytes : List ℕ
  pub new_count : ℕ
  pub cancel_count : ℕ

-- The counts of the replay tool, and the messages that it has read, which it does nothing with yet.
pub record Replayed : Type 0 where
  pub new_count : ℕ
  pub cancel_count : ℕ
  pub error_count : ℕ
  pub messages : List EngineMessage

abbrev pub nothing_read : Replayed
nothing_read = record { new_count = 0; cancel_count = 0; error_count = 0; messages = [] }

module _ (layout : Layout) where
  open layout use {size_new, size_cancel, new_bytes, cancel_bytes, new_of, cancel_of}

  abbrev pub record_bytes : EngineMessage → List ℕ
  record_bytes (new_order msg) = tag_new_order ∷ new_bytes msg
  record_bytes (cancel msg) = tag_cancel ∷ cancel_bytes msg

  abbrev pub count_written : EngineMessage → List ℕ → Written → Written
  count_written (new_order msg) bytes w = record {
    bytes = bytes;
    new_count = w.new_count + 1;
    cancel_count = w.cancel_count;
  }
  count_written (cancel msg) bytes w = record {
    bytes = bytes;
    new_count = w.new_count;
    cancel_count = w.cancel_count + 1;
  }

  -- The loop of the generator, on the messages of the workload.
  unfoldable pub write_records : List EngineMessage → Written → Written
  write_records [] w = w
  write_records (msg ∷ msgs) w =
      write_records msgs (count_written msg (w.bytes ++ record_bytes msg) w)

  abbrev pub read_new : List ℕ → Replayed → Replayed
  read_new payload r = record r {
    new_count = r.new_count + 1;
    messages = r.messages ++ new_order (new_of payload) ∷ [];
  }

  abbrev pub read_cancel : List ℕ → Replayed → Replayed
  read_cancel payload r = record r {
    cancel_count = r.cancel_count + 1;
    messages = r.messages ++ cancel (cancel_of payload) ∷ [];
  }

  abbrev pub count_error : Replayed → Replayed
  count_error r = record r { error_count = r.error_count + 1 }

  -- The loop of the replay tool. A payload that is cut short ends it, since the stream has failed.
  unfoldable pub replay_loop : ℕ → List ℕ → Replayed → Replayed
  replay_loop zero bytes r = r
  replay_loop (suc fuel) [] r = r
  replay_loop (suc fuel) (tag ∷ rest) r =
      let on_new = replay_loop fuel (drop size_new rest) (read_new (take size_new rest) r) in
      let on_cancel =
        replay_loop fuel (drop size_cancel rest) (read_cancel (take size_cancel rest) r) in
      if tag == tag_new_order
      then if leb size_new (length rest) then on_new else count_error r
      else if tag == tag_cancel
      then if leb size_cancel (length rest) then on_cancel else count_error r
      else count_error r

  -- A round takes a byte at least.
  unfoldable pub replay_file : List ℕ → Replayed
  unfolding replay_loop
  replay_file bytes = replay_loop (length bytes) bytes nothing_read
