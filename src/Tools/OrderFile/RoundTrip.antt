-- ===== src/Tools/OrderFile/RoundTrip.antt =====
-- What the generator writes is what the replay tool reads.
use lockfree_matching_engine.Prelude.{
  ℕ, zero, suc, ◌+◌, ◌-◌, ◌≤◌, ◌<◌, ◌≡◌, refl, sym, ap, ◌∙◌, true, false, List, [], ◌∷◌, ◌++◌,
  length, length-append, leb, take, drop, take-append_left, drop-append_left, length-drop,
  length-take, append_assoc, append-nil, arith,
}
use lockfree_matching_engine.Transport.Message.{EngineMessage, new_order, cancel}
use lockfree_matching_engine.Tools.OrderFile.{
  Layout, Written, Replayed, nothing_read, record_bytes, count_written, write_records, read_new,
  read_cancel, count_error, replay_loop, replay_file,
}

abbrev pub news_in : List EngineMessage → ℕ
news_in [] = 0
news_in (new_order msg ∷ msgs) = news_in msgs + 1
news_in (cancel msg ∷ msgs) = news_in msgs

abbrev pub cancels_in : List EngineMessage → ℕ
cancels_in [] = 0
cancels_in (new_order msg ∷ msgs) = cancels_in msgs
cancels_in (cancel msg ∷ msgs) = cancels_in msgs + 1

abbrev pub nothing_written : Written
nothing_written = record { bytes = []; new_count = 0; cancel_count = 0 }

suc_add : (m n : ℕ) → suc m + n ≡ suc (m + n)
suc_add m n = omega arith

module _ (layout : Layout) where
  abbrev records_bytes : List EngineMessage → List ℕ
  records_bytes [] = []
  records_bytes (msg ∷ msgs) = record_bytes layout msg ++ records_bytes msgs

  write_records-bytes :
      (msgs : List EngineMessage) (w : Written)
      → write_records layout msgs w ≡ record {
        bytes = w.bytes ++ records_bytes msgs;
        new_count = w.new_count + news_in msgs;
        cancel_count = w.cancel_count + cancels_in msgs;
      }
  unfolding write_records
  write_records-bytes [] w = ground (arith, append-nil w.bytes)
  write_records-bytes (new_order msg ∷ msgs) w =
      write_records-bytes msgs
        (count_written layout (new_order msg) (w.bytes ++ record_bytes layout (new_order msg)) w)
      ∙ ground
          (arith, append_assoc w.bytes (record_bytes layout (new_order msg)) (records_bytes msgs))
  write_records-bytes (cancel msg ∷ msgs) w =
      write_records-bytes msgs
        (count_written layout (cancel msg) (w.bytes ++ record_bytes layout (cancel msg)) w)
      ∙ ground (arith, append_assoc w.bytes (record_bytes layout (cancel msg)) (records_bytes msgs))

  replay_one :
      (fuel : ℕ) (msg : EngineMessage) (rest : List ℕ) (r : Replayed)
      → replay_loop layout (suc fuel) (record_bytes layout msg ++ rest) r
        ≡ replay_loop layout fuel rest (record {
          new_count = r.new_count + news_in (msg ∷ []);
          cancel_count = r.cancel_count + cancels_in (msg ∷ []);
          error_count = r.error_count;
          messages = r.messages ++ msg ∷ [];
        })
  unfolding replay_loop
  replay_one fuel (new_order msg) rest r =
      let bytes = layout.new_bytes msg in
      let n = layout.new_size msg in
      let fits : leb layout.size_new (length (bytes ++ rest)) ≡ true =
        ground (arith, length-append bytes rest) in
      let left : drop layout.size_new (bytes ++ rest) ≡ rest =
        rw (← n) (drop-append_left bytes rest) in
      let payload : layout.new_of (take layout.size_new (bytes ++ rest)) ≡ msg =
        rw (← n, take-append_left bytes rest) (layout.new_copied msg) in
      rw (fits, left, payload) (ap (replay_loop layout fuel rest) (ground arith))
  replay_one fuel (cancel msg) rest r =
      let bytes = layout.cancel_bytes msg in
      let n = layout.cancel_size msg in
      let fits : leb layout.size_cancel (length (bytes ++ rest)) ≡ true =
        ground (arith, length-append bytes rest) in
      let left : drop layout.size_cancel (bytes ++ rest) ≡ rest =
        rw (← n) (drop-append_left bytes rest) in
      let payload : layout.cancel_of (take layout.size_cancel (bytes ++ rest)) ≡ msg =
        rw (← n, take-append_left bytes rest) (layout.cancel_copied msg) in
      rw (fits, left, payload) (ap (replay_loop layout fuel rest) (ground arith))

  abbrev pub with_records : List EngineMessage → Replayed → Replayed
  with_records msgs r = record {
    new_count = r.new_count + news_in msgs;
    cancel_count = r.cancel_count + cancels_in msgs;
    error_count = r.error_count;
    messages = r.messages ++ msgs;
  }

  -- The loop reads whole records one by one, and goes on with what follows them.
  replay_records :
      (msgs : List EngineMessage) (fuel : ℕ) (rest : List ℕ) (r : Replayed)
      → replay_loop layout (length msgs + fuel) (records_bytes msgs ++ rest) r
        ≡ replay_loop layout fuel rest (with_records msgs r)
  replay_records [] fuel rest r =
      rw (zero_add fuel) (ap (replay_loop layout fuel rest) (ground (arith, append-nil r.messages)))
    where
      zero_add : (n : ℕ) → 0 + n ≡ n
      zero_add n = omega arith
  replay_records (msg ∷ msgs) fuel rest r =
      let r1 = with_records (msg ∷ []) r in
      rw
        (
          suc_add (length msgs) fuel,
          append_assoc (record_bytes layout msg) (records_bytes msgs) rest,
        )
        (replay_one (length msgs + fuel) msg (records_bytes msgs ++ rest) r
          ∙ replay_records msgs fuel rest r1
          ∙ ap (replay_loop layout fuel rest) (both msg))
    where
      both :
          (msg : EngineMessage)
          → with_records msgs (with_records (msg ∷ []) r) ≡ with_records (msg ∷ msgs) r
      both (new_order msg) = ground (arith, append_assoc r.messages (new_order msg ∷ []) msgs)
      both (cancel msg) = ground (arith, append_assoc r.messages (cancel msg ∷ []) msgs)

  replay_loop-nil : (fuel : ℕ) (r : Replayed) → replay_loop layout fuel [] r ≡ r
  unfolding replay_loop
  replay_loop-nil zero r = refl
  replay_loop-nil (suc fuel) r = refl

  -- With fuel for each byte, more fuel changes nothing.
  pub replay_loop-fuel :
      (fuel more : ℕ) (bytes : List ℕ) (r : Replayed)
      → length bytes ≤ fuel
      → replay_loop layout (fuel + more) bytes r ≡ replay_loop layout fuel bytes r
  unfolding replay_loop
  replay_loop-fuel fuel more [] r h = replay_loop-nil (fuel + more) r ∙ sym (replay_loop-nil fuel r)
  replay_loop-fuel zero more (tag ∷ rest) r h = absurd (omega arith)
  replay_loop-fuel (suc fuel) more (tag ∷ rest) r h =
      let on_new =
        replay_loop-fuel fuel more (drop layout.size_new rest)
          (read_new layout (take layout.size_new rest) r)
          (omega (arith, length-drop layout.size_new rest)) in
      let on_cancel =
        replay_loop-fuel fuel more (drop layout.size_cancel rest)
          (read_cancel layout (take layout.size_cancel rest) r)
          (omega (arith, length-drop layout.size_cancel rest)) in
      rw (suc_add fuel more, on_new, on_cancel)

  length-records_bytes : (msgs : List EngineMessage) → length msgs ≤ length (records_bytes msgs)
  length-records_bytes [] = omega arith
  length-records_bytes (msg ∷ msgs) =
      let e = length-append (record_bytes layout msg) (records_bytes msgs) in
      omega (arith, length-records_bytes msgs, tagged msg)
    where
      tagged : (msg : EngineMessage) → 1 ≤ length (record_bytes layout msg)
      tagged (new_order msg) = omega arith
      tagged (cancel msg) = omega arith

  -- A file of whole records and what follows them.
  replay_file-records :
      (msgs : List EngineMessage) (rest : List ℕ)
      → (more : ℕ) × (replay_file layout (records_bytes msgs ++ rest)
          ≡ replay_loop layout (length rest + more) rest (with_records msgs nothing_read))
  unfolding replay_file
  replay_file-records msgs rest =
      let bytes = records_bytes msgs in
      let more = length bytes - length msgs in
      let e : length (bytes ++ rest) ≡ length msgs + (length rest + more) =
        omega (arith, length-append bytes rest, length-records_bytes msgs) in
      (
        more,
        ap (λ n. replay_loop layout n (bytes ++ rest) nothing_read) e
            ∙ replay_records msgs (length rest + more) rest nothing_read,
      )

  -- For any messages and a layout whose byte copies restore the structs: the replay tool reads
  -- back the messages that the generator has written, in their order, with the generator's two
  -- counts and no error.
  pub replay_file-write_records :
      (msgs : List EngineMessage)
      → let w = write_records layout msgs nothing_written in
        replay_file layout w.bytes ≡ record {
          new_count = w.new_count;
          cancel_count = w.cancel_count;
          error_count = 0;
          messages = msgs;
        }
  replay_file-write_records msgs =
      let (more, e) = replay_file-records msgs [] in
      rw (write_records-bytes msgs nothing_written, ← append-nil (records_bytes msgs))
        (e ∙ replay_loop-nil (0 + more) (with_records msgs nothing_read))

  replay_cut :
      (msg : EngineMessage) (n more : ℕ) (r : Replayed)
      → n + 1 < length (record_bytes layout msg)
      → let part = take (suc n) (record_bytes layout msg) in
        replay_loop layout (length part + more) part r ≡ count_error layout r
  unfolding replay_loop
  replay_cut (new_order msg) n more r h =
      let payload = layout.new_bytes msg in
      let short : leb layout.size_new (length (take n payload)) ≡ false =
        ground (arith, layout.new_size msg, length-take n payload) in
      rw (suc_add (length (take n payload)) more, short)
  replay_cut (cancel msg) n more r h =
      let payload = layout.cancel_bytes msg in
      let short : leb layout.size_cancel (length (take n payload)) ≡ false =
        ground (arith, layout.cancel_size msg, length-take n payload) in
      rw (suc_add (length (take n payload)) more, short)

  -- If the last record of a written file is cut short after its tag, the replay tool reads the
  -- records before it, with the generator's two counts for them, and counts one error.
  pub replay_file-cut :
      (msgs : List EngineMessage) (msg : EngineMessage) (n : ℕ)
      → n + 1 < length (record_bytes layout msg)
      → let w = write_records layout msgs nothing_written in
        replay_file layout (w.bytes ++ take (suc n) (record_bytes layout msg)) ≡ record {
          new_count = w.new_count;
          cancel_count = w.cancel_count;
          error_count = 1;
          messages = msgs;
        }
  replay_file-cut msgs msg n h =
      let (more, e) = replay_file-records msgs (take (suc n) (record_bytes layout msg)) in
      rw (write_records-bytes msgs nothing_written)
        (e ∙ replay_cut msg n more (with_records msgs nothing_read) h ∙ ground arith)
