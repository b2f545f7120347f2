-- ===== src/Feed/FeedHandler/Counters.antt =====
-- The counters of the handler: rows that are malformed or out of the book, and gaps in the sequence.
use lockfree_matching_engine.Prelude.{
  ℕ, ◌^◌, ◌+◌, ◌%◌, ◌≡◌, refl, ◌∙◌, true, false, some, List, [], ◌∷◌, length, arith, add64, ◌==◌,
  Bool-cases, inl, inr, if◌then◌else◌, Option-cases,
}
use lockfree_matching_engine.Core.Types.{Side, Price, Quantity, Timestamp}
use lockfree_matching_engine.Feed.FeedHandler.{
  Dom, FeedHandler, Row, bad, out_of_book, level, apply_row, apply_rows, apply_level, drop_level,
  add_level, change_rows, parse_update, note_sequence,
}
use lockfree_matching_engine.Feed.FeedHandler.Decimals.{Doubles}
use lockfree_matching_engine.Feed.FeedHandler.Live.{LevelKey, find_level}

abbrev pub bad_rows : List Row → ℕ
bad_rows [] = 0
bad_rows (bad ∷ rows) = bad_rows rows + 1
bad_rows (out_of_book ∷ rows) = bad_rows rows
bad_rows (level side price qty ∷ rows) = bad_rows rows

abbrev pub rows_out_of_book : List Row → ℕ
rows_out_of_book [] = 0
rows_out_of_book (bad ∷ rows) = rows_out_of_book rows
rows_out_of_book (out_of_book ∷ rows) = rows_out_of_book rows + 1
rows_out_of_book (level side price qty ∷ rows) = rows_out_of_book rows

abbrev pub sound_rows : List Row → ℕ
sound_rows [] = 0
sound_rows (bad ∷ rows) = sound_rows rows
sound_rows (out_of_book ∷ rows) = sound_rows rows
sound_rows (level side price qty ∷ rows) = sound_rows rows + 1

rows-add : (rows : List Row) → bad_rows rows + rows_out_of_book rows + sound_rows rows ≡ length rows
rows-add [] = refl
rows-add (bad ∷ rows) = omega (arith, rows-add rows)
rows-add (out_of_book ∷ rows) = omega (arith, rows-add rows)
rows-add (level side price qty ∷ rows) = omega (arith, rows-add rows)

-- `malformed` and `skipped` have grown by `m` and `s`, in their words, and no other counter has.
pub record Counted (h h' : FeedHandler) (m s : ℕ) : Type 0 where
  pub malformed : h'.malformed % 2 ^ 64 ≡ (h.malformed + m) % 2 ^ 64
  pub skipped : h'.skipped % 2 ^ 64 ≡ (h.skipped + s) % 2 ^ 64
  pub ignored : h'.ignored ≡ h.ignored
  pub sequence_gaps : h'.sequence_gaps ≡ h.sequence_gaps

drop_level-Counted :
    (key : LevelKey) (ts : Timestamp) (h : FeedHandler) → Counted h (drop_level key ts h).0 0 0
unfolding drop_level
drop_level-Counted key ts h = elim (Option-cases (find_level key h.live)) [
  | inl e ↦ rw (e, drop_level) (omega arith)
  | inr (id, e) ↦ rw (e, drop_level) (omega arith)
]

apply_level-Counted :
    (side : Side) (price : Price) (qty : Quantity) (ts : Timestamp) (h : FeedHandler)
    → Counted h (apply_level side price qty ts h).0 0 0
unfolding apply_level add_level
apply_level-Counted side price qty ts h =
    let key : LevelKey = record { price = price; side = side } in
    let c = drop_level-Counted key ts h in
    elim (Bool-cases (qty == 0)) [
      | inl e ↦ rw e c
      | inr e ↦ rw e (record {
        malformed = c.malformed;
        skipped = c.skipped;
        ignored = c.ignored;
        sequence_gaps = c.sequence_gaps;
      })
    ]

apply_rows-Counted :
    (ts : Timestamp) (rows : List Row) (h : FeedHandler)
    → Counted h (apply_rows (apply_row ts) rows h).0 (bad_rows rows) (rows_out_of_book rows)
unfolding apply_rows apply_row
apply_rows-Counted ts [] h = omega arith
apply_rows-Counted ts (bad ∷ rows) h =
    let c = apply_rows-Counted ts rows (apply_row ts bad h).0 in omega arith
apply_rows-Counted ts (out_of_book ∷ rows) h =
    let c = apply_rows-Counted ts rows (apply_row ts out_of_book h).0 in omega arith
apply_rows-Counted ts (level side price qty ∷ rows) h =
    let first = apply_level-Counted side price qty ts h in
    let c = apply_rows-Counted ts rows (apply_level side price qty ts h).0 in omega arith

module _ (dom : Dom) (doubles : Doubles) where
  length-change_rows : (els : List dom.Element) → length (change_rows dom doubles els) ≡ length els
  unfolding change_rows
  length-change_rows [] = refl
  length-change_rows (el ∷ els) = omega (arith, length-change_rows els)

  -- For an update with any changes: `malformed` and `skipped` grow, modulo 2^64, by the number
  -- of its rows that cannot be read and of those with a price out of the book, the other two
  -- counters stay, and these rows and those that are applied are all its rows.
  pub parse_update-Counted :
      (ts : Timestamp) (changes : List dom.Element) (h : FeedHandler)
      → let rows = change_rows dom doubles changes in
        Counted h
          (parse_update dom doubles ts (some changes) h).0
          (bad_rows rows)
          (rows_out_of_book rows)
        × (bad_rows rows + rows_out_of_book rows + sound_rows rows ≡ length changes)
  unfolding parse_update
  parse_update-Counted ts changes h =
      let rows = change_rows dom doubles changes in
      (apply_rows-Counted ts rows h, rows-add rows ∙ length-change_rows changes)

-- How often a number does not follow the one before it.
abbrev pub gaps_after : ℕ → List ℕ → ℕ
gaps_after last [] = 0
gaps_after last (seq ∷ seqs) = gaps_after seq seqs + (if seq == add64 last 1 then 0 else 1)

abbrev pub note_all : List ℕ → FeedHandler → FeedHandler
note_all [] h = h
note_all (seq ∷ seqs) h = note_all seqs (note_sequence seq h)

note_all-after :
    (seqs : List ℕ) (h : FeedHandler)
    → h.have_sequence ≡ true
    → (note_all seqs h).sequence_gaps % 2 ^ 64
      ≡ (h.sequence_gaps + gaps_after h.last_sequence seqs) % 2 ^ 64
unfolding note_sequence
note_all-after [] h known = omega arith
note_all-after (seq ∷ seqs) h known =
    let rest = note_all-after seqs (note_sequence seq h) refl in ground arith

pub note_all_lem :
    (seq : ℕ) (seqs : List ℕ) (h : FeedHandler)
    → h.have_sequence ≡ false
    → (note_all (seq ∷ seqs) h).sequence_gaps % 2 ^ 64
      ≡ (h.sequence_gaps + gaps_after seq seqs) % 2 ^ 64
unfolding note_sequence
note_all_lem seq seqs h unknown =
    let rest = note_all-after seqs (note_sequence seq h) refl in ground arith
