-- ===== src/Server/DashboardHub/Tape.antt =====
-- server/dashboard_hub.h: the tape shows the last rows that were published.
use lockfree_matching_engine.Prelude.{
  ℕ, ◌+◌, ◌-◌, ◌%◌, ◌≤◌, ◌<◌, min, ◌≡◌, refl, sym, ◌∙◌, ap, subst, true, false, some, arith, List,
  [], ◌∷◌, ◌++◌, append_assoc, append-nil, length, length-append, ◌==◌, ==→eq, Bool-cases, inl, inr,
  get_elem?, get_elem?-append, get_elem?-last,
}
use lockfree_matching_engine.Server.DashboardHub.{
  FillRow, FillTape, new_tape, fill_keep, publish_row, publish_rows, snapshot_row,
}

-- The tape after the rows `rows` have been published.
pub record Shows (t : FillTape) (rows : List FillRow) : Type 0 where
  pub head : t.fill_head ≡ length rows % fill_keep
  pub count : t.fill_count ≡ min (length rows) fill_keep
  pub kept :
      (j : ℕ)
      → j < length rows
      → length rows ≤ j + fill_keep
      → get_elem? rows j ≡ some (t.fills (j % fill_keep))

pub new-Shows : Shows new_tape []
new-Shows = record { head = refl; count = refl; kept = λ j h. absurd (omega arith) }

publish_row-Shows :
    (t : FillTape) (row : FillRow) (rows : List FillRow)
    → Shows t rows
    → Shows (publish_row row t) (rows ++ row ∷ [])
unfolding publish_row
publish_row-Shows t row rows v =
    let n = length-append rows (row ∷ []) in
    record {
      head = omega (arith, v.head);
      count = ground (arith, v.count);
      kept = λ j h k. elim (Bool-cases (j == length rows)) [
        | inl e ↦
            let slot : (j % fill_keep == t.fill_head) ≡ true = ground (arith, v.head) in
            rw (slot, ==→eq _ _ e) (get_elem?-last rows row)
        | inr e ↦
            let slot : (j % fill_keep == t.fill_head) ≡ false = ground (arith, v.head) in
            let before : j < length rows = ground arith in
            rw slot (get_elem?-append rows (row ∷ []) j before ∙ v.kept j before (omega arith))
      ];
    }

pub publish_rows-Shows :
    (rows before : List FillRow) (t : FillTape)
    → Shows t before
    → Shows (publish_rows rows t) (before ++ rows)
unfolding publish_rows
publish_rows-Shows [] before t v = subst (Shows t) (sym (append-nil before)) v
publish_rows-Shows (row ∷ rows) before t v =
    subst (Shows (publish_rows rows (publish_row row t))) (append_assoc before (row ∷ []) rows) (
      publish_rows-Shows rows (before ++ row ∷ []) (publish_row row t)
        (publish_row-Shows t row before v))

-- After any rows have been published to a new tape, its count is their number or 48, whichever
-- is less, and for a place i below that, the row that a snapshot prints there is the i-th,
-- counted from 0, of that many last rows.
pub snapshot_row_lem :
    (rows : List FillRow) (i : ℕ)
    → i < min (length rows) fill_keep
    → let t = publish_rows rows new_tape in
      (t.fill_count ≡ min (length rows) fill_keep)
      × (get_elem? rows (length rows - t.fill_count + i) ≡ some (snapshot_row t i))
unfolding snapshot_row
snapshot_row_lem rows i h =
    let t = publish_rows rows new_tape in
    let v = publish_rows-Shows rows [] new_tape new-Shows in
    let j = length rows - t.fill_count + i in
    let slot : j % fill_keep ≡ (t.fill_head + fill_keep - t.fill_count + i) % fill_keep =
      omega (arith, v.head, v.count) in
    (
      v.count,
      v.kept j (omega (arith, v.count)) (omega (arith, v.count)) ∙ ap (λ k. some (t.fills k)) slot,
    )
