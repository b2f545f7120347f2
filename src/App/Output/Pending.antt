-- ===== src/App/Output/Pending.antt =====
-- The rows that are published together are the last 48 since the rows before, the oldest first.
use lockfree_matching_engine.Prelude.{
  ℕ, suc, ◌+◌, ◌-◌, ◌%◌, ◌≤◌, ◌<◌, ◌≡◌, refl, sym, ap, subst, ap₂, length-drop, ◌∙◌, true, false,
  not, ◌&&◌, List, [], ◌∷◌, ◌++◌, append_assoc, append-nil, length, length-append, length-set,
  drop-append, drop-set, take-set, drop-all, take-all, drop-suc, set, take, drop, ◌==◌, ==→eq, ltb,
  arith, Bool-cases, inl, inr,
}
use lockfree_matching_engine.Server.DashboardHub.{FillRow, fill_keep}
use lockfree_matching_engine.App.Output.{PendingFills, no_pending, add_pending, rotated}

abbrev pub last_rows : List FillRow → List FillRow
last_rows rows = drop (length rows - fill_keep) rows

abbrev pub add_all : List FillRow → PendingFills → PendingFills
add_all [] p = p
add_all (row ∷ rows) p = add_all rows (add_pending row p)

-- Below 48 the rows are all that there were; from 48 on they are turned, with the oldest at the head.
record IsPending (p : PendingFills) (seen : List FillRow) : Type 0 where
  pub head : p.head < fill_keep
  pub few : length seen < fill_keep → (p.rows ≡ seen) × (p.head ≡ 0)
  pub many :
      fill_keep ≤ length seen
      → (length p.rows ≡ fill_keep) × (drop p.head p.rows ++ take p.head p.rows ≡ last_rows seen)

last_rows-few : (seen : List FillRow) → length seen ≤ fill_keep → last_rows seen ≡ seen
last_rows-few seen h =
    let none_over : length seen - fill_keep ≡ 0 = omega arith in ap (λ n. drop n seen) none_over

-- From 48 rows on, a new row takes the place of the oldest.
last_rows-snoc :
    (seen : List FillRow) (row : FillRow)
    → fill_keep ≤ length seen
    → last_rows (seen ++ row ∷ []) ≡ drop 1 (last_rows seen) ++ row ∷ []
last_rows-snoc seen row h =
    let k = length seen - fill_keep in
    let over : length (seen ++ row ∷ []) - fill_keep ≡ suc k =
      omega (arith, length-append seen (row ∷ [])) in
    ap (λ n. drop n (seen ++ row ∷ [])) over
    ∙ drop-append (suc k) seen (row ∷ []) (omega arith)
    ∙ ap (λ xs. xs ++ row ∷ []) (sym (drop-suc k seen))

-- The rows after writing over the oldest, turned.
turned :
    (rows : List FillRow) (head : ℕ) (row : FillRow)
    → length rows ≡ fill_keep
    → head < fill_keep
    → let rows' = set rows head row in
      let head' = (head + 1) % fill_keep in
      drop head' rows' ++ take head' rows' ≡ drop 1 (drop head rows ++ take head rows) ++ row ∷ []
turned rows head row n h =
    let rest =
      ap (λ xs. xs ++ row ∷ [])
        (drop-append_one ∙ ap (λ xs. xs ++ take head rows) (drop-suc head rows)) in
    elim (Bool-cases (head + 1 == fill_keep)) [
      | inl e ↦
          let rows' = set rows head row in
          let last : suc head ≡ fill_keep = ground arith in
          let next : (head + 1) % fill_keep ≡ 0 = omega arith in
          let whole = take-all (suc head) rows' (omega (arith, length-set rows head row)) in
          ap (λ k. drop k rows' ++ take k rows') next
          ∙ append-nil rows'
          ∙ sym whole
          ∙ take-set head rows row (omega arith)
          ∙ ap (λ xs. (xs ++ take head rows) ++ row ∷ [])
              (sym (drop-all (suc head) rows (omega arith)))
          ∙ sym rest
      | inr e ↦
          let next : (head + 1) % fill_keep ≡ suc head = ground arith in
          ap (λ k. drop k (set rows head row) ++ take k (set rows head row)) next
          ∙ ap₂ ◌++◌ (drop-set head rows row) (take-set head rows row (omega arith))
          ∙ sym (append_assoc (drop (suc head) rows) (take head rows) (row ∷ []))
          ∙ sym rest
    ]
  where
    drop-append_one :
        drop 1 (drop head rows ++ take head rows) ≡ drop 1 (drop head rows) ++ take head rows
    drop-append_one =
        drop-append 1 (drop head rows) (take head rows) (omega (arith, length-drop head rows))

add_pending-IsPending :
    (p : PendingFills) (seen : List FillRow) (row : FillRow)
    → IsPending p seen
    → IsPending (add_pending row p) (seen ++ row ∷ [])
unfolding add_pending
add_pending-IsPending p seen row v =
    let n = length-append seen (row ∷ []) in
    elim (Bool-cases (ltb (length seen) fill_keep)) [
      | inl e ↦
          let below : length seen < fill_keep = ground arith in
          let (rows, head) = v.few below in
          let room : ltb (length p.rows) fill_keep ≡ true = rw rows e in
          rw room (record {
            head = v.head;
            few = λ h. (ap (λ xs. xs ++ row ∷ []) rows, head);
            many = λ h. (
              omega (arith, length-append p.rows (row ∷ []), ap length rows),
              rw head (
                  append-nil (p.rows ++ row ∷ [])
                  ∙ ap (λ xs. xs ++ row ∷ []) rows
                  ∙ sym (last_rows-few (seen ++ row ∷ []) (ground arith))),
            );
          })
      | inr e ↦
          let (full, order) = v.many (ground arith) in
          let no_room : ltb (length p.rows) fill_keep ≡ false = ground arith in
          rw no_room (record {
            head = omega arith;
            few = λ h. absurd (ground arith);
            many = λ h. (
              omega (arith, length-set p.rows p.head row),
              turned p.rows p.head row full v.head
                  ∙ ap (λ xs. drop 1 xs ++ row ∷ []) order
                  ∙ sym (last_rows-snoc seen row (ground arith)),
            );
          })
    ]

rotated-IsPending :
    (p : PendingFills) (seen : List FillRow) → IsPending p seen → rotated p ≡ last_rows seen
unfolding rotated
rotated-IsPending p seen v = elim (Bool-cases (ltb (length seen) fill_keep)) [
  | inl e ↦
      let (rows, head) = v.few (ground arith) in
      let still : (not (p.head == 0) && (length p.rows == fill_keep)) ≡ false = ground arith in
      rw still (rows ∙ sym (last_rows-few seen (ground arith)))
  | inr e ↦
      let (full, order) = v.many (ground arith) in
      elim (Bool-cases (p.head == 0)) [
        | inl z ↦
            let still : (not (p.head == 0) && (length p.rows == fill_keep)) ≡ false =
              ground arith in
            let order' : drop 0 p.rows ++ take 0 p.rows ≡ last_rows seen =
              subst (λ k. drop k p.rows ++ take k p.rows ≡ last_rows seen) (==→eq p.head 0 z)
                order in
            rw still (sym (append-nil p.rows) ∙ order')
        | inr z ↦
            let turns : (not (p.head == 0) && (length p.rows == fill_keep)) ≡ true = ground arith in
            rw turns order
      ]
]

add_all-IsPending :
    (rows seen : List FillRow) (p : PendingFills)
    → IsPending p seen
    → IsPending (add_all rows p) (seen ++ rows)
add_all-IsPending [] seen p v = rw (append-nil seen) v
add_all-IsPending (row ∷ rows) seen p v =
    subst (IsPending (add_all rows (add_pending row p))) (append_assoc seen (row ∷ []) rows) (
      add_all-IsPending rows (seen ++ row ∷ []) (add_pending row p)
        (add_pending-IsPending p seen row v))

-- After any rows have been kept since the last publication, the rows that are published, once
-- turned, are the last 48 of them, or all if there are fewer, in the order in which they came.
pub rotated-add_all :
    (rows : List FillRow) → rotated (add_all rows no_pending) ≡ drop (length rows - fill_keep) rows
rotated-add_all rows = rotated-IsPending (add_all rows no_pending) rows (
    add_all-IsPending rows [] no_pending
      (record { head = omega arith; few = λ h. (refl, refl); many = λ h. absurd (omega arith) }))
