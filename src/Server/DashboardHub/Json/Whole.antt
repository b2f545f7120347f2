-- ===== src/Server/DashboardHub/Json/Whole.antt =====
-- When a frame is printed whole.
use Prim.Native.String.append
use Prim.Native.String.{String, len, slice, ◌++◌ as ◌<>◌}
use text.Mathlib.TextPositions.{len-append, slice_all}
use text.Mathlib.TextLemmas.{append_assoc}
use lockfree_matching_engine.Prelude.{
  ℕ, zero, suc, ◌+◌, ◌-◌, ◌≤◌, ◌<◌, ◌≡◌, refl, sym, ap, ap₂, ◌∙◌, Bool, true, false, some,
  some-injective, List, [], ◌∷◌, length, drop, length-drop, get_elem?, ℤ, pos, min, arith,
}
use lockfree_matching_engine.Server.DashboardHub.{
  FillRow, FillTape, LevelRow, DashboardHub, snapshot_row, new_tape, publish_rows, fill_keep,
}
use lockfree_matching_engine.Server.DashboardHub.Tape.{
  snapshot_row_lem, publish_rows-Shows, new-Shows,
}
use lockfree_matching_engine.Server.DashboardHub.Json.{
  Conversions, fit, cat, separator, print_rows, flag, tape_rows, head_text, level_text, fill_text,
  latency_text, counter_text, snapshot_json,
}

fit_small : (s : String) → len s ≤ 159 → fit s ≡ s
unfolding fit
fit_small s h =
    let whole : min (len s) 159 ≡ len s = omega arith in ap (λ n. slice s 0 n) whole ∙ slice_all s

-- Texts with commas between them.
abbrev pub commas : List String → String
commas [] = ""
commas (s ∷ ss) = "," <> (s <> commas ss)

abbrev pub separated : List String → String
separated [] = ""
separated (s ∷ ss) = s <> commas ss

module _ {R : Type 0} (row : R → String) where
  abbrev pub texts : List R → List String
  texts [] = []
  texts (r ∷ rs) = row r ∷ texts rs

  module _ (short : (r : R) → len (row r) ≤ 158) where
    fit_row : (first : Bool) (r : R) → fit (separator first <> row r) ≡ separator first <> row r
    fit_row true r = fit_small ("" <> row r) (omega (arith, len-append "" (row r), short r))
    fit_row false r = fit_small ("," <> row r) (omega (arith, len-append "," (row r), short r))

    print_rows-commas : (rs : List R) → print_rows row false rs ≡ commas (texts rs)
    unfolding print_rows
    print_rows-commas [] = refl
    print_rows-commas (r ∷ rs) =
        ap₂ (λ s t. s <> t) (fit_row false r) (print_rows-commas rs)
        ∙ append_assoc "," (row r) (commas (texts rs))

    print_rows-separated : (rs : List R) → print_rows row true rs ≡ separated (texts rs)
    unfolding print_rows
    print_rows-separated [] = refl
    print_rows-separated (r ∷ rs) =
        ap₂ (λ s t. s <> t) (fit_row true r ∙ append.nil (row r)) (print_rows-commas rs)

abbrev total : List String → ℕ
total [] = 0
total (s ∷ ss) = len s + total ss

len-cat : (ss : List String) → len (cat ss) ≡ total ss
len-cat [] = refl
len-cat (s ∷ ss) = len-append s (cat ss) ∙ ap (λ n. len s + n) (len-cat ss)

-- At most 20 characters for a number of 64 bits.
pub record Short (c : Conversions) : Type 0 where
  pub digits : (n : ℕ) → len (c.digits n) ≤ 20
  pub signed : (z : ℤ) → len (c.signed z) ≤ 20

module _ (c : Conversions) (v : Short c) where
  level_text-short : (r : LevelRow) → len (level_text c r) ≤ 158
  level_text-short r =
      let parts =
        "[" ∷ c.signed (pos r.price) ∷ "," ∷ c.digits r.qty ∷ "," ∷ c.digits r.orders ∷ "]" ∷ [] in
      omega (arith, len-cat parts, v.signed (pos r.price), v.digits r.qty, v.digits r.orders)

  fill_text-short : (f : FillRow) → len (fill_text c f) ≤ 158
  fill_text-short f =
      let parts =
        "["
        ∷ c.digits f.seq
        ∷ ","
        ∷ c.digits f.ts_ms
        ∷ ","
        ∷ c.signed f.price
        ∷ ","
        ∷ c.digits f.qty
        ∷ ","
        ∷ c.digits (flag f.taker_is_bid)
        ∷ "]"
        ∷ [] in
      omega (
        arith,
        len-cat parts,
        v.digits f.seq,
        v.digits f.ts_ms,
        v.signed f.price,
        v.digits f.qty,
        v.digits (flag f.taker_is_bid),
      )

-- The i-th, and those behind it.
tape_rows-list :
    (t : FillTape) (i : ℕ) (xs : List FillRow)
    → ((j : ℕ) → j < length xs → get_elem? xs j ≡ some (snapshot_row t (i + j)))
    → tape_rows t i (length xs) ≡ xs
tape_rows-list t i [] e = refl
tape_rows-list t i (x ∷ xs) e =
    let here : x ≡ snapshot_row t (i + 0) = some-injective _ _ (e 0 (omega arith)) in
    ap₂ (λ y ys. y ∷ ys) (sym (here ∙ ap (snapshot_row t) (omega arith)))
      (tape_rows-list t (suc i) xs
        λ j h. (e (suc j) (omega arith) ∙ ap (λ k. some (snapshot_row t k)) (omega arith)))

get_elem?-drop : (n j : ℕ) (xs : List FillRow) → get_elem? (drop n xs) j ≡ get_elem? xs (n + j)
get_elem?-drop zero j xs = ap (get_elem? xs) (omega arith)
get_elem?-drop (suc n) j [] = refl
get_elem?-drop (suc n) j (x ∷ xs) =
    let same : suc n + j ≡ suc (n + j) = omega arith in
    get_elem?-drop n j xs ∙ ap (get_elem? (x ∷ xs)) (sym same)

-- The tape holds the last rows, in order.
tape_rows-last :
    (rows : List FillRow)
    → let t = publish_rows rows new_tape in
      tape_rows t 0 t.fill_count ≡ drop (length rows - fill_keep) rows
tape_rows-last rows =
    let t = publish_rows rows new_tape in
    let last = drop (length rows - fill_keep) rows in
    let many : length last ≡ length rows - (length rows - fill_keep) =
      length-drop (length rows - fill_keep) rows in
    let counted : t.fill_count ≡ length last =
      omega (arith, (publish_rows-Shows rows [] new_tape new-Shows).count, many) in
    ap (tape_rows t 0) counted
    ∙ tape_rows-list t 0 last λ j h.
      let i : j < min (length rows) fill_keep = omega (arith, many) in
      let (c, e) = snapshot_row_lem rows j i in
      let place : length rows - fill_keep + j ≡ length rows - t.fill_count + j = omega (arith, c) in
      get_elem?-drop (length rows - fill_keep) j rows
      ∙ ap (get_elem? rows) place
      ∙ e
      ∙ ap (λ k. some (snapshot_row t k)) (omega arith)

module _ (c : Conversions) where
  -- The frame with no buffer in the way, for fills that are given.
  abbrev pub frame_text : ℕ → DashboardHub → List FillRow → String
  frame_text now_ms hub rows = cat (
      head_text c now_ms hub
      ∷ separated (texts (level_text c) hub.bids)
      ∷ "],\"asks\":["
      ∷ separated (texts (level_text c) hub.asks)
      ∷ "],\"fills\":["
      ∷ separated (texts (fill_text c) rows)
      ∷ latency_text c hub.stats
      ∷ counter_text c hub
      ∷ [])

  -- The three parts that are no rows fit the buffer.
  pub record Fits (now_ms : ℕ) (hub : DashboardHub) : Type 0 where
    pub head : len (head_text c now_ms hub) ≤ 159
    pub latencies : len (latency_text c hub.stats) ≤ 159
    pub counters : len (counter_text c hub) ≤ 159

  -- For conversions that print at most 20 characters for a number, a hub whose tape has had any
  -- rows published since it was new, and a head, latencies and counters that print at most 159
  -- characters each: `snapshot_json` prints the frame without any cut, with the levels of both
  -- sides in their order, the last 48 of the rows, or all if there are fewer, oldest first, and
  -- a comma between each two rows.
  pub snapshot_json_lem :
      (now_ms : ℕ) (hub : DashboardHub) (rows : List FillRow)
      → Short c
      → Fits now_ms hub
      → hub.tape ≡ publish_rows rows new_tape
      → snapshot_json c now_ms hub ≡ frame_text now_ms hub (drop (length rows - fill_keep) rows)
  unfolding snapshot_json
  snapshot_json_lem now_ms hub rows v f e =
      let t = publish_rows rows new_tape in
      let last = drop (length rows - fill_keep) rows in
      let fills : tape_rows hub.tape 0 hub.tape.fill_count ≡ last =
        ap (λ u. tape_rows u 0 u.fill_count) e ∙ tape_rows-last rows in
      let fills_text =
        ap (print_rows (fill_text c) true) fills
        ∙ print_rows-separated (fill_text c) (fill_text-short c v) last in
      assembled (fit_small (head_text c now_ms hub) f.head)
        (print_rows-separated (level_text c) (level_text-short c v) hub.bids)
        (print_rows-separated (level_text c) (level_text-short c v) hub.asks) fills_text
        (fit_small (latency_text c hub.stats) f.latencies)
        (fit_small (counter_text c hub) f.counters)
    where
      assembled :
          {h h' b b' a a' f f' l l' n n' : String}
          → h ≡ h'
          → b ≡ b'
          → a ≡ a'
          → f ≡ f'
          → l ≡ l'
          → n ≡ n'
          → cat (h ∷ b ∷ "],\"asks\":[" ∷ a ∷ "],\"fills\":[" ∷ f ∷ l ∷ n ∷ [])
            ≡ cat (h' ∷ b' ∷ "],\"asks\":[" ∷ a' ∷ "],\"fills\":[" ∷ f' ∷ l' ∷ n' ∷ [])
      assembled p q r s t u = cc
