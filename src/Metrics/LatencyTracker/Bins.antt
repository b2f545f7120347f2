-- ===== src/Metrics/LatencyTracker/Bins.antt =====
-- metrics/latency_tracker.h: the values of each bin, by its first one, and the bin that `record` takes.
use lockfree_matching_engine.Prelude.{
  ℕ, suc, ◌+◌, ◌-◌, ◌*◌, ◌/◌, ◌^◌, ◌≤◌, ◌<◌, ◌≡◌, ◌⊎◌, refl, sym, ◌∙◌, ap, subst, Bool, true, false,
  ◌&&◌, ◌||◌, arith, ◌==◌, ltb, leb, Bool-cases, inl, inr,
}
use native.Mathlib.Nat.{mul_comm, mul-add}
use lockfree_matching_engine.Metrics.LatencyTracker.{
  sub_count, num_bins, octave_index, bucket_index, bucket_upper, bin_of,
}
use lockfree_matching_engine.Metrics.LatencyTracker.Buckets.{
  parts, quotient-lt, quotient-ge, octave_index_lem, octave_of, bucket_bound,
}
use lockfree_matching_engine.Metrics.LatencyTracker.Firsts.{
  first_of, first_of-small, first_of-large, first_of-next, first_of_mono, first_of-end,
}

Within : ℕ → ℕ → Type 0
Within v i = (first_of i ≤ v) × (v < first_of (suc i))

octave-Within :
    (v s : ℕ) → s + 7 ≤ 64 → 2 ^ (s + 6) ≤ v → v < 2 ^ (s + 7) → Within v (octave_index (s + 6) v)
unfolding Within
octave-Within v s wide least below =
    let q = v / 2 ^ s in
    let ge : 64 ≤ q = quotient-ge s v wide least below in
    let lt : q < 128 = quotient-lt s v wide least below in
    let (from, to) = parts s v wide least below in
    let low = first_of-large s q ge lt ∙ mul_comm q (2 ^ s) in
    let up : first_of (suc (64 * (s + 1) + (q - 64))) ≡ 2 ^ s * q + 2 ^ s =
      first_of-next s q ge lt ∙ mul_comm (q + 1) (2 ^ s) ∙ mul-add (2 ^ s) q 1 ∙ omega arith in
    subst (Within v) (sym (octave_index_lem s v wide least below))
      (omega (arith, low, from), omega (arith, up, to))

bucket_index-Within : (v : ℕ) → v < 2 ^ 64 → Within v (bucket_index v)
unfolding bucket_index Within
bucket_index-Within v h = elim (Bool-cases (ltb v sub_count)) [
  | inl l ↦ rw l (low v (ground arith))
  | inr l ↦ rw l (octave_of v (Within v) (ground arith) h (octave-Within v))
]
  where
    low : (v : ℕ) → v < 64 → (first_of v ≤ v) × (v < first_of (suc v))
    low v h =
        let e = first_of-small v h in
        elim (Bool-cases (ltb v 63)) [
          | inl l ↦ (omega arith, rw (first_of-small (suc v) (ground arith)) (omega arith))
          | inr l ↦
              let at : v ≡ 63 = ground arith in
              let above : first_of 64 ≡ 64 = first_of-large 0 64 (omega arith) (omega arith) in
              (omega arith, rw (at, above) (omega arith))
        ]

bucket_index-below : (v : ℕ) → v < 2 ^ 42 → bucket_index v < num_bins
unfolding Within
bucket_index-below v h = elim (Bool-cases (leb num_bins (bucket_index v))) [
  | inr l ↦ ground arith
  | inl l ↦
      let (from, to) = bucket_index-Within v (omega arith) in
      let m = first_of_mono 2368 (bucket_index v) (ground arith) in
      absurd (omega (arith, first_of-end))
]

bucket_index-beyond : (v : ℕ) → 2 ^ 42 ≤ v → v < 2 ^ 64 → num_bins ≤ bucket_index v
unfolding Within
bucket_index-beyond v h small = elim (Bool-cases (leb num_bins (bucket_index v))) [
  | inl l ↦ ground arith
  | inr l ↦
      let (from, to) = bucket_index-Within v small in
      let m = first_of_mono (suc (bucket_index v)) 2368 (ground arith) in
      absurd (omega (arith, first_of-end))
]

bin_of-below : (v : ℕ) → bucket_index v < num_bins → bin_of v ≡ bucket_index v
bin_of-below v h = let l : leb num_bins (bucket_index v) ≡ false = ground arith in rw l refl

bin_of-beyond : (v : ℕ) → num_bins ≤ bucket_index v → bin_of v ≡ 2367
bin_of-beyond v h = let l : leb num_bins (bucket_index v) ≡ true = ground arith in rw l refl

pub bin_of-lt : (v : ℕ) → bin_of v < num_bins
bin_of-lt v = ground arith

last_upper : bucket_upper 2367 ≡ 2 ^ 42 - 1
unfolding bucket_upper
last_upper = refl

-- The bin that `record` takes for a value below 2^64 is one of the 2368. Either the value is
-- below 2^42, and the upper bound of the bin is at least the value and exceeds it by a 64th of
-- the value at most; or it is not, and goes to the last bin, 2367, whose upper bound is 2^42 -
-- 1.
pub bin_of_lem :
    (v : ℕ)
    → v < 2 ^ 64
    → let u = bucket_upper (bin_of v) in
      (bin_of v < num_bins)
      × (((v < 2 ^ 42) × (v ≤ u) × (64 * (u - v) ≤ v))
          ⊎ ((2 ^ 42 ≤ v) × (bin_of v ≡ 2367) × (u ≡ 2 ^ 42 - 1)))
bin_of_lem v small = (
  bin_of-lt v,
  elim (Bool-cases (ltb v (2 ^ 42))) [
    | inl l ↦
        let low : v < 2 ^ 42 = ground arith in
        let at = bin_of-below v (bucket_index-below v low) in
        let (above, near) = bucket_bound v small in inl (low, rw at above, rw at near)
    | inr l ↦
        let high : 2 ^ 42 ≤ v = ground arith in
        let at = bin_of-beyond v (bucket_index-beyond v high small) in
        inr (high, at, ap bucket_upper at ∙ last_upper)
  ],
)

-- Whether a value is in the values of a bin, of which the last has all that are above its first.
abbrev pub belongs : ℕ → ℕ → Bool
belongs i v = leb (first_of i) v && (ltb v (first_of (suc i)) || (i == 2367))

bin_of-Within :
    (v : ℕ)
    → v < 2 ^ 64
    → (first_of (bin_of v) ≤ v) × ((v < first_of (suc (bin_of v))) ⊎ (bin_of v ≡ 2367))
unfolding Within
bin_of-Within v small =
    let (from, to) = bucket_index-Within v small in
    elim (Bool-cases (leb num_bins (bucket_index v))) [
      | inl l ↦
          let at = bin_of-beyond v (ground arith) in
          let m = first_of_mono 2367 (bucket_index v) (ground arith) in
          (rw at (omega arith), inr at)
      | inr l ↦ let at = bin_of-below v (ground arith) in (rw at from, inl (rw at to))
    ]

-- A value belongs to the bin that `record` takes, and to no other.
pub belongs_lem : (i v : ℕ) → i < num_bins → v < 2 ^ 64 → belongs i v ≡ (i == bin_of v)
belongs_lem i v h small =
    let (from, to) = bin_of-Within v small in by_place i (bin_of v) h (bin_of-lt v) from to
  where
    by_place :
        (i b : ℕ)
        → i < num_bins
        → b < num_bins
        → first_of b ≤ v
        → (v < first_of (suc b)) ⊎ (b ≡ 2367)
        → belongs i v ≡ (i == b)
    by_place i b h k from to = elim (Bool-cases (ltb i b)) [
      | inl l ↦ let m = first_of_mono (suc i) b (ground arith) in ground arith
      | inr l ↦ elim (Bool-cases (i == b)) [
        | inl e ↦ ground arith
        | inr e ↦ let m = first_of_mono (suc b) i (ground arith) in ground arith
      ]
    ]
