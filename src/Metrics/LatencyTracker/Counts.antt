-- ===== src/Metrics/LatencyTracker/Counts.antt =====
-- metrics/latency_tracker.h: what the array of bins and the sums hold after a list of samples, by the
-- values that belong to each bin.
use lockfree_matching_engine.Prelude.{
  ℕ, ◌+◌, ◌%◌, ◌^◌, ◌≤◌, ◌<◌, ◌≡◌, refl, sym, ◌∙◌, ap₂, false, arith, List, [], ◌∷◌, length, ◌==◌,
  if◌then◌else◌,
}
use lockfree_matching_engine.Metrics.LatencyTracker.{LatencyTracker, num_bins, bin_of, record_ns}
use lockfree_matching_engine.Metrics.LatencyTracker.Bins.{belongs, belongs_lem, bin_of-lt}
use lockfree_matching_engine.Metrics.LatencyTracker.Histogram.{
  in_bin, largest, smallest, record_all, record_all-Recorded,
}

abbrev pub AllWords : List ℕ → Type 0
AllWords [] = Unit {0}
AllWords (v ∷ vs) = (v < 2 ^ 64) × AllWords vs

-- How many of the samples belong to the bin.
abbrev pub belonging : ℕ → List ℕ → ℕ
belonging i [] = 0
belonging i (v ∷ vs) = (if belongs i v then 1 else 0) + belonging i vs

abbrev pub total : List ℕ → ℕ
total [] = 0
total (v ∷ vs) = v + total vs

-- Each bin of the array has the number of samples that belong to it, and what is not in the array has
-- not been written.
pub record Counted (t : LatencyTracker) (samples : List ℕ) : Type 0 where
  pub bins : (i : ℕ) → i < num_bins → t.bins i ≡ belonging i samples
  pub outside : (i : ℕ) → num_bins ≤ i → t.bins i ≡ 0
  pub count : t.count ≡ length samples
  pub sum : t.sum ≡ total samples % 2 ^ 64
  pub largest_one : t.max_ns ≡ largest samples
  pub smallest_one : t.min_ns ≡ smallest samples

in_bin-belonging : (i : ℕ) (vs : List ℕ) → i < num_bins → AllWords vs → in_bin i vs ≡ belonging i vs
unfolding in_bin
in_bin-belonging i [] h w = refl
in_bin-belonging i (v ∷ vs) h w =
    ap₂ (λ b n. (if b then 1 else 0) + n) (sym (belongs_lem i v h w.0))
      (in_bin-belonging i vs h w.1)

in_bin-outside : (i : ℕ) (vs : List ℕ) → num_bins ≤ i → in_bin i vs ≡ 0
unfolding in_bin
in_bin-outside i [] h = refl
in_bin-outside i (v ∷ vs) h =
    let other : (i == bin_of v) ≡ false = ground (arith, bin_of-lt v) in
    rw other (omega (arith, in_bin-outside i vs h))

record_all-sum : (vs : List ℕ) → (record_all vs).sum ≡ total vs % 2 ^ 64
unfolding record_all record_ns
record_all-sum [] = refl
record_all-sum (v ∷ vs) = omega (arith, record_all-sum vs)

-- After fewer than 2^64 calls of `record` on a new tracker, with samples below 2^64: each of the
-- 2368 bins holds the number of samples that are not below the bin's first value and, except for
-- the last bin, are below the next bin's, where the first value of bin i is i, if i < 64, and
-- (64 + i mod 64) * 2^(i/64 - 1) else; nothing is written outside the bins; the count, the
-- largest and the smallest sample are those of the samples, and the sum is theirs modulo 2^64.
pub record_all-Counted :
    (vs : List ℕ) → length vs < 2 ^ 64 → AllWords vs → Counted (record_all vs) vs
record_all-Counted vs small words =
    let r = record_all-Recorded vs small in
    record {
      bins = λ i h. r.bins i ∙ in_bin-belonging i vs h words;
      outside = λ i h. r.bins i ∙ in_bin-outside i vs h;
      count = r.count;
      sum = record_all-sum vs;
      largest_one = r.largest_one;
      smallest_one = r.smallest_one;
    }
