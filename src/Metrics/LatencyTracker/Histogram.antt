-- ===== src/Metrics/LatencyTracker/Histogram.antt =====
-- metrics/latency_tracker.h: what the tracker holds after a list of samples, and which bin
-- `percentile` finds.
use lockfree_matching_engine.Prelude.{
  ℕ, zero, suc, ◌+◌, ◌^◌, ◌≤◌, ◌<◌, max, min, ◌≡◌, refl, sym, ◌∙◌, ap, subst, true, false, Option,
  none, some, arith, List, [], ◌∷◌, length, ◌==◌, ==→eq, ltb, leb, Bool-cases, inl, inr,
  if◌then◌else◌, add64,
}
use lockfree_matching_engine.Metrics.LatencyTracker.Bins.{bin_of-lt}
use lockfree_matching_engine.Metrics.LatencyTracker.{
  LatencyTracker, new_tracker, num_bins, no_min, bin_of, record_ns, find_bin, reported, percentile,
  bucket_upper,
}

-- How many of the samples are in bin `i`, and in the bins below `i`.
unfoldable pub in_bin : ℕ → List ℕ → ℕ
in_bin i [] = 0
in_bin i (v ∷ vs) = (if i == bin_of v then 1 else 0) + in_bin i vs

unfoldable pub below_bin : ℕ → List ℕ → ℕ
below_bin i [] = 0
below_bin i (v ∷ vs) = (if ltb (bin_of v) i then 1 else 0) + below_bin i vs

abbrev pub largest : List ℕ → ℕ
largest [] = 0
largest (v ∷ vs) = max v (largest vs)

abbrev pub smallest : List ℕ → ℕ
smallest [] = no_min
smallest (v ∷ vs) = min v (smallest vs)

-- The tracker has recorded these samples, the last one first.
pub record Recorded (t : LatencyTracker) (samples : List ℕ) : Type 0 where
  pub bins : (i : ℕ) → t.bins i ≡ in_bin i samples
  pub count : t.count ≡ length samples
  pub largest_one : t.max_ns ≡ largest samples
  pub smallest_one : t.min_ns ≡ smallest samples

in_bin-le : (i : ℕ) (vs : List ℕ) → in_bin i vs ≤ length vs
unfolding in_bin
in_bin-le i [] = omega arith
in_bin-le i (v ∷ vs) = elim (Bool-cases (i == bin_of v)) [
  | inl e ↦ rw e (omega (arith, in_bin-le i vs))
  | inr e ↦ rw e (omega (arith, in_bin-le i vs))
]

pub new-Recorded : Recorded new_tracker []
unfolding in_bin
new-Recorded = record { bins = λ i. refl; count = refl; largest_one = refl; smallest_one = refl }

pub record_ns-Recorded :
    (t : LatencyTracker) (ns : ℕ) (samples : List ℕ)
    → Recorded t samples
    → length samples + 1 < 2 ^ 64
    → Recorded (record_ns ns t) (ns ∷ samples)
unfolding record_ns in_bin
record_ns-Recorded t ns samples v small = record {
  bins = λ i. elim (Bool-cases (i == bin_of ns)) [
    | inl e ↦ rw e (one_more i (==→eq _ _ e))
    | inr e ↦ rw e (v.bins i ∙ omega arith)
  ];
  count = omega (arith, v.count);
  largest_one = ground (arith, v.largest_one);
  smallest_one = ground (arith, v.smallest_one);
}
  where
    one_more : (i : ℕ) → i ≡ bin_of ns → add64 (t.bins (bin_of ns)) 1 ≡ 1 + in_bin i samples
    one_more i e = rw e (omega (arith, v.bins (bin_of ns), in_bin-le (bin_of ns) samples))

-- All the samples, recorded from the last of the list to the first.
unfoldable pub record_all : List ℕ → LatencyTracker
unfolding record_ns
record_all [] = new_tracker
record_all (v ∷ vs) = record_ns v (record_all vs)

pub record_all-Recorded : (vs : List ℕ) → length vs < 2 ^ 64 → Recorded (record_all vs) vs
unfolding record_all
record_all-Recorded [] h = new-Recorded
record_all-Recorded (v ∷ vs) h =
    record_ns-Recorded (record_all vs) v vs (record_all-Recorded vs (omega arith)) (omega arith)

below_bin-zero : (vs : List ℕ) → below_bin 0 vs ≡ 0
unfolding below_bin
below_bin-zero [] = refl
below_bin-zero (v ∷ vs) = ground (arith, below_bin-zero vs)

below_bin-suc : (i : ℕ) (vs : List ℕ) → below_bin (suc i) vs ≡ below_bin i vs + in_bin i vs
unfolding below_bin in_bin
below_bin-suc i [] = refl
below_bin-suc i (v ∷ vs) = split (bin_of v) (below_bin-suc i vs)
  where
    split :
        (b : ℕ)
        → below_bin (suc i) vs ≡ below_bin i vs + in_bin i vs
        → (if ltb b (suc i) then 1 else 0) + below_bin (suc i) vs
          ≡ (if ltb b i then 1 else 0) + below_bin i vs + ((if i == b then 1 else 0) + in_bin i vs)
    split b ih = ground arith

below_bin-le : (i : ℕ) (vs : List ℕ) → below_bin i vs ≤ length vs
unfolding below_bin
below_bin-le i [] = omega arith
below_bin-le i (v ∷ vs) = elim (Bool-cases (ltb (bin_of v) i)) [
  | inl e ↦ rw e (omega (arith, below_bin-le i vs))
  | inr e ↦ rw e (omega (arith, below_bin-le i vs))
]

below_bin-all : (vs : List ℕ) → below_bin num_bins vs ≡ length vs
unfolding below_bin
below_bin-all [] = refl
below_bin-all (v ∷ vs) =
    let e : ltb (bin_of v) num_bins ≡ true = ground (arith, bin_of-lt v) in
    rw e (omega (arith, below_bin-all vs))

-- The sample of rank `target` is in bin `i`.
abbrev pub HasRank : List ℕ → ℕ → ℕ → Type 0
HasRank vs target i = (below_bin i vs < target) × (target ≤ below_bin (suc i) vs)

-- What the loop returns from bin `i` on.
abbrev Found : List ℕ → ℕ → ℕ → Option ℕ → Type 0
Found vs target i none = below_bin i vs < target
Found vs target i (some j) = HasRank vs target j

find_bin_lem :
    (t : LatencyTracker) (vs : List ℕ) (target n i : ℕ)
    → Recorded t vs
    → length vs < 2 ^ 64
    → below_bin i vs < target
    → Found vs target (i + n) (find_bin t.bins target n i (below_bin i vs))
unfolding find_bin
find_bin_lem t vs target zero i v small h = let e : i + 0 ≡ i = omega arith in rw e h
find_bin_lem t vs target (suc n) i v small h =
    let next : add64 (below_bin i vs) (t.bins i) ≡ below_bin (suc i) vs =
      omega (arith, below_bin-suc i vs, below_bin-le (suc i) vs, v.bins i) in
    let e : i + 1 ≡ suc i = omega arith in
    elim (Bool-cases (leb target (below_bin (suc i) vs))) [
      | inl f ↦ rw (next, f) (h, ground arith)
      | inr f ↦
          let g : i + suc n ≡ suc i + n = omega arith in
          rw (next, f, e, g) (find_bin_lem t vs target n (suc i) v small (ground arith))
    ]

-- What `percentile` returns for a rank.
pub record Percentile (vs : List ℕ) (target result : ℕ) : Type 0 where
  pub bin : ℕ
  pub rank : HasRank vs target bin
  pub upper : result ≡ bucket_upper bin

percentile-some :
    (target : ℕ) (t : LatencyTracker)
    → (t.count == 0) ≡ false
    → percentile target t ≡ reported t (find_bin t.bins target num_bins 0 0)
unfolding percentile
percentile-some target t h =
    ap (λ b. if b then 0 else reported t (find_bin t.bins target num_bins 0 0)) h

-- On a tracker of fewer than 2^64 samples, for a rank from 1 to their number: `percentile` finds
-- a bin, and reports its upper bound; fewer samples than the rank are in the bins below it, and
-- at least as many in it and below.
pub percentile_lem :
    (t : LatencyTracker) (vs : List ℕ) (target : ℕ)
    → Recorded t vs
    → length vs < 2 ^ 64
    → 0 < target
    → target ≤ length vs
    → Percentile vs target (percentile target t)
unfolding reported
percentile_lem t vs target v small some_rank fits =
    let some_samples : (t.count == 0) ≡ false = ground (arith, v.count) in
    let start = below_bin-zero vs in
    let found = find_bin_lem t vs target num_bins 0 v small (omega arith) in
    subst (Percentile vs target) (sym (percentile-some target t some_samples)) (
      by_result (find_bin t.bins target num_bins 0 0) (
        subst (λ c. Found vs target (0 + num_bins) (find_bin t.bins target num_bins 0 c)) start
          found))
  where
    by_result :
        (r : Option ℕ) → Found vs target (0 + num_bins) r → Percentile vs target (reported t r)
    by_result none h = absurd (omega (arith, below_bin-all vs))
    by_result (some i) h = record { bin = i; rank = h; upper = refl }
