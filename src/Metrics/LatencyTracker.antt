-- ===== src/Metrics/LatencyTracker.antt =====
-- metrics/latency_tracker.h: a histogram of latencies with 64 bins for each power of two.
pub mod Buckets
pub mod Firsts
pub mod Bins
pub mod Histogram
pub mod Counts
use lockfree_matching_engine.Prelude.{
  ℕ, zero, suc, ◌+◌, ◌-◌, ◌*◌, ◌/◌, ◌%◌, ◌^◌, Bool, true, false, Option, some, none, List, [], ◌∷◌,
  ◌==◌, ltb, leb, if◌then◌else◌, add64, sub64, update,
}

abbrev pub sub_bits : ℕ
sub_bits = 6

abbrev pub sub_count : ℕ
sub_count = 64

abbrev pub num_bins : ℕ
num_bins = 2368

-- `std::bit_width`: the number of binary digits, of a number with at most `n` of them.
unfoldable pub bits : ℕ → ℕ → ℕ
bits zero v = 0
bits (suc n) v = if v == 0 then 0 else suc (bits n (v / 2))

abbrev pub bit_width : ℕ → ℕ
bit_width v = bits 64 v

-- The bin of a value with `msb + 1` binary digits, of which there are more than 6.
abbrev pub octave_index : ℕ → ℕ → ℕ
octave_index msb v =
    let shift = msb - sub_bits in
    let sub = v / 2 ^ shift - sub_count in sub_count * (shift + 1) + sub

unfoldable pub bucket_index : ℕ → ℕ
unfolding bits
bucket_index v = if ltb v sub_count then v else octave_index (bit_width v - 1) v

unfoldable pub bucket_upper : ℕ → ℕ
bucket_upper idx =
    if ltb idx sub_count
    then idx
    else (let oct = idx / sub_count - 1 in
        let sub = idx % sub_count in sub64 (((sub_count + sub + 1) * 2 ^ oct) % 2 ^ 64) 1)

pub record LatencyTracker : Type 0 where
  pub bins : ℕ → ℕ
  pub count : ℕ
  pub sum : ℕ
  pub max_ns : ℕ
  pub min_ns : ℕ

-- `UINT64_MAX`
abbrev pub no_min : ℕ
no_min = 2 ^ 64 - 1

-- A new tracker, and what `reset` leaves.
abbrev pub new_tracker : LatencyTracker
new_tracker = record { bins = λ i. 0; count = 0; sum = 0; max_ns = 0; min_ns = no_min }

abbrev pub bin_of : ℕ → ℕ
bin_of ns = let idx = bucket_index ns in if leb num_bins idx then num_bins - 1 else idx

unfoldable pub record_ns : ℕ → LatencyTracker → LatencyTracker
unfolding bucket_index
record_ns ns t =
    let idx = bin_of ns in
    record {
      bins = update t.bins idx (add64 (t.bins idx) 1);
      count = add64 t.count 1;
      sum = add64 t.sum ns;
      max_ns = if ltb t.max_ns ns then ns else t.max_ns;
      min_ns = if ltb ns t.min_ns then ns else t.min_ns;
    }

-- The loop of `percentile`, with `n` bins left from bin `i` on.
unfoldable pub find_bin : (ℕ → ℕ) → ℕ → ℕ → ℕ → ℕ → Option ℕ
find_bin bins target zero i cumulative = none
find_bin bins target (suc n) i cumulative =
    let later = find_bin bins target n (i + 1) (add64 cumulative (bins i)) in
    if leb target (add64 cumulative (bins i)) then some i else later

unfoldable pub reported : LatencyTracker → Option ℕ → ℕ
unfolding bucket_upper
reported t (some i) = bucket_upper i
reported t none = t.max_ns

-- `percentile`, from the rank `target` that it computes with `double`s.
unfoldable pub percentile : ℕ → LatencyTracker → ℕ
unfolding find_bin reported
percentile target t = if t.count == 0 then 0 else reported t (find_bin t.bins target num_bins 0 0)

abbrev pub min_value : LatencyTracker → ℕ
min_value t = if t.count == 0 then 0 else t.min_ns

abbrev pub mean : LatencyTracker → ℕ
mean t = if t.count == 0 then 0 else t.sum / t.count
