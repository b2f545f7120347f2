-- ===== src/Metrics/LatencyTracker/Firsts.antt =====
-- metrics/latency_tracker.h: the least value of each bin.
use lockfree_matching_engine.Prelude.{
  ℕ, zero, suc, ◌+◌, ◌-◌, ◌*◌, ◌/◌, ◌%◌, ◌^◌, ◌≤◌, ◌<◌, ◌≡◌, refl, sym, ◌∙◌, ap, subst, true, false,
  arith, ltb, Bool-cases, inl, inr, if◌then◌else◌,
}
use native.Mathlib.Nat.{two-pow-succ, mul_comm, mul-le-mul_left}

-- The least value of a bin: 64 bins of one value each, and then 64 for each power of two.
unfoldable pub first_of : ℕ → ℕ
first_of i = if ltb i 64 then i else (64 + i % 64) * 2 ^ (i / 64 - 1)

pub first_of-small : (i : ℕ) → i < 64 → first_of i ≡ i
unfolding first_of
first_of-small i h = let l : ltb i 64 ≡ true = ground arith in rw l refl

pub first_of-large : (s k : ℕ) → 64 ≤ k → k < 128 → first_of (64 * (s + 1) + (k - 64)) ≡ k * 2 ^ s
unfolding first_of
first_of-large s k h l =
    let i = 64 * (s + 1) + (k - 64) in
    let large : ltb i 64 ≡ false = ground arith in
    let oct : i / 64 - 1 ≡ s = omega arith in
    let sub : 64 + i % 64 ≡ k = omega arith in rw (large, oct, sub) refl

pub first_of-next :
    (s k : ℕ) → 64 ≤ k → k < 128 → first_of (suc (64 * (s + 1) + (k - 64))) ≡ (k + 1) * 2 ^ s
first_of-next s k h l = elim (Bool-cases (ltb k 127)) [
  | inl e ↦
      let at : suc (64 * (s + 1) + (k - 64)) ≡ 64 * (s + 1) + (k + 1 - 64) = omega arith in
      ap first_of at ∙ first_of-large s (k + 1) (omega arith) (ground arith)
  | inr e ↦
      let at : suc (64 * (s + 1) + (k - 64)) ≡ 64 * (s + 1 + 1) + (64 - 64) = ground arith in
      let last : k + 1 ≡ 128 = ground arith in
      let up : s + 1 ≡ suc s = omega arith in
      ap first_of at
      ∙ first_of-large (s + 1) 64 (omega arith) (omega arith)
      ∙ rw (last, up, two-pow-succ s) (omega arith)
]

-- A bin above the first 64, by its octave and its place there.
first_of-step : (i : ℕ) → first_of i ≤ first_of (suc i)
first_of-step i = elim (Bool-cases (ltb i 64)) [
  | inl l ↦ small i (ground arith)
  | inr l ↦
      let s = i / 64 - 1 in
      let k = i % 64 + 64 in
      let at : i ≡ 64 * (s + 1) + (k - 64) = ground arith in
      subst (λ j. first_of j ≤ first_of (suc j)) (sym at) (large s k (omega arith) (omega arith))
]
  where
    large :
        (s k : ℕ)
        → 64 ≤ k
        → k < 128
        → first_of (64 * (s + 1) + (k - 64)) ≤ first_of (suc (64 * (s + 1) + (k - 64)))
    large s k h l =
        rw
          (
            first_of-large s k h l,
            first_of-next s k h l,
            mul_comm k (2 ^ s),
            mul_comm (k + 1) (2 ^ s),
          )
          (mul-le-mul_left (2 ^ s) (omega arith))

    small : (i : ℕ) → i < 64 → first_of i ≤ first_of (suc i)
    small i h = elim (Bool-cases (ltb i 63)) [
      | inl l ↦ rw (first_of-small i h, first_of-small (suc i) (ground arith)) (omega arith)
      | inr l ↦
          let at : i ≡ 63 = ground arith in
          let first : first_of 63 ≡ 63 = first_of-small 63 (omega arith) in
          let above : first_of 64 ≡ 64 = first_of-large 0 64 (omega arith) (omega arith) in
          rw (at, first, above) (omega arith)
    ]

first_of-le : (i n : ℕ) → first_of i ≤ first_of (i + n)
first_of-le i zero = let e : i + 0 ≡ i = omega arith in rw e (omega arith)
first_of-le i (suc n) =
    let e : i + suc n ≡ suc (i + n) = omega arith in
    rw e (omega (arith, first_of-le i n, first_of-step (i + n)))

pub first_of_mono : (i j : ℕ) → i ≤ j → first_of i ≤ first_of j
first_of_mono i j h =
    let e : i + (j - i) ≡ j = omega arith in
    subst (λ k. first_of i ≤ first_of k) e (first_of-le i (j - i))

pub first_of-end : first_of 2368 ≡ 2 ^ 42
unfolding first_of
first_of-end = refl
