-- ===== src/Metrics/LatencyTracker/Buckets.antt =====
-- metrics/latency_tracker.h: how far a bin's upper bound is from the values in the bin.
use lockfree_matching_engine.Prelude.{
  ℕ, zero, suc, ◌+◌, ◌-◌, ◌*◌, ◌/◌, ◌%◌, ◌^◌, ◌≤◌, ◌<◌, ◌≡◌, refl, sym, ◌∙◌, ap, subst, true, false,
  arith, ◌==◌, ltb, Bool-cases, inl, inr, sub64,
}
use native.Mathlib.Nat.{
  two-pow-succ, pow-le-pow_right, mod-lt, div-add-mod, lt_of_mul-lt-mul_left, mul_comm, mul-add,
  mul-le-mul_left, one-le-pow,
}
use lockfree_matching_engine.Metrics.LatencyTracker.{
  sub_count, bits, bit_width, octave_index, bucket_index, bucket_upper,
}

-- A positive number has `w` binary digits, the first at position `msb`.
pub record Digits (w v : ℕ) : Type 0 where
  pub msb : ℕ
  pub width : w ≡ suc msb
  pub least : 2 ^ msb ≤ v
  pub below : v < 2 ^ suc msb

bits_zero : (n : ℕ) → bits n 0 ≡ 0
unfolding bits
bits_zero zero = refl
bits_zero (suc n) = refl

bits-le : (n v : ℕ) → bits n v ≤ n
unfolding bits
bits-le zero v = omega arith
bits-le (suc n) v = elim (Bool-cases (v == 0)) [
  | inl e ↦ rw e (omega arith)
  | inr e ↦ rw e (omega (arith, bits-le n (v / 2)))
]

Digits-suc : (w v : ℕ) → Digits w (v / 2) → Digits (suc w) v
Digits-suc w v d = record {
  msb = suc d.msb;
  width = ap suc d.width;
  least = omega (arith, d.least, two-pow-succ d.msb);
  below = omega (arith, d.below, two-pow-succ (suc d.msb));
}

bits_lem : (n v : ℕ) → 0 < v → v < 2 ^ n → Digits (bits n v) v
unfolding bits
bits_lem zero v h k = absurd (omega arith)
bits_lem (suc n) v h k =
    let some_digit : (v == 0) ≡ false = ground arith in
    elim (Bool-cases (v / 2 == 0)) [
      | inl e ↦
          let one_left : v / 2 ≡ 0 = ground arith in
          rw (some_digit, one_left, bits_zero n)
            (record { msb = 0; width = refl; least = omega arith; below = omega arith })
      | inr e ↦ rw some_digit (
          Digits-suc (bits n (v / 2)) v
            (bits_lem n (v / 2) (ground arith) (omega (arith, two-pow-succ n))))
    ]

pow-add : (s k : ℕ) → 2 ^ (s + k) ≡ 2 ^ s * 2 ^ k
pow-add s zero = let e : s + 0 ≡ s = omega arith in rw e (omega arith)
pow-add s (suc k) =
    let e : s + suc k ≡ suc (s + k) = omega arith in
    rw (e, two-pow-succ (s + k), two-pow-succ k, pow-add s k)
      (sym (mul-add (2 ^ s) (2 ^ k) (2 ^ k)))

bucket_upper-exact : (v : ℕ) → v < 64 → bucket_upper v ≡ v
unfolding bucket_upper
bucket_upper-exact v h = let l : ltb v 64 ≡ true = ground arith in rw l

bucket_upper_lem :
    (s k : ℕ)
    → 64 ≤ k
    → k < 128
    → bucket_upper (64 * (s + 1) + (k - 64)) ≡ sub64 (((k + 1) * 2 ^ s) % 2 ^ 64) 1
unfolding bucket_upper
bucket_upper_lem s k h l =
    let idx = 64 * (s + 1) + (k - 64) in
    let large : ltb idx 64 ≡ false = ground arith in
    let oct : idx / 64 - 1 ≡ s = omega arith in
    let sub : 64 + idx % 64 + 1 ≡ k + 1 = omega arith in rw (large, oct, sub)

-- A value of `s + 7` digits, with `2 ^ s` as the width of its bin.
module _ (s v : ℕ) (wide : s + 7 ≤ 64) (least : 2 ^ (s + 6) ≤ v) (below : v < 2 ^ (s + 7)) where
  abbrev pub width : ℕ
  width = 2 ^ s

  abbrev pub quotient : ℕ
  quotient = v / 2 ^ s

  width_pos : 0 < width
  width_pos = one-le-pow s 2 (omega arith)

  least-width : width * 64 ≤ v
  least-width = omega (arith, least, pow-add s 6)

  below-width : v < width * 128
  below-width = omega (arith, below, pow-add s 7)

  within-word : width * 128 ≤ 2 ^ 64
  within-word =
      let h : 2 ^ (s + 7) ≤ 2 ^ 64 = pow-le-pow_right (omega arith) wide in
      omega (arith, pow-add s 7)

  -- Which bin of its octave the value is in.
  pub parts : (width * quotient ≤ v) × (v < width * quotient + width)
  parts = let e = div-add-mod v (2 ^ s) in let h = mod-lt v width_pos in (omega arith, omega arith)

  pub quotient-lt : quotient < 128
  quotient-lt = lt_of_mul-lt-mul_left width (omega (arith, parts, below-width))

  pub quotient-ge : 64 ≤ quotient
  quotient-ge =
      let h : width * 64 < width * (quotient + 1) =
        omega (arith, parts, least-width, mul-add width quotient 1) in
      let k : 64 < quotient + 1 = lt_of_mul-lt-mul_left width h in omega arith

  pub octave_index_lem : octave_index (s + 6) v ≡ 64 * (s + 1) + (quotient - 64)
  octave_index_lem = let e : s + 6 - 6 ≡ s = omega arith in rw e

  octave-upper : bucket_upper (octave_index (s + 6) v) ≡ width * quotient + width - 1
  octave-upper =
      let k = quotient in
      let e : (k + 1) * width ≡ width * k + width =
        mul_comm (k + 1) width ∙ mul-add width k 1 ∙ omega arith in
      let p : 0 < width * k + width = omega (arith, width_pos) in
      let m : width * (k + 1) ≤ width * 128 = mul-le-mul_left width (omega (arith, quotient-lt)) in
      let le : width * k + width ≤ 2 ^ 64 = omega (arith, within-word, mul-add width k 1) in
      ap bucket_upper octave_index_lem
      ∙ bucket_upper_lem s k quotient-ge quotient-lt
      ∙ rw e (omega arith)

  octave_bound : let u = bucket_upper (octave_index (s + 6) v) in (v ≤ u) × (64 * (u - v) ≤ v)
  octave_bound = rw octave-upper (omega (arith, parts), omega (arith, parts, least-width))

-- The first binary digit of a value that is not below 64.
high_digit : (v msb : ℕ) → 64 ≤ v → v < 2 ^ suc msb → 6 ≤ msb
high_digit v msb h k = elim (Bool-cases (ltb msb 6)) [
  | inr l ↦ ground arith
  | inl l ↦
      let m : suc msb ≤ 6 = ground arith in
      let p : 2 ^ suc msb ≤ 2 ^ 6 = pow-le-pow_right (omega arith) m in absurd (omega arith)
]

-- What holds of every octave holds of the one of a value that is not below 64.
pub octave_of :
    (v : ℕ) (Q : ℕ → Type 0)
    → 64 ≤ v
    → v < 2 ^ 64
    → ((s : ℕ) → s + 7 ≤ 64 → 2 ^ (s + 6) ≤ v → v < 2 ^ (s + 7) → Q (octave_index (s + 6) v))
    → Q (octave_index (bit_width v - 1) v)
octave_of v Q h small each =
    let d = bits_lem 64 v (omega arith) small in
    let wide = bits-le 64 v in
    let high = high_digit v d.msb h d.below in
    let at : bit_width v - 1 ≡ d.msb - 6 + 6 = omega (arith, d.width) in
    let low : d.msb ≡ d.msb - 6 + 6 = omega arith in
    let up : suc d.msb ≡ d.msb - 6 + 7 = omega arith in
    subst (λ m. Q (octave_index m v)) (sym at)
      (each (d.msb - 6) (omega (arith, d.width)) (subst (λ m. 2 ^ m ≤ v) low d.least)
        (subst (λ m. v < 2 ^ m) up d.below))

-- The upper bound of the bin that a value would have without an end to the bins is at least the
-- value, and exceeds it by a 64th of the value at most.
pub bucket_bound :
    (v : ℕ) → v < 2 ^ 64 → let u = bucket_upper (bucket_index v) in (v ≤ u) × (64 * (u - v) ≤ v)
unfolding bucket_index
bucket_bound v h = elim (Bool-cases (ltb v sub_count)) [
  | inl l ↦ rw (l, bucket_upper-exact v (ground arith)) (omega arith, omega arith)
  | inr l ↦ rw l (
      octave_of v (λ i. let u = bucket_upper i in (v ≤ u) × (64 * (u - v) ≤ v)) (ground arith) h
        λ s wide least below. octave_bound s v wide least below)
]
