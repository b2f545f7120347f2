-- ===== src/Prelude/Wrap.antt =====
-- Indices that wrap around at `c`.
use Prim.Native.Nat.{ℕ, suc, ◌+◌, ◌-◌, ◌%◌, ◌≤◌, ◌<◌}
use mathlib.Core.Path.{◌≡◌, ap, ◌∙◌}
use mathlib.Core.Logic.{◌⊎◌, inl, inr}
use mathlib.Core.Bool.{false, ◌||◌}
use native.Mathlib.Omega.{arith}
use native.Mathlib.Nat.{mod-add-mod, mod-lt, mod-eq_of_lt, mod-eq-sub-mod, add-mod_right}
use lockfree_matching_engine.Prelude.Tests.{ltb, ◌==◌, Bool-cases}

-- The sum of an index and a distance wraps once at most.
abbrev pub Wrapped : ℕ → ℕ → ℕ → Type 0
Wrapped c s w = ((s < c) × (w ≡ s)) ⊎ ((c ≤ s) × (w + c ≡ s))

pub wrapped : (c i n : ℕ) → i < c → n ≤ c → Wrapped c (i + n) ((i + n) % c)
wrapped c i n h k = elim (Bool-cases (ltb (i + n) c)) [
  | inl l ↦ inl (ground arith, mod-eq_of_lt (ground arith))
  | inr l ↦
      let le : c ≤ i + n = ground arith in
      let e : (i + n) % c ≡ i + n - c = mod-eq-sub-mod le ∙ mod-eq_of_lt (omega arith) in
      inr (le, omega arith)
]

pub wrap-lt : (c i n : ℕ) → i < c → (i + n) % c < c
wrap-lt c i n h = mod-lt (i + n) (omega arith)

-- Two steps are one.
pub wrap-wrap : (c i m n : ℕ) → ((i + m) % c + n) % c ≡ (i + (m + n)) % c
wrap-wrap c i m n = mod-add-mod (i + m) c n ∙ ap (λ x. x % c) (omega arith)

pub wrap-suc : (c i n : ℕ) → ((i + 1) % c + n) % c ≡ (i + suc n) % c
wrap-suc c i n = mod-add-mod (i + 1) c n ∙ ap (λ x. x % c) (omega arith)

pub wrap-small : (c n : ℕ) → n < c → n % c ≡ n
wrap-small c n h = mod-eq_of_lt h

pub wrap-around : (c n : ℕ) → n < c → (n + c) % c ≡ n
wrap-around c n h = add-mod_right n c ∙ mod-eq_of_lt h

pub wrap-zero : (c i : ℕ) → i < c → (i + 0) % c ≡ i
wrap-zero c i h = ap (λ x. x % c) (omega arith) ∙ mod-eq_of_lt h

-- Different distances below `c` lead to different indices.
pub wrap-injective : (c i m n : ℕ) → i < c → m < c → n < c → (i + m) % c ≡ (i + n) % c → m ≡ n
wrap-injective c i m n h k l e = elim (wrapped c i m h (omega arith)) [
  | inl a ↦ elim (wrapped c i n h (omega arith)) [ inl b ↦ omega arith | inr b ↦ omega arith ]
  | inr a ↦ elim (wrapped c i n h (omega arith)) [ inl b ↦ omega arith | inr b ↦ omega arith ]
]

pub wrap-differs :
    (c i m n : ℕ) → i < c → m < c → n < c → (m == n) ≡ false → ((i + m) % c == (i + n) % c) ≡ false
wrap-differs c i m n h k l ne = elim (Bool-cases ((i + m) % c == (i + n) % c)) [
  | inl e ↦
      let f : (i + m) % c ≡ (i + n) % c = ground arith in
      absurd (ground (arith, wrap-injective c i m n h k l f))
  | inr d ↦ d
]

-- Back at the index after no step, or after `c` of them.
pub wrap-round : (c i n : ℕ) → i < c → n ≤ c → ((i + n) % c == i) ≡ ((n == 0) || (n == c))
wrap-round c i n h k = elim (wrapped c i n h k) [ inl a ↦ ground arith | inr a ↦ ground arith ]
