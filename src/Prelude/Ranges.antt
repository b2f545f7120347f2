-- ===== src/Prelude/Ranges.antt =====
-- Ranges of numbers, upwards and downwards, and where a number of the range stands.
use Prim.Native.Nat.{ℕ, zero, suc, ◌+◌, ◌≤◌, ◌<◌}
use mathlib.Core.Path.{◌≡◌, ap}
use mathlib.Core.Logic.{inl, inr}
use mathlib.Core.Bool.{true, ◌&&◌}
use mathlib.Core.List.{List, [], ◌∷◌, ◌++◌}
use native.Mathlib.Omega.{arith}
use lockfree_matching_engine.Prelude.Tests.{ltb, leb, ◌==◌, ==→eq, Bool-cases}
use lockfree_matching_engine.Prelude.Lists.{has}

-- lo, lo + 1, …, lo + n - 1
abbrev pub ascending : ℕ → ℕ → List ℕ
ascending zero lo = []
ascending (suc n) lo = lo ∷ ascending n (suc lo)

-- lo + n - 1, …, lo + 1, lo
abbrev pub descending : ℕ → ℕ → List ℕ
descending zero lo = []
descending (suc n) lo = (lo + n) ∷ descending n lo

pub has-ascending : (n lo x : ℕ) → has x (ascending n lo) ≡ (leb lo x && ltb x (lo + n))
has-ascending zero lo x = ground arith
has-ascending (suc n) lo x = ground (arith, has-ascending n (suc lo) x)

pub has-descending : (n lo x : ℕ) → has x (descending n lo) ≡ (leb lo x && ltb x (lo + n))
has-descending zero lo x = ground arith
has-descending (suc n) lo x = ground (arith, has-descending n lo x)

-- `a` in the list `xs`, which goes through the numbers of `pre` before.
pub record Reached (xs : List ℕ) (a : ℕ) (before : ℕ → Type 0) : Type 0 where
  pub pre : List ℕ
  pub post : List ℕ
  pub split : xs ≡ pre ++ a ∷ post
  pub earlier : (x : ℕ) → has x pre ≡ true → before x

pub ascending-Reached : (n lo a : ℕ) → lo ≤ a → a < lo + n → Reached (ascending n lo) a (λ x. x < a)
ascending-Reached zero lo a h k = absurd (omega arith)
ascending-Reached (suc n) lo a h k = elim (Bool-cases (lo == a)) [
  | inl e ↦ record {
    pre = [];
    post = ascending n (suc lo);
    split = ap (λ z. z ∷ ascending n (suc lo)) (==→eq lo a e);
    earlier = λ x i. cc;
  }
  | inr e ↦
      let r = ascending-Reached n (suc lo) a (ground arith) (omega arith) in
      record {
        pre = lo ∷ r.pre;
        post = r.post;
        split = ap (◌∷◌ lo) r.split;
        earlier = λ x i. ground (arith, r.earlier x);
      }
]

pub descending-Reached :
    (n lo a : ℕ) → lo ≤ a → a < lo + n → Reached (descending n lo) a (λ x. a < x)
descending-Reached zero lo a h k = absurd (omega arith)
descending-Reached (suc n) lo a h k = elim (Bool-cases ((lo + n) == a)) [
  | inl e ↦ record {
    pre = [];
    post = descending n lo;
    split = ap (λ z. z ∷ descending n lo) (==→eq (lo + n) a e);
    earlier = λ x i. cc;
  }
  | inr e ↦
      let r = descending-Reached n lo a h (ground arith) in
      record {
        pre = (lo + n) ∷ r.pre;
        post = r.post;
        split = ap (◌∷◌ (lo + n)) r.split;
        earlier = λ x i. ground (arith, r.earlier x);
      }
]
