-- ===== src/Prelude/Sums.antt =====
-- Sums over an initial range of numbers.
use Prim.Native.Nat.{ℕ, zero, suc, ◌+◌, ◌≤◌, ◌<◌}
use mathlib.Core.Path.{◌≡◌, refl}
use mathlib.Core.Logic.{inl, inr}
use mathlib.Core.Bool.{Bool, true, false, ◌||◌}
use native.Mathlib.Omega.{arith}
use lockfree_matching_engine.Prelude.Tests.{◌==◌, Bool-cases}

-- f 0 + … + f (n - 1)
unfoldable pub sum_upto : (ℕ → ℕ) → ℕ → ℕ
sum_upto f zero = 0
sum_upto f (suc n) = f n + sum_upto f n

-- `g` is `f` but for one more at `p`.
pub record OneMore (f g : ℕ → ℕ) (p : ℕ) : Type 0 where
  pub here : g p ≡ suc (f p)
  pub elsewhere : (x : ℕ) → (x == p) ≡ false → g x ≡ f x

pub sum_upto-same :
    (f g : ℕ → ℕ) (n : ℕ) → ((x : ℕ) → x < n → g x ≡ f x) → sum_upto g n ≡ sum_upto f n
unfolding sum_upto
sum_upto-same f g zero h = refl
sum_upto-same f g (suc n) h =
    omega (arith, h n (omega arith), sum_upto-same f g n (λ x k. h x (omega arith)))

pub sum_upto-zero : (f : ℕ → ℕ) (n : ℕ) → ((x : ℕ) → x < n → f x ≡ 0) → sum_upto f n ≡ 0
unfolding sum_upto
sum_upto-zero f zero h = refl
sum_upto-zero f (suc n) h =
    omega (arith, h n (omega arith), sum_upto-zero f n (λ x k. h x (omega arith)))

pub le-sum_upto : (f : ℕ → ℕ) (n x : ℕ) → x < n → f x ≤ sum_upto f n
unfolding sum_upto
le-sum_upto f zero x h = absurd (omega arith)
le-sum_upto f (suc n) x h = elim (Bool-cases (x == n)) [
  | inl e ↦ le_last (ground arith)
  | inr e ↦ omega (arith, le-sum_upto f n x (ground arith))
]
  where
    le_last : x ≡ n → f x ≤ f n + sum_upto f n
    le_last e = rw e (omega arith)

pub sum_upto-OneMore :
    (f g : ℕ → ℕ) (p n : ℕ) → OneMore f g p → p < n → sum_upto g n ≡ suc (sum_upto f n)
unfolding sum_upto
sum_upto-OneMore f g p zero o h = absurd (omega arith)
sum_upto-OneMore f g p (suc n) o h = elim (Bool-cases (n == p)) [
  | inl e ↦ at_last (ground arith)
  | inr e ↦ omega (arith, o.elsewhere n e, sum_upto-OneMore f g p n o (ground arith))
]
  where
    at_last : n ≡ p → g n + sum_upto g n ≡ suc (f n + sum_upto f n)
    at_last e =
        rw e (omega (arith, o.here, sum_upto-same f g p (λ x k. o.elsewhere x (ground arith))))

pub sum_upto-add : (f g : ℕ → ℕ) (n : ℕ) → sum_upto (λ x. f x + g x) n ≡ sum_upto f n + sum_upto g n
unfolding sum_upto
sum_upto-add f g zero = refl
sum_upto-add f g (suc n) = omega (arith, sum_upto-add f g n)

-- Does the test hold of a number below `n`?
unfoldable pub any_upto : (ℕ → Bool) → ℕ → Bool
any_upto f zero = false
any_upto f (suc n) = f n || any_upto f n

pub any_upto-at : (f : ℕ → Bool) (n x : ℕ) → x < n → f x ≡ true → any_upto f n ≡ true
unfolding any_upto
any_upto-at f zero x h k = absurd (omega arith)
any_upto-at f (suc n) x h k = elim (Bool-cases (x == n)) [
  | inl e ↦ at_last (ground arith)
  | inr e ↦ ground (arith, any_upto-at f n x (ground arith) k)
]
  where
    at_last : x ≡ n → (f n || any_upto f n) ≡ true
    at_last e = rw (← e, k)

pub any_upto-found : (f : ℕ → Bool) (n : ℕ) → any_upto f n ≡ true → (x : ℕ) × (x < n) × (f x ≡ true)
unfolding any_upto
any_upto-found f zero h = cc
any_upto-found f (suc n) h = elim (Bool-cases (f n)) [
  | inl e ↦ (n, omega arith, e)
  | inr e ↦ let (x, l, t) = any_upto-found f n (ground arith) in (x, omega arith, t)
]
