-- ===== src/Core/OrderBook/Scan.antt =====
-- The scans of core/order_book.cpp for the next level that is not empty.
use lockfree_matching_engine.Prelude.{
  ℕ, zero, suc, ◌+◌, ◌≤◌, ◌<◌, ◌≡◌, refl, true, false, Option, none, some, arith, inl, inr,
  Bool-cases, ◌==◌,
}
use lockfree_matching_engine.Core.PriceLevel.{PriceLevel, is_empty}
use lockfree_matching_engine.Core.OrderBook.{scan_down, scan_up}

-- The greatest price below `n` at which a level is not empty, if there is one.
abbrev pub ScanDown : (ℕ → PriceLevel) → ℕ → Option ℕ → Type 0
ScanDown levels n none = (x : ℕ) → x < n → is_empty (levels x) ≡ true
ScanDown levels n (some p) =
    (p < n) × (is_empty (levels p) ≡ false) × ((x : ℕ) → p < x → x < n → is_empty (levels x) ≡ true)

ScanDown-suc :
    (levels : ℕ → PriceLevel) (n : ℕ) (r : Option ℕ)
    → is_empty (levels n) ≡ true
    → ScanDown levels n r
    → ScanDown levels (suc n) r
ScanDown-suc levels n none e h =
    λ x k. elim (Bool-cases (x == n)) [ inl i ↦ at x (ground arith) | inr i ↦ h x (ground arith) ]
  where
    at : (x : ℕ) → x ≡ n → is_empty (levels x) ≡ true
    at x i = rw i e
ScanDown-suc levels n (some p) e h = (
  omega (arith, h.0),
  h.1,
  λ x k m. elim (Bool-cases (x == n)) [
    | inl i ↦ at x (ground arith)
    | inr i ↦ h.2 x k (ground arith)
  ],
)
  where
    at : (x : ℕ) → x ≡ n → is_empty (levels x) ≡ true
    at x i = rw i e

scan_down-empty :
    (levels : ℕ → PriceLevel) (n : ℕ)
    → is_empty (levels n) ≡ true
    → scan_down levels (suc n) ≡ scan_down levels n
unfolding scan_down
scan_down-empty levels n e = rw (e, scan_down)

scan_down-found :
    (levels : ℕ → PriceLevel) (n : ℕ)
    → is_empty (levels n) ≡ false
    → scan_down levels (suc n) ≡ some n
unfolding scan_down
scan_down-found levels n e = rw (e, scan_down)

scan_down-none : (levels : ℕ → PriceLevel) → scan_down levels zero ≡ none
unfolding scan_down
scan_down-none levels = refl

-- The downward scan below a price returns the highest price there whose level is not empty, and
-- none exactly if all of them are empty.
pub scan_down_lem : (levels : ℕ → PriceLevel) (n : ℕ) → ScanDown levels n (scan_down levels n)
scan_down_lem levels zero = rw (scan_down-none levels) (λ x h. elim h [ ])
scan_down_lem levels (suc n) = elim (Bool-cases (is_empty (levels n))) [
  | inl e ↦
      rw (scan_down-empty levels n e)
        (ScanDown-suc levels n (scan_down levels n) e (scan_down_lem levels n))
  | inr e ↦ rw (scan_down-found levels n e) (omega arith, e, λ x k m. absurd (omega arith))
]

-- The least of the `k` prices from `a` on at which a level is not empty, if there is one.
abbrev pub ScanUp : (ℕ → PriceLevel) → ℕ → ℕ → Option ℕ → Type 0
ScanUp levels k a none = (x : ℕ) → a ≤ x → x < a + k → is_empty (levels x) ≡ true
ScanUp levels k a (some p) =
    (a ≤ p)
    × (p < a + k)
    × (is_empty (levels p) ≡ false)
    × ((x : ℕ) → a ≤ x → x < p → is_empty (levels x) ≡ true)

ScanUp-suc :
    (levels : ℕ → PriceLevel) (k a : ℕ) (r : Option ℕ)
    → is_empty (levels a) ≡ true
    → ScanUp levels k (a + 1) r
    → ScanUp levels (suc k) a r
ScanUp-suc levels k a none e h = λ x i m. elim (Bool-cases (x == a)) [
  | inl j ↦ at x (ground arith)
  | inr j ↦ h x (ground arith) (omega arith)
]
  where
    at : (x : ℕ) → x ≡ a → is_empty (levels x) ≡ true
    at x j = rw j e
ScanUp-suc levels k a (some p) e h = (
  omega (arith, h.0),
  omega (arith, h.1),
  h.2,
  λ x i m. elim (Bool-cases (x == a)) [
    | inl j ↦ at x (ground arith)
    | inr j ↦ h.3 x (ground arith) m
  ],
)
  where
    at : (x : ℕ) → x ≡ a → is_empty (levels x) ≡ true
    at x j = rw j e

scan_up-empty :
    (levels : ℕ → PriceLevel) (k a : ℕ)
    → is_empty (levels a) ≡ true
    → scan_up levels (suc k) a ≡ scan_up levels k (a + 1)
unfolding scan_up
scan_up-empty levels k a e = rw (e, scan_up)

scan_up-found :
    (levels : ℕ → PriceLevel) (k a : ℕ)
    → is_empty (levels a) ≡ false
    → scan_up levels (suc k) a ≡ some a
unfolding scan_up
scan_up-found levels k a e = rw (e, scan_up)

scan_up-none : (levels : ℕ → PriceLevel) (a : ℕ) → scan_up levels zero a ≡ none
unfolding scan_up
scan_up-none levels a = refl

-- The upward scan of k prices returns the lowest of them whose level is not empty, and none
-- exactly if all of them are empty.
pub scan_up_lem : (levels : ℕ → PriceLevel) (k a : ℕ) → ScanUp levels k a (scan_up levels k a)
scan_up_lem levels zero a = rw (scan_up-none levels a) (λ x i m. absurd (omega arith))
scan_up_lem levels (suc k) a = elim (Bool-cases (is_empty (levels a))) [
  | inl e ↦
      rw (scan_up-empty levels k a e)
        (ScanUp-suc levels k a (scan_up levels k (a + 1)) e (scan_up_lem levels k (a + 1)))
  | inr e ↦
      rw (scan_up-found levels k a e) (omega arith, omega arith, e, λ x i m. absurd (omega arith))
]
