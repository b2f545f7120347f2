-- ===== src/Prelude/Lists.antt =====
-- Lists measured and indexed by native numbers, and Boolean membership of a list of numbers.
use Prim.Native.Nat.{ℕ, zero, suc, ◌+◌, ◌-◌, ◌<◌, ◌≤◌}
use mathlib.Core.Path.{◌≡◌, refl, sym, ap, fun_ext}
use mathlib.Core.Logic.{◌⊎◌, inl, inr}
use mathlib.Core.Bool.{Bool, true, false, ◌||◌}
use mathlib.Core.List.{List, [], ◌∷◌, ◌++◌}
use mathlib.Core.Option.{Option, none, some}
use native.Mathlib.Omega.{arith}
use lockfree_matching_engine.Prelude.Tests.{◌==◌, ==→eq, Bool-cases, if◌then◌else◌}

module _ {ℓ} {A : Type ℓ} where
  abbrev pub length : List A → ℕ
  length [] = 0
  length (x ∷ xs) = suc (length xs)

  abbrev pub get_elem? : List A → ℕ → Option A
  get_elem? [] i = none
  get_elem? (x ∷ xs) zero = some x
  get_elem? (x ∷ xs) (suc i) = get_elem? xs i

  pub get_elem?-append :
      (xs ys : List A) (i : ℕ) → i < length xs → get_elem? (xs ++ ys) i ≡ get_elem? xs i
  get_elem?-append [] ys i h = absurd (omega arith)
  get_elem?-append (x ∷ xs) ys zero h = refl
  get_elem?-append (x ∷ xs) ys (suc i) h = get_elem?-append xs ys i (omega arith)

  pub get_elem?-last : (xs : List A) (x : A) → get_elem? (xs ++ x ∷ []) (length xs) ≡ some x
  get_elem?-last [] x = refl
  get_elem?-last (y ∷ xs) x = get_elem?-last xs x

  abbrev pub get_or : List A → ℕ → A → A
  get_or [] i d = d
  get_or (x ∷ xs) zero d = x
  get_or (x ∷ xs) (suc i) d = get_or xs i d

  -- A write out of bounds changes nothing.
  abbrev pub set : List A → ℕ → A → List A
  set [] i v = []
  set (x ∷ xs) zero v = v ∷ xs
  set (x ∷ xs) (suc i) v = x ∷ set xs i v

  pub length-append : (xs ys : List A) → length (xs ++ ys) ≡ length xs + length ys
  length-append [] ys = omega arith
  length-append (x ∷ xs) ys = omega (arith, length-append xs ys)

  pub length-set : (xs : List A) (i : ℕ) (v : A) → length (set xs i v) ≡ length xs
  length-set [] i v = refl
  length-set (x ∷ xs) zero v = refl
  length-set (x ∷ xs) (suc i) v = ap suc (length-set xs i v)

-- A function that differs from `f` at one number.
abbrev pub update {ℓ} : {A : Type ℓ} → (ℕ → A) → ℕ → A → ℕ → A
update f i v j = if j == i then v else f j

abbrev pub has : ℕ → List ℕ → Bool
has a [] = false
has a (x ∷ xs) = (a == x) || has a xs

-- No number stands in the list twice.
abbrev pub Distinct : List ℕ → Type 0
Distinct [] = Unit {0}
Distinct (x ∷ xs) = (has x xs ≡ false) × Distinct xs

pub has-append : (a : ℕ) (xs ys : List ℕ) → has a (xs ++ ys) ≡ (has a xs || has a ys)
has-append a [] ys = refl
has-append a (x ∷ xs) ys = ground (arith, has-append a xs ys)

pub Distinct-snoc : (a : ℕ) (xs : List ℕ) → Distinct xs → has a xs ≡ false → Distinct (xs ++ a ∷ [])
Distinct-snoc a [] d out = (refl, tt)
Distinct-snoc a (x ∷ xs) d out =
    (ground (arith, has-append x xs (a ∷ [])), Distinct-snoc a xs d.1 (ground arith))

-- What distinct items say of the two sides of one of them.
pub record Around (xs : List ℕ) (p : ℕ) (ys : List ℕ) : Type 0 where
  pub left : Distinct xs
  pub right : Distinct ys
  pub not_left : has p xs ≡ false
  pub not_right : has p ys ≡ false
  pub apart : (q : ℕ) → has q xs ≡ true → has q ys ≡ false
  pub rest : Distinct (xs ++ ys)

pub Distinct-Around : (xs : List ℕ) (p : ℕ) (ys : List ℕ) → Distinct (xs ++ p ∷ ys) → Around xs p ys
Distinct-Around [] p ys d = record {
  left = tt;
  right = d.1;
  not_left = refl;
  not_right = d.0;
  apart = λ q h. absurd (cc);
  rest = d.1;
}
Distinct-Around (x ∷ xs) p ys d =
    let r = Distinct-Around xs p ys d.1 in
    let e = has-append x xs (p ∷ ys) in
    record {
      left = (ground arith, r.left);
      right = r.right;
      not_left = ground (arith, r.not_left);
      not_right = r.not_right;
      apart = λ q h. ground (arith, r.apart q);
      rest = (ground (arith, has-append x xs ys), r.rest);
    }

-- The ends of a list, with a default.
abbrev pub first_or : List ℕ → ℕ → ℕ
first_or [] z = z
first_or (p ∷ ps) z = p

abbrev pub last_or : ℕ → List ℕ → ℕ
last_or a [] = a
last_or a (p ∷ ps) = last_or p ps

pub first_or-append : (xs ys : List ℕ) (z : ℕ) → first_or (xs ++ ys) z ≡ first_or xs (first_or ys z)
first_or-append [] ys z = refl
first_or-append (x ∷ xs) ys z = refl

pub last_or-append : (a : ℕ) (xs ys : List ℕ) → last_or a (xs ++ ys) ≡ last_or (last_or a xs) ys
last_or-append a [] ys = refl
last_or-append a (x ∷ xs) ys = last_or-append x xs ys

pub has-ne : (a b : ℕ) (xs : List ℕ) → has a xs ≡ true → has b xs ≡ false → (a == b) ≡ false
has-ne a b [] h k = cc
has-ne a b (x ∷ xs) h k = ground (arith, has-ne a b xs)

-- Where an item stands.
pub has-split :
    (a : ℕ) (xs : List ℕ) → has a xs ≡ true → (ls : List ℕ) × (rs : List ℕ) × (xs ≡ ls ++ a ∷ rs)
has-split a [] h = cc
has-split a (x ∷ xs) h = elim (Bool-cases (a == x)) [
  | inl e ↦ ([], xs, ap (λ y. y ∷ xs) (sym (==→eq a x e)))
  | inr e ↦ let (ls, rs, i) = has-split a xs (ground arith) in (x ∷ ls, rs, ap (◌∷◌ x) i)
]

-- Writing a queue twice, and writing back what is there.
pub update_twice {ℓ} :
    {A : Type ℓ} (f : ℕ → A) (p : ℕ) (a b : A) → update (update f p a) p b ≡ update f p b
update_twice {A} f p a b = fun_ext (λ x. by_test (x == p) (f x))
  where
    by_test : (t : Bool) (c : A) → (if t then b else if t then a else c) ≡ (if t then b else c)
    by_test true c = refl
    by_test false c = refl

pub update_self {ℓ} : {A : Type ℓ} (f : ℕ → A) (p : ℕ) → update f p (f p) ≡ f
update_self f p =
    fun_ext
      (λ x. elim (Bool-cases (x == p)) [ inl e ↦ rw e (ap f (sym (==→eq x p e))) | inr e ↦ rw e ])

pub List-cases {ℓ} :
    {A : Type ℓ} (xs : List A) → (xs ≡ []) ⊎ ((x : A) × (ys : List A) × (xs ≡ x ∷ ys))
List-cases [] = inl refl
List-cases (x ∷ xs) = inr (x, xs, refl)

module _ {ℓ} {A : Type ℓ} where
  abbrev pub take : ℕ → List A → List A
  take zero xs = []
  take (suc n) [] = []
  take (suc n) (x ∷ xs) = x ∷ take n xs

  abbrev pub drop : ℕ → List A → List A
  drop zero xs = xs
  drop (suc n) [] = []
  drop (suc n) (x ∷ xs) = drop n xs

  pub take-append_left : (xs ys : List A) → take (length xs) (xs ++ ys) ≡ xs
  take-append_left [] ys = refl
  take-append_left (x ∷ xs) ys = ap (◌∷◌ x) (take-append_left xs ys)

  pub drop-append_left : (xs ys : List A) → drop (length xs) (xs ++ ys) ≡ ys
  drop-append_left [] ys = refl
  drop-append_left (x ∷ xs) ys = drop-append_left xs ys

  pub length-take : (n : ℕ) (xs : List A) → n ≤ length xs → length (take n xs) ≡ n
  length-take zero xs h = refl
  length-take (suc n) [] h = absurd (omega arith)
  length-take (suc n) (x ∷ xs) h = omega (arith, length-take n xs (omega arith))

  pub length-drop : (n : ℕ) (xs : List A) → length (drop n xs) ≡ length xs - n
  length-drop zero xs = omega arith
  length-drop (suc n) [] = omega arith
  length-drop (suc n) (x ∷ xs) = omega (arith, length-drop n xs)

  abbrev pub drop_last : List A → List A
  drop_last [] = []
  drop_last (x ∷ []) = []
  drop_last (x ∷ y ∷ ys) = x ∷ drop_last (y ∷ ys)

abbrev pub one_if : Bool → ℕ
one_if true = 1
one_if false = 0

-- How often a number stands in a list.
abbrev pub count : ℕ → List ℕ → ℕ
count a [] = 0
count a (x ∷ xs) = one_if (a == x) + count a xs

pub count-append :
    (left right : List ℕ) (n : ℕ) → count n (left ++ right) ≡ count n right + count n left
count-append [] right n = omega arith
count-append (m ∷ left) right n = omega (arith, count-append left right n)

pub count-set :
    (a : ℕ) (xs : List ℕ) (i v : ℕ)
    → i < length xs
    → count a (set xs i v) + one_if (a == get_or xs i 0) ≡ count a xs + one_if (a == v)
count-set a [] i v h = absurd (omega arith)
count-set a (x ∷ xs) zero v h = omega arith
count-set a (x ∷ xs) (suc i) v h = omega (arith, count-set a xs i v (omega arith))

pub count-drop_last :
    (a x : ℕ) (xs : List ℕ)
    → count a (drop_last (x ∷ xs)) + one_if (a == last_or x xs) ≡ count a (x ∷ xs)
count-drop_last a x [] = omega arith
count-drop_last a x (y ∷ ys) = omega (arith, count-drop_last a y ys)
