-- ===== src/Core/MatchingEngine/FillQueue.antt =====
-- Facts of `fill_queue`: its branches, and what it does to quantities.
use lockfree_matching_engine.Prelude.{
  ℕ, ◌+◌, ◌-◌, ◌≤◌, ◌<◌, ◌≡◌, refl, true, false, arith, List, [], ◌∷◌, ltb, ◌==◌, Bool-cases, ◌⊎◌,
  inl, inr,
}
use lockfree_matching_engine.Core.MatchingEngine.Matching.{Offer, Trade, trade, fill_queue}

pub fill_queue-partial :
    (k : ℕ) (o : Offer) (os : List Offer)
    → 0 < k
    → k < o.left
    → fill_queue k (o ∷ os) ≡ (trade o.maker k ∷ [], 0, record o { left = o.left - k } ∷ os)
unfolding fill_queue
fill_queue-partial k o os h l =
    let a : (k == 0) ≡ false = ground arith in
    let c : ltb k o.left ≡ true = ground arith in rw (a, c)

pub fill_queue-whole :
    (k : ℕ) (o : Offer) (os : List Offer)
    → 0 < k
    → o.left ≤ k
    → fill_queue k (o ∷ os) ≡ (
      trade o.maker o.left ∷ (fill_queue (k - o.left) os).0,
      (fill_queue (k - o.left) os).1,
      (fill_queue (k - o.left) os).2,
    )
unfolding fill_queue
fill_queue-whole k o os h l =
    let a : (k == 0) ≡ false = ground arith in
    let c : ltb k o.left ≡ false = ground arith in rw (a, c)

pub fill_queue-zero : (os : List Offer) → fill_queue 0 os ≡ ([], 0, os)
unfolding fill_queue
fill_queue-zero [] = refl
fill_queue-zero (o ∷ os) = refl

pub fill_queue-nil : (k : ℕ) → fill_queue k [] ≡ ([], k, [])
unfolding fill_queue
fill_queue-nil k = refl

-- What the trades of a list add up to.
unfoldable pub traded : List Trade → ℕ
traded [] = 0
traded (t ∷ ts) = t.quantity + traded ts

-- What a taker does not get, it still wants.
pub fill_queue-conserves :
    (k : ℕ) (os : List Offer) → traded (fill_queue k os).0 + (fill_queue k os).1 ≡ k
unfolding traded
fill_queue-conserves k [] = rw (fill_queue-nil k) (omega arith)
fill_queue-conserves k (o ∷ os) = elim (Bool-cases (k == 0)) [
  | inl e ↦ none_wanted (ground arith)
  | inr e ↦ elim (Bool-cases (ltb k o.left)) [
    | inl l ↦ rw (fill_queue-partial k o os (ground arith) (ground arith)) (omega arith)
    | inr l ↦
        let c = fill_queue-conserves (k - o.left) os in
        let le : o.left ≤ k = ground arith in
        rw (fill_queue-whole k o os (ground arith) le) (omega arith)
  ]
]
  where
    none_wanted : k ≡ 0 → traded (fill_queue k (o ∷ os)).0 + (fill_queue k (o ∷ os)).1 ≡ k
    none_wanted e = rw (e, fill_queue-zero (o ∷ os))

-- A taker is done when it wants nothing, or nothing is left.
pub fill_queue-done :
    (k : ℕ) (os : List Offer) → ((fill_queue k os).1 ≡ 0) ⊎ ((fill_queue k os).2 ≡ [])
fill_queue-done k [] = rw (fill_queue-nil k) (inr refl)
fill_queue-done k (o ∷ os) = elim (Bool-cases (k == 0)) [
  | inl e ↦ none_wanted (ground arith)
  | inr e ↦ elim (Bool-cases (ltb k o.left)) [
    | inl l ↦ rw (fill_queue-partial k o os (ground arith) (ground arith)) (inl refl)
    | inr l ↦
        rw (fill_queue-whole k o os (ground arith) (ground arith)) (fill_queue-done (k - o.left) os)
  ]
]
  where
    none_wanted : k ≡ 0 → ((fill_queue k (o ∷ os)).1 ≡ 0) ⊎ ((fill_queue k (o ∷ os)).2 ≡ [])
    none_wanted e = rw (e, fill_queue-zero (o ∷ os)) (inl refl)

-- A taker gets something from an offer of something.
pub fill_queue-less :
    (k : ℕ) (o : Offer) (os : List Offer) → 0 < k → 0 < o.left → (fill_queue k (o ∷ os)).1 < k
fill_queue-less k o os h l = elim (Bool-cases (ltb k o.left)) [
  | inl c ↦ rw (fill_queue-partial k o os h (ground arith)) h
  | inr c ↦
      let d = fill_queue-conserves (k - o.left) os in
      let le : o.left ≤ k = ground arith in rw (fill_queue-whole k o os h le) (omega arith)
]
