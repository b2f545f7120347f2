-- ===== src/Core/MatchingEngine/Sweep.antt =====
-- A specification of matching over all prices: price first, then time.
use lockfree_matching_engine.Prelude.{
  ℕ, ◌+◌, ◌≡◌, refl, ◌∙◌, Bool, true, false, arith, List, [], ◌∷◌, ◌++◌, has, map, ◌==◌, ==_refl,
  update, update_self, Bool-cases, ◌⊎◌, inl, inr, if◌then◌else◌,
}
use lockfree_matching_engine.Core.Types.{Side}
use lockfree_matching_engine.Core.OrderBook.Counts.{same_side}
use lockfree_matching_engine.Core.MatchingEngine.Matching.{Offer, Trade, fill_queue, fill_message}
use lockfree_matching_engine.Core.MatchingEngine.FillQueue.{
  fill_queue-done, fill_queue-zero, traded, fill_queue-conserves,
}
use lockfree_matching_engine.Transport.Message.{NewOrderMessage, FillMessage}

-- What is offered at each price, oldest first.
abbrev pub Depth : Type 0
Depth = ℕ → List Offer

-- Does the queue hold orders of this side?
abbrev pub holds : Side → List Offer → Bool
holds d [] = false
holds d (o ∷ os) = same_side d o.side

-- A taker at one price: only orders of the side `d` are taken.
unfoldable pub take_at : Side → ℕ → List Offer → List Trade × ℕ × List Offer
take_at d k os = if holds d os then fill_queue k os else ([], k, os)

module _ (d : Side) (msg : NewOrderMessage) where
  abbrev pub fills_at : ℕ → List Trade → List FillMessage
  fills_at p ts = map (fill_message p msg.id msg.side msg.timestamp) ts

  -- A taker of `k` that visits the prices of a list in turn: the fills, what it still wants,
  -- and what is offered then.
  unfoldable pub sweep : List ℕ → ℕ → Depth → List FillMessage × ℕ × Depth
  sweep [] k depth = ([], k, depth)
  sweep (p ∷ ps) k depth =
      let (ts, m, os) = take_at d k (depth p) in
      let (fs, n, depth') = sweep ps m (update depth p os) in (fills_at p ts ++ fs, n, depth')

  take_at-none : (k : ℕ) (os : List Offer) → holds d os ≡ false → take_at d k os ≡ ([], k, os)
  unfolding take_at
  take_at-none k os h = rw h

  take_at-zero : (os : List Offer) → take_at d 0 os ≡ ([], 0, os)
  unfolding take_at
  take_at-zero os = elim (Bool-cases (holds d os)) [
    | inl h ↦ rw h (fill_queue-zero os)
    | inr h ↦ rw h
  ]

  sweep-skip :
      (p : ℕ) (ps : List ℕ) (k : ℕ) (depth : Depth)
      → take_at d k (depth p) ≡ ([], k, depth p)
      → sweep (p ∷ ps) k depth ≡ sweep ps k depth
  unfolding sweep
  sweep-skip p ps k depth h = rw (h, update_self depth p)

  -- Nothing wanted, or nothing there.
  pub sweep-idle :
      (ps : List ℕ) (k : ℕ) (depth : Depth)
      → (k ≡ 0) ⊎ ((p : ℕ) → has p ps ≡ true → holds d (depth p) ≡ false)
      → sweep ps k depth ≡ ([], k, depth)
  unfolding sweep
  sweep-idle [] k depth h = refl
  sweep-idle (p ∷ ps) k depth (inl z) =
      sweep-skip p ps k depth (rw (z, take_at-zero (depth p))) ∙ sweep-idle ps k depth (inl z)
  sweep-idle (p ∷ ps) k depth (inr h) =
      sweep-skip p ps k depth (take_at-none k (depth p) (h p (ground arith)))
      ∙ sweep-idle ps k depth (inr (λ x i. h x (ground arith)))

  -- A queue that was taken from gives that taker no more.
  take_at-done :
      (k : ℕ) (os : List Offer)
      → let (ts, m, rest) = fill_queue k os in take_at d m rest ≡ ([], m, rest)
  take_at-done k os = elim (fill_queue-done k os) [
    | inl z ↦ rw (z, take_at-zero (fill_queue k os).2)
    | inr z ↦ rw (z, take_at-none (fill_queue k os).1 [] refl)
  ]

  take_at-some : (k : ℕ) (os : List Offer) → holds d os ≡ true → take_at d k os ≡ fill_queue k os
  unfolding take_at
  take_at-some k os h = rw h

  -- The first price where something is taken.
  module _ (a : ℕ) (post : List ℕ) where
    first_here :
        (k : ℕ) (depth : Depth)
        → holds d (depth a) ≡ true
        → let (ts, m, os) = fill_queue k (depth a) in
          let (fs, n, depth') = sweep post m (update depth a os) in
          sweep (a ∷ post) k depth ≡ (fills_at a ts ++ fs, n, depth')
    unfolding sweep
    first_here k depth here = rw (take_at-some k (depth a) here)

    pub sweep-first :
        (pre : List ℕ) (k : ℕ) (depth : Depth)
        → ((p : ℕ) → has p pre ≡ true → (holds d (depth p) ≡ false) × ((p == a) ≡ false))
        → holds d (depth a) ≡ true
        → let (ts, m, os) = fill_queue k (depth a) in
          let (fs, n, depth') = sweep (pre ++ a ∷ post) m (update depth a os) in
          sweep (pre ++ a ∷ post) k depth ≡ (fills_at a ts ++ fs, n, depth')
    sweep-first [] k depth h here =
        let (ts, m, os) = fill_queue k (depth a) in
        let again =
          sweep-skip a post m (update depth a os) (rw ==_refl (take_at-done k (depth a))) in
        rw again (first_here k depth here)
    sweep-first (p ∷ pre) k depth h here =
        let (ts, m, os) = fill_queue k (depth a) in
        let (out, ne) = h p (ground arith) in
        let first = sweep-skip p (pre ++ a ∷ post) k depth (take_at-none k (depth p) out) in
        let again =
          sweep-skip p (pre ++ a ∷ post) m (update depth a os)
            (rw ne (take_at-none m (depth p) out)) in
        rw (first, again) (sweep-first pre k depth (λ x i. h x (ground arith)) here)

-- What the fills of a list add up to.
unfoldable pub filled : List FillMessage → ℕ
filled [] = 0
filled (f ∷ fs) = f.quantity + filled fs

pub filled-append : (fs gs : List FillMessage) → filled (fs ++ gs) ≡ filled fs + filled gs
unfolding filled
filled-append [] gs = omega arith
filled-append (f ∷ fs) gs = omega (arith, filled-append fs gs)

module _ (d : Side) (msg : NewOrderMessage) where
  filled-fills_at : (p : ℕ) (ts : List Trade) → filled (fills_at d msg p ts) ≡ traded ts
  unfolding filled traded
  filled-fills_at p [] = refl
  filled-fills_at p (t ∷ ts) = omega (arith, filled-fills_at p ts)

  take_at-conserves : (k : ℕ) (os : List Offer) → traded (take_at d k os).0 + (take_at d k os).1 ≡ k
  unfolding take_at traded
  take_at-conserves k os = elim (Bool-cases (holds d os)) [
    | inl h ↦ rw h (fill_queue-conserves k os)
    | inr h ↦ rw h (omega arith)
  ]

  -- What a sweep does not fill is still wanted.
  pub sweep-conserves :
      (ps : List ℕ) (k : ℕ) (depth : Depth)
      → let (fs, m, _) = sweep d msg ps k depth in filled fs + m ≡ k
  unfolding sweep filled
  sweep-conserves [] k depth = omega arith
  sweep-conserves (p ∷ ps) k depth =
      let (ts, m, os) = take_at d k (depth p) in
      let (fs, j, depth') = sweep d msg ps m (update depth p os) in
      omega (
        arith,
        filled-append (fills_at d msg p ts) fs,
        filled-fills_at p ts,
        take_at-conserves k (depth p),
        sweep-conserves ps m (update depth p os),
      )
