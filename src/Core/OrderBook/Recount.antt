-- ===== src/Core/OrderBook/Recount.antt =====
-- How the orders of a side are counted after one has left the queue of its price, or has joined it.
use lockfree_matching_engine.Prelude.{
  ℕ, suc, ◌+◌, ◌≡◌, sym, ◌∙◌, false, arith, ◌==◌, ==→eq, ==_refl, Bool-cases, inl, inr,
  if◌then◌else◌, List, ◌∷◌, ◌++◌, update, OneMore, [],
}
use lockfree_matching_engine.Core.Types.{Side, bid, ask}
use lockfree_matching_engine.Core.Order.{Ptr}
use lockfree_matching_engine.Core.Store.{Store, deref}
use lockfree_matching_engine.Core.PriceLevel.Invariant.{SameOrders}
use lockfree_matching_engine.Core.OrderBook.Counts.{
  count_side, count_side-append, count_side-same, same_side, side-same,
}
use lockfree_matching_engine.Core.OrderBook.Invariant.{Queues, enqueue}

one : (d : Side) {n : ℕ} → n + (if same_side d d then 1 else 0) ≡ suc n
one bid = omega arith
one ask = omega arith

-- The memory `t` has the orders of `s`.
module _ (s t : Store) (q : Queues) (p : ℕ) (r : Ptr) (same : SameOrders s t) where
  count_joined :
      (d e : Side)
      → (deref s r).side ≡ e
      → count_side d t (q p ++ r ∷ []) ≡ count_side d s (q p) + (if same_side d e then 1 else 0)
  unfolding count_side
  count_joined d e h =
      let g = side-same (t r) (s r) (same r) ∙ h in
      let a = count_side-append d t (q p) (r ∷ []) in
      let c = count_side-same d s t (q p) same in rw (a, c, g) (omega arith)

  joined_elsewhere :
      (d : Side) (x : ℕ)
      → (x == p) ≡ false
      → count_side d t (enqueue q p r x) ≡ count_side d s (q x)
  joined_elsewhere d x e = rw e (count_side-same d s t (q x) same)

  pub one_joined :
      (d : Side)
      → (deref s r).side ≡ d
      → OneMore (λ x. count_side d s (q x)) (λ x. count_side d t (enqueue q p r x)) p
  one_joined d h = record {
    here = rw ==_refl (count_joined d d h ∙ one d);
    elsewhere = joined_elsewhere d;
  }

  pub none_joined :
      (d e : Side)
      → (deref s r).side ≡ e
      → same_side d e ≡ false
      → (x : ℕ) → count_side d t (enqueue q p r x) ≡ count_side d s (q x)
  none_joined d e h ne x = elim (Bool-cases (x == p)) [
    | inl i ↦ at_price (==→eq _ _ i)
    | inr i ↦ joined_elsewhere d x i
  ]
    where
      at_price : x ≡ p → count_side d t (enqueue q p r x) ≡ count_side d s (q x)
      at_price i = rw (i, ==_refl) (count_joined d e h ∙ rw ne (omega arith))

module _ (s t : Store) (q : Queues) (p : ℕ) (r : Ptr) (xs ys : List Ptr) (at : q p ≡ xs ++ r ∷ ys)
    (same : SameOrders s t) where
  count_left :
      (d e : Side)
      → (deref s r).side ≡ e
      → count_side d s (q p) ≡ count_side d t (xs ++ ys) + (if same_side d e then 1 else 0)
  unfolding count_side
  count_left d e h =
      let a = count_side-append d s xs (r ∷ ys) in
      let c = count_side-append d s xs ys in
      let m = count_side-same d s t (xs ++ ys) same in rw (at, a, m, c, h) (omega arith)

  left_elsewhere :
      (d : Side) (x : ℕ)
      → (x == p) ≡ false
      → count_side d s (q x) ≡ count_side d t (update q p (xs ++ ys) x)
  left_elsewhere d x e = rw e (sym (count_side-same d s t (q x) same))

  pub one_left :
      (d : Side)
      → (deref s r).side ≡ d
      → OneMore (λ x. count_side d t (update q p (xs ++ ys) x)) (λ x. count_side d s (q x)) p
  one_left d h = record {
    here = rw ==_refl (count_left d d h ∙ one d);
    elsewhere = left_elsewhere d;
  }

  pub none_left :
      (d e : Side)
      → (deref s r).side ≡ e
      → same_side d e ≡ false
      → (x : ℕ) → count_side d s (q x) ≡ count_side d t (update q p (xs ++ ys) x)
  none_left d e h ne x = elim (Bool-cases (x == p)) [
    | inl i ↦ at_price (==→eq _ _ i)
    | inr i ↦ left_elsewhere d x i
  ]
    where
      at_price : x ≡ p → count_side d s (q x) ≡ count_side d t (update q p (xs ++ ys) x)
      at_price i = rw (i, ==_refl) (count_left d e h ∙ rw ne (omega arith))
