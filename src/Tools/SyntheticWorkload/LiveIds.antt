-- ===== src/Tools/SyntheticWorkload/LiveIds.antt =====
-- The list of live orders: swap-and-pop, and what the list says of the orders outstanding.
use lockfree_matching_engine.Prelude.{
  ℕ, zero, suc, ◌+◌, ◌^◌, ◌≤◌, ◌<◌, ◌≡◌, refl, none, some, List, [], ◌∷◌, length, ◌==◌, ==_refl,
  get_or, set, last_or, drop_last, one_if, count, count-set, count-drop_last, arith, Bool-cases,
  Option-cases, inl, inr, update, lt→ltb, pos, negsuc, ltb_ℤ,
}
use lockfree_matching_engine.Core.Types.{OrderId, Price, limit}
use lockfree_matching_engine.Transport.Message.{NewOrderMessage, cancel}
use lockfree_matching_engine.Transport.Intake.{Outstanding, deliver, HasLevel}
use lockfree_matching_engine.Tools.SyntheticWorkload.{
  Draw, WorkloadGenerator, clamp_price, swap_and_pop, make_cancel,
}

-- The last item is still last, or written over by itself.
count-drop_set :
    (a y : ℕ) (ys : List ℕ) (i v : ℕ)
    → v ≡ last_or y ys
    → count a (drop_last (set (y ∷ ys) i v)) + one_if (a == v) ≡ count a (set (y ∷ ys) i v)
count-drop_set a y [] zero v e = omega arith
count-drop_set a y [] (suc i) v e = rw e (omega arith)
count-drop_set a y (z ∷ zs) zero v e = rw e (omega (arith, count-drop_last a z zs))
count-drop_set a y (z ∷ zs) (suc zero) v e = omega (arith, count-drop_set a z zs zero v e)
count-drop_set a y (z ∷ zs) (suc (suc i)) v e = omega (arith, count-drop_set a z zs (suc i) v e)

-- Swapping with the last item and popping takes one item out, wherever it stands.
pub count-swap_and_pop :
    (a idx : ℕ) (ids : List OrderId)
    → idx < length ids
    → count a (swap_and_pop idx ids) + one_if (a == get_or ids idx 0) ≡ count a ids
unfolding swap_and_pop
count-swap_and_pop a idx [] h = absurd (omega arith)
count-swap_and_pop a idx (x ∷ xs) h = omega (
  arith,
  count-set a (x ∷ xs) idx (last_or x xs) h,
  count-drop_set a x xs idx (last_or x xs) refl,
)

pub count-get_or :
    (ids : List OrderId) (idx : ℕ) → idx < length ids → 0 < count (get_or ids idx 0) ids
count-get_or [] idx h = absurd (omega arith)
count-get_or (x ∷ xs) zero h = ground (arith, ==_refl x)
count-get_or (x ∷ xs) (suc i) h = omega (arith, count-get_or xs i (omega arith))

-- Each live order is listed once, and is a limit order that is outstanding; identifiers from
-- `next_id` on are not in use.
pub record IsLive (g : WorkloadGenerator) (o : Outstanding) : Type 0 where
  pub once : (id : OrderId) → count id g.live_ids ≤ 1
  pub resting :
      (id : OrderId)
      → 0 < count id g.live_ids
      → (msg : NewOrderMessage) × (o id ≡ some msg) × (msg.kind ≡ limit)
  pub fresh : (id : OrderId) (msg : NewOrderMessage) → o id ≡ some msg → id < g.next_id

-- The random numbers are in their ranges: an index of a live order, and a quantity from 1 on.
pub record InRange (draw : Draw) (g : WorkloadGenerator) : Type 0 where
  pub idx : 0 < length g.live_ids → draw.idx < length g.live_ids
  pub quantity_pos : 0 < draw.quantity
  pub quantity_fits : draw.quantity < 2 ^ 32

pub clamp_price-HasLevel : (p : Price) → HasLevel (clamp_price p)
unfolding clamp_price
clamp_price-HasLevel (pos t) = elim (Bool-cases (ltb_ℤ (pos t) (pos 1))) [
  | inl e ↦ rw e (omega arith)
  | inr e ↦ elim (Bool-cases (ltb_ℤ (pos 9999999) (pos t))) [
    | inl e' ↦ rw (e, e') (omega arith)
    | inr e' ↦ rw (e, e') (ground arith)
  ]
]
clamp_price-HasLevel (negsuc t) = rw (lt→ltb 0 (1 + suc t) (omega arith)) (omega arith)

pub make_cancel-IsLive :
    (idx : ℕ) (g : WorkloadGenerator) (o : Outstanding)
    → idx < length g.live_ids
    → IsLive g o
    → let (g', msg) = make_cancel idx g in
      (o' : Outstanding) × (deliver (cancel msg) o ≡ some o')
      × IsLive g' o'
      × (g'.next_id ≡ g.next_id)
unfolding make_cancel deliver
make_cancel-IsLive idx g o h l =
    let id = get_or g.live_ids idx 0 in
    let (msg, e, k) = l.resting id (count-get_or g.live_ids idx h) in
    (
      update o id none,
      rw e,
      record {
        once = λ a. omega (arith, l.once a, count-swap_and_pop a idx g.live_ids h);
        resting = λ a p. elim (Bool-cases (a == id)) [
          | inl same ↦ absurd (ground (arith, l.once a, count-swap_and_pop a idx g.live_ids h))
          | inr other ↦
              let (m, e', k') =
                l.resting a (omega (arith, count-swap_and_pop a idx g.live_ids h)) in
              (m, rw other e', k')
        ];
        fresh = λ a m e'. elim (Bool-cases (a == id)) [
          | inl same ↦ let n : none ≡ some m = (rw same at e') in cc
          | inr other ↦ l.fresh a m (rw other at e')
        ];
      },
      refl,
    )

pub unused : (g : WorkloadGenerator) (o : Outstanding) → IsLive g o → o g.next_id ≡ none
unused g o l = elim (Option-cases (o g.next_id)) [
  | inl e ↦ e
  | inr (msg, e) ↦ absurd (omega (arith, l.fresh g.next_id msg e))
]
