-- ===== src/Core/OrderBook/Fill.antt =====
-- The book when orders are filled or freed in place: what survives a change of the memory.
use lockfree_matching_engine.Prelude.{
  ℕ, ◌+◌, ◌^◌, ◌≤◌, ◌<◌, ◌≡◌, refl, sym, subst, ◌∙◌, true, false, arith, ◌==◌, ==→eq, Bool-cases,
  inl, inr, List, [], ◌∷◌, has, has-ne, update,
}
use lockfree_matching_engine.Core.Types.{Side, Quantity, bid, ask}
use lockfree_matching_engine.Core.Order.{Ptr, Order, remaining_quantity}
use lockfree_matching_engine.Core.Store.{Store, is_object, deref, modify, modify-ne}
use lockfree_matching_engine.Core.PriceLevel.{reduce_quantity}
use lockfree_matching_engine.Core.PriceLevel.Invariant.{IsLevel}
use lockfree_matching_engine.Core.PriceLevel.Fill.{fill, fill-IsLevel}
use lockfree_matching_engine.Core.OrderBook.{OrderBook, level_index}
use lockfree_matching_engine.Core.OrderBook.Counts.{count_side}
use lockfree_matching_engine.Core.OrderBook.Invariant.{
  Queues, Resting, IsBook, IsLevel-frame, apart, Quoted-same, Quoted-levels,
}

pub count_side-frame :
    (d : Side) (s t : Store) (ps : List Ptr)
    → ((y : Ptr) → has y ps ≡ true → (deref t y).side ≡ (deref s y).side)
    → count_side d t ps ≡ count_side d s ps
unfolding count_side
count_side-frame d s t [] h = refl
count_side-frame d s t (p ∷ ps) h =
    rw (h p (ground arith), count_side-frame d s t ps (λ y i. h y (ground arith)))

-- A change outside the queues leaves the book alone.
pub IsBook-frame :
    (s t : Store) (b : OrderBook) (q : Queues)
    → IsBook s b q
    → ((x : ℕ) (y : Ptr) → has y (q x) ≡ true → t y ≡ s y)
    → IsBook t b q
IsBook-frame s t b q v h = record {
  level = λ x. IsLevel-frame s t (b.levels x) (q x) (v.level x) (h x);
  resting = λ x y i.
      let o = v.resting x y i in
      let e = h x y i in
      record {
        price = rw e o.price;
        in_range = o.in_range;
        bounded = rw e o.bounded;
        small = rw e o.small;
        mapped = rw e o.mapped;
      };
  known = λ id y m.
      let (e, i) = v.known id y m in
      let f = h (level_index (deref s y).price) y i in (rw f e, rw f i);
  quoted =
      Quoted-same (λ x. count_side-frame bid s t (q x) (λ y i. rw (h x y i)))
        (λ x. count_side-frame ask s t (q x) (λ y i. rw (h x y i))) v.quoted;
}

-- Nothing of the order changes but `filled_quantity`.
pub record Filled (o o' : Order) (qty : Quantity) : Type 0 where
  pub id : o'.id ≡ o.id
  pub side : o'.side ≡ o.side
  pub price : o'.price ≡ o.price
  pub quantity : o'.quantity ≡ o.quantity
  pub filled_quantity : o'.filled_quantity ≡ o.filled_quantity + qty

filled_lem :
    (s : Store) (r : Ptr) (qty : Quantity)
    → is_object (s r) ≡ true
    → (deref s r).filled_quantity ≤ (deref s r).quantity
    → (deref s r).quantity < 2 ^ 32
    → qty ≤ remaining_quantity (deref s r)
    → Filled (deref s r) (deref (fill r qty s) r) qty
unfolding modify
filled_lem s r qty live le small fits = record {
  id = ground arith;
  side = ground arith;
  price = ground arith;
  quantity = ground arith;
  filled_quantity = ground arith;
}

-- A fill of the order at the front of the queue of `p`.
module _ (s : Store) (b : OrderBook) (q : Queues) (p : ℕ) (r : Ptr) (ys : List Ptr) (qty : Quantity)
    (v : IsBook s b q) (at : q p ≡ r ∷ ys) (fits : qty ≤ remaining_quantity (deref s r)) where
  abbrev pub filled : OrderBook
  filled = record b { levels = update b.levels p (reduce_quantity qty (b.levels p)) }

  had : has r (q p) ≡ true
  had = rw at (ground arith)

  pub order : Resting s b.order_map p r
  order = v.resting p r had

  live : is_object (s r) ≡ true
  live = (subst (IsLevel s (b.levels p)) at (v.level p)).chain.0.live

  not_elsewhere : (x : ℕ) → (x == p) ≡ false → has r (q x) ≡ false
  not_elsewhere x ne = apart v p x r (ground arith) had

  pub untouched : (y : Ptr) → (y == r) ≡ false → fill r qty s y ≡ s y
  untouched y ne = modify-ne r _ s y ne

  fill-IsLevel_at : (x : ℕ) → IsLevel (fill r qty s) (filled.levels x) (q x)
  fill-IsLevel_at x = elim (Bool-cases (x == p)) [
    | inl e ↦ rw e (
        subst (λ z. IsLevel (fill r qty s) (reduce_quantity qty (b.levels p)) (q z))
          (sym (==→eq _ _ e)) here)
    | inr e ↦ rw e (
        IsLevel-frame s (fill r qty s) (b.levels x) (q x) (v.level x)
          (λ y i. untouched y (has-ne y r (q x) i (not_elsewhere x e))))
  ]
    where
      here : IsLevel (fill r qty s) (reduce_quantity qty (b.levels p)) (q p)
      here = rw at (
          fill-IsLevel s (b.levels p) r ys qty (subst (IsLevel s (b.levels p)) at (v.level p))
            order.bounded order.small fits)

  pub Filled-order : Filled (deref s r) (deref (fill r qty s) r) qty
  Filled-order = filled_lem s r qty live order.bounded order.small fits

  fits_quantity : (deref s r).filled_quantity + qty ≤ (deref s r).quantity
  fits_quantity = omega (arith, order.bounded, order.small)

  fill-Resting :
      (x : ℕ) (y : Ptr) → Resting s b.order_map x y → Resting (fill r qty s) b.order_map x y
  fill-Resting x y o = elim (Bool-cases (y == r)) [
    | inl e ↦ at_order (==→eq _ _ e)
    | inr e ↦ record {
      price = rw (untouched y e) o.price;
      in_range = o.in_range;
      bounded = rw (untouched y e) o.bounded;
      small = rw (untouched y e) o.small;
      mapped = rw (untouched y e) o.mapped;
    }
  ]
    where
      at_order : y ≡ r → Resting (fill r qty s) b.order_map x y
      at_order e =
          let o' = subst (Resting s b.order_map x) e o in
          rw e (record {
            price = Filled-order.price ∙ o'.price;
            in_range = o'.in_range;
            bounded =
                omega (arith, Filled-order.filled_quantity, Filled-order.quantity, fits_quantity);
            small = omega (arith, Filled-order.quantity, o'.small);
            mapped = rw Filled-order.id o'.mapped;
          })

  same_id : (y : Ptr) → (deref (fill r qty s) y).id ≡ (deref s y).id
  same_id y = elim (Bool-cases (y == r)) [
    | inl e ↦ rw (==→eq y r e) Filled-order.id
    | inr e ↦ rw (untouched y e)
  ]

  same_price : (y : Ptr) → (deref (fill r qty s) y).price ≡ (deref s y).price
  same_price y = elim (Bool-cases (y == r)) [
    | inl e ↦ rw (==→eq y r e) Filled-order.price
    | inr e ↦ rw (untouched y e)
  ]

  same_sides : (y : Ptr) → (deref (fill r qty s) y).side ≡ (deref s y).side
  same_sides y = elim (Bool-cases (y == r)) [
    | inl e ↦ rw (==→eq y r e) Filled-order.side
    | inr e ↦ rw (untouched y e)
  ]

  -- The book with its level reduced is a book for the same queues.
  pub fill-IsBook : IsBook (fill r qty s) filled q
  fill-IsBook = record {
    level = fill-IsLevel_at;
    resting = λ x y i. fill-Resting x y (v.resting x y i);
    known = λ id y m. let (e, i) = v.known id y m in (same_id y ∙ e, rw (same_price y) i);
    quoted = Quoted-levels filled.levels b.order_map (
        Quoted-same (λ x. count_side-frame bid s (fill r qty s) (q x) (λ y i. same_sides y))
          (λ x. count_side-frame ask s (fill r qty s) (q x) (λ y i. same_sides y)) v.quoted);
  }
