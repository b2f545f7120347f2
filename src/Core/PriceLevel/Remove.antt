-- ===== src/Core/PriceLevel/Remove.antt =====
-- `PriceLevel::remove` unlinks an order anywhere in the queue.
use lockfree_matching_engine.Prelude.{
  first_or, last_or, last_or-append, first_or-append, ◌%◌, ◌^◌, ◌≡◌, refl, sym, ◌∙◌, true, false,
  List, [], ◌∷◌, ◌++◌, arith, ◌==◌, has, Distinct, length, length-append, Around, Distinct-Around,
  has-append,
}
use lockfree_matching_engine.Core.Order.{Ptr, null}
use lockfree_matching_engine.Core.Store.{Store, deref, modify, with_prev, with_next, modify-ne}
use lockfree_matching_engine.Core.PriceLevel.{
  PriceLevel, remove, State, count_out, unlink_prev, unlink_next,
}
use lockfree_matching_engine.Core.PriceLevel.Chain.{
  Chain, Node, Chain-modify, Chain-with_next, Chain-with_prev, Chain-join, Chain-split, not-last_or,
  last-not_null, Chain-frame,
}
use lockfree_matching_engine.Core.PriceLevel.Invariant.{
  IsLevel, total, SameOrders, SameOutside, total-same, total-append, remaining-same,
  SameOrders-with_next, SameOrders-with_prev, SameOrders-with_links,
}
use lockfree_matching_engine.Core.PriceLevel.PushBack.{Requeued}

-- A step that writes links of the orders `ps` only, and no counter.
record Relinked (s : Store) (l : PriceLevel) (ps : List Ptr) (st : State) : Type 0 where
  same : SameOrders s st.0
  outside : SameOutside ps s st.0
  quantity : st.1.total_quantity ≡ l.total_quantity
  count : st.1.order_count ≡ l.order_count

-- The order before `p`, or the head, is wired to what stands behind `p`.
record PrevUnlinked (s : Store) (l : PriceLevel) (xs : List Ptr) (z : Ptr) (st : State)
    : Type 0 where
  step : Relinked s l xs st
  chain : Chain st.0 null xs z
  head : st.1.head ≡ first_or xs z
  tail : st.1.tail ≡ l.tail

-- The order behind `p`, or the tail, is wired to what stands before `p`.
record NextUnlinked (s : Store) (l : PriceLevel) (a : Ptr) (ys : List Ptr) (st : State)
    : Type 0 where
  step : Relinked s l ys st
  chain : Chain st.0 a ys null
  tail : st.1.tail ≡ last_or a ys
  head : st.1.head ≡ l.head

unlink_prev-head :
    (s : Store) (l : PriceLevel) (p z : Ptr)
    → (deref s p).prev ≡ null
    → (deref s p).next ≡ z
    → unlink_prev p (s, l) ≡ (s, record l { head = z })
unfolding unlink_prev
unlink_prev-head s l p z e f = rw (e, f)

unlink_prev-order :
    (s : Store) (l : PriceLevel) (p a z : Ptr)
    → (deref s p).prev ≡ a
    → (a == null) ≡ false
    → (deref s p).next ≡ z
    → unlink_prev p (s, l) ≡ (modify a (with_next z) s, l)
unfolding unlink_prev
unlink_prev-order s l p a z e n f = rw (e, n, f)

unlink_next-tail :
    (s : Store) (l : PriceLevel) (p a : Ptr)
    → (deref s p).next ≡ null
    → (deref s p).prev ≡ a
    → unlink_next p (s, l) ≡ (s, record l { tail = a })
unfolding unlink_next
unlink_next-tail s l p a e f = rw (e, f)

unlink_next-order :
    (s : Store) (l : PriceLevel) (p a z : Ptr)
    → (deref s p).next ≡ z
    → (z == null) ≡ false
    → (deref s p).prev ≡ a
    → unlink_next p (s, l) ≡ (modify z (with_prev a) s, l)
unfolding unlink_next
unlink_next-order s l p a z e n f = rw (e, n, f)

unlink_prev_lem :
    (s : Store) (l : PriceLevel) (p z : Ptr) (xs : List Ptr)
    → Chain s null xs p
    → Distinct xs
    → l.head ≡ first_or xs p
    → (deref s p).prev ≡ last_or null xs
    → (deref s p).next ≡ z
    → PrevUnlinked s l xs z (unlink_prev p (s, l))
unlink_prev_lem s l p z [] c d h e f = rw (unlink_prev-head s l p z e f) (record {
  step = record { same = λ q. refl; outside = λ q o. refl; quantity = refl; count = refl };
  chain = tt;
  head = refl;
  tail = refl;
})
unlink_prev_lem s l p z (x ∷ xs) c d h e f =
    rw (unlink_prev-order s l p (last_or x xs) z e (last-not_null s null x xs p c) f) (record {
      step = record {
        same = SameOrders-with_next (last_or x xs) z s;
        outside = λ q o. modify-ne (last_or x xs) (with_next z) s q (not-last_or q x xs o);
        quantity = refl;
        count = refl;
      };
      chain = Chain-with_next s null x xs p z c d;
      head = h;
      tail = refl;
    })

unlink_next_lem :
    (s : Store) (l : PriceLevel) (p a : Ptr) (ys : List Ptr)
    → Chain s p ys null
    → Distinct ys
    → l.tail ≡ last_or p ys
    → (deref s p).next ≡ first_or ys null
    → (deref s p).prev ≡ a
    → NextUnlinked s l a ys (unlink_next p (s, l))
unlink_next_lem s l p a [] c d h e f = rw (unlink_next-tail s l p a e f) (record {
  step = record { same = λ q. refl; outside = λ q o. refl; quantity = refl; count = refl };
  chain = tt;
  tail = refl;
  head = refl;
})
unlink_next_lem s l p a (y ∷ ys) c d h e f =
    rw (unlink_next-order s l p a y e c.0.not_null f) (record {
      step = record {
        same = SameOrders-with_prev y a s;
        outside = λ q o. modify-ne y (with_prev a) s q (ground arith);
        quantity = refl;
        count = refl;
      };
      chain = Chain-with_prev s p y ys null a c d;
      tail = h;
      head = refl;
    })

-- The counters after an order is gone.
uncounted :
    (s t : Store) (l m : PriceLevel) (xs : List Ptr) (p : Ptr) (ys : List Ptr)
    → SameOrders s t
    → l.total_quantity ≡ total s (xs ++ p ∷ ys) % 2 ^ 32
    → l.order_count ≡ length (xs ++ p ∷ ys) % 2 ^ 32
    → m.total_quantity ≡ l.total_quantity
    → m.order_count ≡ l.order_count
    → let (t', m') = count_out p (t, m) in
      (m'.total_quantity ≡ total t (xs ++ ys) % 2 ^ 32)
      × (m'.order_count ≡ length (xs ++ ys) % 2 ^ 32)
unfolding total
uncounted s t l m xs p ys same e f e' f' =
    let a = total-append s xs (p ∷ ys) in
    let b = total-append s xs ys in
    let c = total-same s t (xs ++ ys) same in
    let d = remaining-same (t p) (s p) (same p) in
    let g = length-append xs (p ∷ ys) in let h = length-append xs ys in (omega arith, omega arith)

-- The order `p` between `xs` and `ys`, and the memories that the steps of `remove` leave.
module _ (s : Store) (l : PriceLevel) (xs : List Ptr) (p : Ptr) (ys : List Ptr)
    (v : IsLevel s l (xs ++ p ∷ ys)) where
  before : Ptr
  before = last_or null xs

  behind : Ptr
  behind = first_or ys null

  around : Around xs p ys
  around = Distinct-Around xs p ys v.distinct

  node : Node s before p behind
  unfolding before behind
  node = (Chain-split s null xs (p ∷ ys) null v.chain).1.0

  first : State
  first = unlink_prev p (s, l)

  first_lem : PrevUnlinked s l xs behind first
  unfolding first before
  first_lem =
      unlink_prev_lem s l p behind xs (Chain-split s null xs (p ∷ ys) null v.chain).0 around.left
        (v.head ∙ first_or-append xs (p ∷ ys) null) node.prev node.next

  first-same_right : (q : Ptr) → has q ys ≡ true → first.0 q ≡ s q
  first-same_right q h = first_lem.step.outside q (ground (arith, around.apart q))

  first-same_self : first.0 p ≡ s p
  first-same_self = first_lem.step.outside p around.not_left

  second : State
  unfolding first
  second = unlink_next p first

  second_lem : NextUnlinked first.0 first.1 before ys second
  unfolding second first before behind
  second_lem =
      unlink_next_lem first.0 first.1 p before ys
        (Chain-frame s first.0 p ys null (Chain-split s null xs (p ∷ ys) null v.chain).1.1
          first-same_right)
        around.right (first_lem.tail ∙ v.tail ∙ last_or-append null xs (p ∷ ys))
        (rw first-same_self node.next) (rw first-same_self node.prev)

  second-same_left : (q : Ptr) → has q xs ≡ true → second.0 q ≡ first.0 q
  second-same_left q h = second_lem.step.outside q (around.apart q h)

  cleared : Store
  cleared = modify p (λ o. with_next null (with_prev null o)) second.0

  cleared-same : SameOrders s cleared
  unfolding cleared
  cleared-same q =
      SameOrders-with_links p null second.0 null q ∙ second_lem.step.same q ∙ first_lem.step.same q

  cleared-outside : SameOutside (xs ++ p ∷ ys) s cleared
  unfolding cleared
  cleared-outside q o =
      let e = has-append q xs (p ∷ ys) in
      modify-ne p _ second.0 q (ground arith)
      ∙ second_lem.step.outside q (ground arith)
      ∙ first_lem.step.outside q (ground arith)

  cleared-Chain : Chain cleared null (xs ++ ys) null
  unfolding cleared before behind
  cleared-Chain =
      Chain-modify second.0 null (xs ++ ys) null p _
        (Chain-join second.0 null xs ys null
          (Chain-frame first.0 second.0 null xs behind first_lem.chain second-same_left)
          second_lem.chain)
        (ground (arith, has-append p xs ys, around.not_left, around.not_right))

  remove-steps : remove p (s, l) ≡ count_out p (cleared, second.1)
  unfolding remove cleared second first
  remove-steps = refl

  -- `remove` of an order of a well-formed level, wherever it stands: the level queues the others
  -- in their order, its sums are theirs, and in memory nothing changes but links of orders of
  -- this queue.
  pub remove_lem : Requeued s (xs ++ p ∷ ys) (xs ++ ys) (remove p (s, l))
  unfolding before behind
  remove_lem =
      let counts =
        uncounted s cleared l second.1 xs p ys cleared-same v.quantity v.count
          (second_lem.step.quantity ∙ first_lem.step.quantity)
          (second_lem.step.count ∙ first_lem.step.count) in
      rw remove-steps (record {
        level = record {
          head = second_lem.head ∙ first_lem.head ∙ sym (first_or-append xs ys null);
          tail = second_lem.tail ∙ sym (last_or-append null xs ys);
          chain = cleared-Chain;
          distinct = around.rest;
          quantity = counts.0;
          count = counts.1;
        };
        same = cleared-same;
        outside = cleared-outside;
      })
