-- ===== src/Core/PriceLevel/PushBack.antt =====
-- `PriceLevel::push_back` appends to the queue.
use lockfree_matching_engine.Prelude.{
  last_or, last_or-append, ◌%◌, ◌^◌, ◌≡◌, refl, subst, sym, ◌∙◌, true, false, List, [], ◌∷◌, ◌++◌,
  arith, ◌==◌, has, length, length-append, Distinct-snoc,
}
use lockfree_matching_engine.Core.Order.{Ptr, null}
use lockfree_matching_engine.Core.Store.{Store, is_object, modify, with_prev, with_next, modify-ne}
use lockfree_matching_engine.Core.PriceLevel.{PriceLevel, push_back, State, count_in}
use lockfree_matching_engine.Core.PriceLevel.Chain.{
  Chain, Node, Chain-modify, Chain-with_next, Chain-join, not-last_or, Node-modify, last-not_null,
  not-has_tail,
}
use lockfree_matching_engine.Core.PriceLevel.Invariant.{
  IsLevel, total, SameOrders, SameOutside, total-same, total-append, SameOrders-with_next,
  SameOrders-with_links,
}

-- What an operation on the queue `ps` leaves when the queue is then `qs`: a level for `qs`, in a
-- memory in which only links of the orders `ps` have changed.
pub record Requeued (s : Store) (ps qs : List Ptr) (st : State) : Type 0 where
  pub level : IsLevel st.0 st.1 qs
  pub same : SameOrders s st.0
  pub outside : SameOutside ps s st.0

module _ (s : Store) (l : PriceLevel) (p : Ptr) where
  linked : Store
  linked = modify p (λ o. with_next null (with_prev l.tail o)) s

  push_back-empty :
      l.tail ≡ null → push_back p (s, l) ≡ count_in p (linked, record l { head = p; tail = p })
  unfolding push_back linked
  push_back-empty e = rw e

  push_back-nonempty :
      (l.tail == null) ≡ false
      → push_back p (s, l) ≡ count_in p (modify l.tail (with_next p) linked, record l { tail = p })
  unfolding push_back linked
  push_back-nonempty e = rw e

  linked-Node : is_object (s p) ≡ true → (p == null) ≡ false → Node linked l.tail p null
  unfolding linked modify
  linked-Node live ne = ground arith

-- The counters after the links, whichever links were written.
counted :
    (s t : Store) (l : PriceLevel) (p : Ptr) (ps : List Ptr)
    → SameOrders s t
    → l.total_quantity ≡ total s ps % 2 ^ 32
    → l.order_count ≡ length ps % 2 ^ 32
    → let (t', l') = count_in p (t, l) in
      (l'.total_quantity ≡ total t (ps ++ p ∷ []) % 2 ^ 32)
      × (l'.order_count ≡ length (ps ++ p ∷ []) % 2 ^ 32)
unfolding total
counted s t l p ps same e f =
    let a = total-append t ps (p ∷ []) in
    let b = total-same s t ps same in
    let c = length-append ps (p ∷ []) in (omega arith, omega arith)

push_back-Requeued_empty :
    (s : Store) (l : PriceLevel) (p : Ptr)
    → IsLevel s l []
    → is_object (s p) ≡ true
    → (p == null) ≡ false
    → Requeued s (p ∷ []) (p ∷ []) (push_back p (s, l))
unfolding linked
push_back-Requeued_empty s l p v live ne = rw (push_back-empty s l p v.tail) (record {
  level = record {
    head = refl;
    tail = refl;
    chain = (subst (λ a. Node (linked s l p) a p null) v.tail (linked-Node s l p live ne), tt);
    distinct = (refl, tt);
    quantity = (counted s (linked s l p) l p [] same v.quantity v.count).0;
    count = (counted s (linked s l p) l p [] same v.quantity v.count).1;
  };
  same = same;
  outside = λ q out. modify-ne p _ s q (ground arith);
})
  where
    same : SameOrders s (linked s l p)
    same = SameOrders-with_links p null s l.tail

-- A queue with an order in it: the links of the last order and of `p` change.
module _ (s : Store) (l : PriceLevel) (p q : Ptr) (ps : List Ptr) (v : IsLevel s l (q ∷ ps))
    (live : is_object (s p) ≡ true) (ne : (p == null) ≡ false) (out : has p (q ∷ ps) ≡ false) where
  new : Store
  new = modify (last_or q ps) (with_next p) (linked s l p)

  new-same : SameOrders s new
  unfolding new linked
  new-same r =
      SameOrders-with_next (last_or q ps) p (linked s l p) r
      ∙ SameOrders-with_links p null s l.tail r

  new-Chain : Chain new null ((q ∷ ps) ++ p ∷ []) null
  unfolding new linked
  new-Chain =
      let c = Chain-modify s null (q ∷ ps) null p _ v.chain out in
      let n = subst (λ a. Node (linked s l p) a p null) v.tail (linked-Node s l p live ne) in
      Chain-join new null (q ∷ ps) (p ∷ []) null
        (Chain-with_next (linked s l p) null q ps null p c v.distinct)
        (Node-modify (last_or q ps) (with_next p) n (not-last_or p q ps out), tt)

  new-outside : SameOutside (p ∷ q ∷ ps) s new
  unfolding new linked
  new-outside r o =
      modify-ne (last_or q ps) (with_next p) (linked s l p) r
        (not-last_or r q ps (not-has_tail r p (q ∷ ps) o))
      ∙ modify-ne p _ s r (ground arith)

  push_back_to_last : push_back p (s, l) ≡ count_in p (new, record l { tail = p })
  unfolding new
  push_back_to_last =
      subst
        (λ a.
          push_back p (s, l)
          ≡ count_in p (modify a (with_next p) (linked s l p), record l { tail = p }))
        v.tail
        (push_back-nonempty s l p
          (subst (λ a. (a == null) ≡ false) (sym v.tail) (last-not_null s null q ps null v.chain)))

  push_back-Requeued_nonempty : Requeued s (p ∷ q ∷ ps) ((q ∷ ps) ++ p ∷ []) (push_back p (s, l))
  push_back-Requeued_nonempty =
      let counts = counted s new l p (q ∷ ps) new-same v.quantity v.count in
      rw push_back_to_last (record {
        level = record {
          head = v.head;
          tail = sym (last_or-append null (q ∷ ps) (p ∷ []));
          chain = new-Chain;
          distinct = Distinct-snoc p (q ∷ ps) v.distinct out;
          quantity = counts.0;
          count = counts.1;
        };
        same = new-same;
        outside = new-outside;
      })

-- `push_back` of an order that is not in the queue of a well-formed level: the level queues it
-- behind the others, its sums count it, and in memory nothing changes but links of these orders.
pub push_back_lem :
    (s : Store) (l : PriceLevel) (p : Ptr) (ps : List Ptr)
    → IsLevel s l ps
    → is_object (s p) ≡ true
    → (p == null) ≡ false
    → has p ps ≡ false
    → Requeued s (p ∷ ps) (ps ++ p ∷ []) (push_back p (s, l))
push_back_lem s l p [] v live ne out = push_back-Requeued_empty s l p v live ne
push_back_lem s l p (q ∷ ps) v live ne out = push_back-Requeued_nonempty s l p q ps v live ne out
