-- ===== src/Transport/SpscQueue/Sequential.antt =====
-- `SPSCQueue::try_push` and `try_pop` on their own: a bounded queue, first in first out.
use lockfree_matching_engine.Prelude.{
  ℕ, ◌+◌, ◌-◌, ◌<◌, ◌≡◌, refl, ap, subst, Bool, true, false, Option, none, some, arith, List, [],
  ◌∷◌, ◌++◌, length, ==_refl, Bool-cases, inl, inr,
}
use lockfree_matching_engine.Transport.SpscQueue.{
  SpscQueue, reload_tail, write_slot, looks_empty, reload_head, looks_full, publish_head,
  publish_tail, try_push, try_pop,
}
use lockfree_matching_engine.Transport.SpscQueue.Ring.{
  IsRing, looks_full_lem, looks_empty_lem, reload_tail-IsRing, reload_head-IsRing,
  write_slot-IsRing, publish_head-IsRing, publish_tail-IsRing,
}

module _ {ℓ} {A : Type ℓ} (capacity : ℕ) where
  -- The queue holds these items, whatever its two caches are.
  pub record Contains (q : SpscQueue A) (items : List A) : Type ℓ where
    pub behind : ℕ
    pub seen : ℕ
    pub ring : IsRing capacity q items behind seen

  stored :
      (item : A) (q : SpscQueue A) (items : List A) (behind seen : ℕ)
      → IsRing capacity q items behind seen
      → looks_full capacity q ≡ false
      → Contains (publish_head capacity (write_slot item q)) (items ++ item ∷ [])
  stored item q items behind seen v h =
      let e = looks_full_lem capacity q items behind seen v in
      record {
        behind = behind;
        seen = seen;
        ring =
            publish_head-IsRing capacity (write_slot item q) items behind seen
              (write_slot-IsRing capacity q items behind seen v item) item (rw ==_refl)
              (ground (arith, v.room));
      }

  -- What `try_push` returns and leaves.
  abbrev pub Pushed : A → List A → Bool × SpscQueue A → Type ℓ
  Pushed item items (false, q) = (length items + 1 ≡ capacity) × Contains q items
  Pushed item items (true, q) = (length items + 1 < capacity) × Contains q (items ++ item ∷ [])

  push-full :
      (item : A) (q : SpscQueue A) (items : List A) (behind seen : ℕ)
      → IsRing capacity q items behind seen
      → looks_full capacity q ≡ true
      → Pushed item items (try_push capacity item q)
  unfolding try_push
  push-full item q items behind seen v full =
      let ring = reload_tail-IsRing capacity q items behind seen v in
      let e = looks_full_lem capacity (reload_tail q) items 0 seen ring in
      elim (Bool-cases (looks_full capacity (reload_tail q))) [
        | inl still ↦
            rw (full, still) (ground arith, record { behind = 0; seen = seen; ring = ring })
        | inr room ↦
            rw (full, room)
              (ground (arith, ring.room), stored item (reload_tail q) items 0 seen ring room)
      ]

  -- `try_push` on a queue that holds some items, whatever its caches: it returns false, and
  -- leaves the items, exactly if they are one less than the capacity, and else puts the item
  -- behind them.
  pub try_push_lem :
      (item : A) (q : SpscQueue A) (items : List A)
      → Contains q items
      → Pushed item items (try_push capacity item q)
  unfolding try_push
  try_push_lem item q items v = elim (Bool-cases (looks_full capacity q)) [
    | inl full ↦ push-full item q items v.behind v.seen v.ring full
    | inr room ↦
        let e = looks_full_lem capacity q items v.behind v.seen v.ring in
        rw room (ground (arith, v.ring.room), stored item q items v.behind v.seen v.ring room)
  ]

  -- What `try_pop` returns and leaves.
  abbrev pub Popped : List A → Option A × SpscQueue A → Type ℓ
  Popped [] (r, q) = (r ≡ none) × Contains q []
  Popped (x ∷ xs) (r, q) = (r ≡ some x) × Contains q xs

  loaded :
      (q : SpscQueue A) (x : A) (xs : List A) (behind seen : ℕ)
      → IsRing capacity q (x ∷ xs) behind seen
      → 0 < seen
      → (some (q.buffer q.tail) ≡ some x) × Contains (publish_tail capacity q) xs
  loaded q x xs behind seen v h = (
    ap some v.slots.0,
    record {
      behind = behind + 1;
      seen = seen - 1;
      ring =
          publish_tail-IsRing capacity q x xs behind (seen - 1)
            (subst (λ k. IsRing capacity q (x ∷ xs) behind k) (omega arith) v);
    },
  )

  -- `try_pop` on a queue that holds some items, whatever its caches: nothing comes out of an
  -- empty queue, and else the oldest item does, and the others stay.
  pub try_pop_lem :
      (q : SpscQueue A) (items : List A) → Contains q items → Popped items (try_pop capacity q)
  unfolding try_pop
  try_pop_lem q [] v =
      let e = looks_empty_lem capacity q [] v.behind v.seen v.ring in
      let none_seen : looks_empty q ≡ true = ground (arith, v.ring.seen_some) in
      let ring = reload_head-IsRing capacity q [] v.behind v.seen v.ring in
      let e' = looks_empty_lem capacity (reload_head q) [] v.behind 0 ring in
      let still : looks_empty (reload_head q) ≡ true = ground arith in
      rw (none_seen, still) (refl, record { behind = v.behind; seen = 0; ring = ring })
  try_pop_lem q (x ∷ xs) v =
      let e = looks_empty_lem capacity q (x ∷ xs) v.behind v.seen v.ring in
      let ring = reload_head-IsRing capacity q (x ∷ xs) v.behind v.seen v.ring in
      let e' = looks_empty_lem capacity (reload_head q) (x ∷ xs) v.behind (length (x ∷ xs)) ring in
      let found : looks_empty (reload_head q) ≡ false = ground arith in
      elim (Bool-cases (looks_empty q)) [
        | inl stale ↦
            rw (stale, found)
              (loaded (reload_head q) x xs v.behind (length (x ∷ xs)) ring (omega arith))
        | inr seen ↦ rw seen (loaded q x xs v.behind v.seen v.ring (ground arith))
      ]
