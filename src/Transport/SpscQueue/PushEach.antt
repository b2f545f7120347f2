-- ===== src/Transport/SpscQueue/PushEach.antt =====
-- A loop of the program's threads around `try_push`: each item is pushed, or counted as dropped if the
-- ring is full, and nothing is waited for.
use lockfree_matching_engine.Prelude.{
  ℕ, suc, ◌+◌, ◌-◌, ◌%◌, ◌^◌, min, ◌≡◌, subst, Bool, true, false, List, [], ◌∷◌, ◌++◌, length,
  length-append, take, add64, arith, append_assoc, append-nil,
}
use lockfree_matching_engine.Transport.SpscQueue.{SpscQueue, try_push}
use lockfree_matching_engine.Transport.SpscQueue.Sequential.{Contains, Pushed, try_push_lem}

-- A ring, and the counters of what went in and of what was dropped.
pub record Pushing {ℓ} (A : Type ℓ) : Type ℓ where
  pub queue : SpscQueue A
  pub pushed : ℕ
  pub dropped : ℕ

module _ {ℓ} {A : Type ℓ} (capacity : ℕ) where
  abbrev pub count_push : Bool × SpscQueue A → Pushing A → Pushing A
  count_push (true, q) p = record { queue = q; pushed = add64 p.pushed 1; dropped = p.dropped }
  count_push (false, q) p = record { queue = q; pushed = p.pushed; dropped = add64 p.dropped 1 }

  unfoldable pub push_each : List A → Pushing A → Pushing A
  push_each [] p = p
  push_each (item ∷ items) p = push_each items (count_push (try_push capacity item p.queue) p)

  -- Each item is counted, one way or the other.
  pub push_each-total :
      (items : List A) (p : Pushing A)
      → let p' = push_each items p in
        (p'.pushed + p'.dropped) % 2 ^ 64 ≡ (p.pushed + p.dropped + length items) % 2 ^ 64
  unfolding push_each
  push_each-total [] p = omega arith
  push_each-total (item ∷ items) p =
      let r = try_push capacity item p.queue in
      omega (arith, counted r, push_each-total items (count_push r p))
    where
      counted :
          (r : Bool × SpscQueue A)
          → ((count_push r p).pushed + (count_push r p).dropped) % 2 ^ 64
            ≡ (p.pushed + p.dropped + 1) % 2 ^ 64
      counted (true, q) = omega arith
      counted (false, q) = omega arith

  -- The ring held `old`. It now holds the first of `items` behind them, as many as there was room
  -- for, and each item is counted as pushed or as dropped.
  pub record Offered (p p' : Pushing A) (old items : List A) : Type ℓ where
    pub room : ℕ
    pub room_lem : room ≡ min (capacity - 1 - length old) (length items)
    pub holds : Contains capacity p'.queue (old ++ take room items)
    pub pushed : p'.pushed % 2 ^ 64 ≡ (p.pushed + room) % 2 ^ 64
    pub dropped : p'.dropped % 2 ^ 64 ≡ (p.dropped + (length items - room)) % 2 ^ 64

  push_one :
      (item : A) (items old : List A) (p p' : Pushing A) (r : Bool × SpscQueue A)
      → Pushed capacity item old r
      → ((old' : List A) → Contains capacity r.1 old' → Offered (count_push r p) p' old' items)
      → Offered p p' old (item ∷ items)
  push_one item items old p p' (false, q) h rest =
      let o = rest old h.1 in
      let none_left : o.room ≡ 0 = omega (arith, o.room_lem, h.0) in
      record {
        room = 0;
        room_lem = omega (arith, h.0);
        holds = subst (λ n. Contains capacity p'.queue (old ++ take n items)) none_left o.holds;
        pushed = omega (arith, o.pushed);
        dropped = omega (arith, o.dropped);
      }
  push_one item items old p p' (true, q) h rest =
      let o = rest (old ++ item ∷ []) h.1 in
      record {
        room = suc o.room;
        room_lem = omega (arith, o.room_lem, h.0, length-append old (item ∷ []));
        holds =
            subst (Contains capacity p'.queue) (append_assoc old (item ∷ []) (take o.room items))
              o.holds;
        pushed = omega (arith, o.pushed);
        dropped = omega (arith, o.dropped);
      }

  pub push_each-Offered :
      (items old : List A) (p : Pushing A)
      → Contains capacity p.queue old
      → Offered p (push_each items p) old items
  unfolding push_each
  push_each-Offered [] old p c = record {
    room = 0;
    room_lem = omega arith;
    holds = rw (append-nil old) c;
    pushed = omega arith;
    dropped = omega arith;
  }
  push_each-Offered (item ∷ items) old p c =
      let r = try_push capacity item p.queue in
      push_one item items old p (push_each items (count_push r p)) r
        (try_push_lem capacity item p.queue old c)
        (λ old' c'. push_each-Offered items old' (count_push r p) (counted r c'))
    where
      counted :
          (r : Bool × SpscQueue A) {old' : List A}
          → Contains capacity r.1 old'
          → Contains capacity (count_push r p).queue old'
      counted (true, q) c = c
      counted (false, q) c = c
