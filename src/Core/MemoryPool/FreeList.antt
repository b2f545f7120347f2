-- ===== src/Core/MemoryPool/FreeList.antt =====
-- core/memory_pool.h: the free list holds distinct unused slots, and `available` counts them.
use lockfree_matching_engine.Prelude.{
  ℕ, zero, suc, ◌+◌, ◌^◌, ◌<◌, ◌≡◌, refl, ◌∙◌, true, false, List, [], ◌∷◌, arith, ◌==◌, has, has-ne,
  Distinct, length, first_or, update,
}
use lockfree_matching_engine.Core.Order.{Ptr, null}
use lockfree_matching_engine.Core.Store.{Slot, free_node, Store, is_object}
use lockfree_matching_engine.Core.MemoryPool.{
  MemoryPool, slot_ptr, link_slots, init, allocate, deallocate,
}

-- Every slot of `fs` holds a node that points to the next one.
abbrev pub FreeChain : Store → List Ptr → Type 0
FreeChain s [] = Unit {0}
FreeChain s (p ∷ fs) = (s p ≡ free_node (first_or fs null)) × ((p == null) ≡ false) × FreeChain s fs

pub record IsPool (s : Store) (m : MemoryPool) (fs : List Ptr) : Type 0 where
  pub head : m.free_head ≡ first_or fs null
  pub chain : FreeChain s fs
  pub distinct : Distinct fs
  pub count : m.available ≡ length fs

-- What leaves the slots of the free list alone leaves the list alone.
pub FreeChain-frame :
    (s t : Store) (fs : List Ptr)
    → FreeChain s fs
    → ((q : Ptr) → has q fs ≡ true → t q ≡ s q)
    → FreeChain t fs
FreeChain-frame s t [] c h = tt
FreeChain-frame s t (p ∷ fs) c h =
    (h p (ground arith) ∙ c.0, c.1, FreeChain-frame s t fs c.2 (λ q i. h q (ground arith)))

pub IsPool-frame :
    (s t : Store) (m : MemoryPool) (fs : List Ptr)
    → IsPool s m fs
    → ((q : Ptr) → has q fs ≡ true → t q ≡ s q)
    → IsPool t m fs
IsPool-frame s t m fs v h = record {
  head = v.head;
  chain = FreeChain-frame s t fs v.chain h;
  distinct = v.distinct;
  count = v.count;
}

-- A slot of the free list holds no object.
pub not-object_of_free :
    (s : Store) (fs : List Ptr) (q : Ptr)
    → FreeChain s fs
    → has q fs ≡ true
    → is_object (s q) ≡ false
not-object_of_free s [] q c h = cc
not-object_of_free s (p ∷ fs) q c h = ground (arith, not-object_of_free s fs q c.2)

pub not-free_of_object :
    (s : Store) (fs : List Ptr) (q : Ptr)
    → FreeChain s fs
    → is_object (s q) ≡ true
    → has q fs ≡ false
not-free_of_object s fs q c h = ground (arith, not-object_of_free s fs q c)

-- What `allocate` returns and leaves, by the free list.
abbrev pub Allocated : Store → MemoryPool → List Ptr → Ptr × MemoryPool → Type 0
Allocated s m [] r = r ≡ (null, m)
Allocated s m (p ∷ fs) r = (r.0 ≡ p) × ((p == null) ≡ false) × IsPool s r.1 fs

-- `allocate` on a well-formed pool returns null and changes nothing exactly if no slot is free,
-- and else the first free slot, which is then free no more.
pub allocate_lem :
    (s : Store) (m : MemoryPool) (fs : List Ptr)
    → IsPool s m fs
    → length fs < 2 ^ 64
    → Allocated s m fs (allocate s m)
unfolding allocate
allocate_lem s m [] v small = rw v.head
allocate_lem s m (p ∷ fs) v small =
    rw (v.head, v.chain.1, v.chain.0)
      (
        refl,
        refl,
        record {
          head = refl;
          chain = v.chain.2;
          distinct = v.distinct.1;
          count = omega (arith, v.count);
        },
      )

update-FreeChain :
    (s : Store) (fs : List Ptr) (p : Ptr) (c : Slot)
    → FreeChain s fs
    → has p fs ≡ false
    → FreeChain (update s p c) fs
update-FreeChain s fs p c h out =
    FreeChain-frame s (update s p c) fs h (λ q i. ground (arith, has-ne q p fs))

-- `deallocate` of a slot that holds an object puts it in front of the free list of a well-formed
-- pool, which stays distinct and counted.
pub deallocate_lem :
    (s : Store) (m : MemoryPool) (fs : List Ptr) (p : Ptr)
    → IsPool s m fs
    → is_object (s p) ≡ true
    → (p == null) ≡ false
    → length fs + 1 < 2 ^ 64
    → let (t, n) = deallocate p s m in IsPool t n (p ∷ fs)
unfolding deallocate
deallocate_lem s m fs p v live ne small =
    let out = not-free_of_object s fs p v.chain live in
    record {
      head = refl;
      chain = (ground (arith, v.head), ne, update-FreeChain s fs p _ v.chain out);
      distinct = (out, v.distinct);
      count = omega (arith, v.count);
    }

-- The pointers of the slots with index below `n`, lowest first, in front of `fs`.
unfoldable pub slots : ℕ → List Ptr → List Ptr
slots zero fs = fs
slots (suc i) fs = slots i (slot_ptr i ∷ fs)

abbrev Above : ℕ → List Ptr → Type 0
Above n fs = (q : Ptr) → has q fs ≡ true → n < q

Above-cons : (i : ℕ) (fs : List Ptr) → Above (suc i) fs → Above i (suc i ∷ fs)
Above-cons i fs h q k = ground (arith, h q)

pub length-slots : (n : ℕ) (fs : List Ptr) → length (slots n fs) ≡ n + length fs
unfolding slots
length-slots zero fs = omega arith
length-slots (suc i) fs = omega (arith, length-slots i (suc i ∷ fs))

not-has-Above : (n : ℕ) (fs : List Ptr) → Above n fs → has n fs ≡ false
not-has-Above n fs h = ground (arith, h n)

link_slots_lem :
    (n : ℕ) (s : Store) (head : Ptr) (fs : List Ptr)
    → head ≡ first_or fs null
    → FreeChain s fs
    → Distinct fs
    → Above n fs
    → let (t, h) = link_slots n s head in
      (h ≡ first_or (slots n fs) null) × FreeChain t (slots n fs) × Distinct (slots n fs)
unfolding link_slots slots
link_slots_lem zero s head fs e c d a = (e, c, d)
link_slots_lem (suc i) s head fs e c d a =
    let out = not-has-Above (suc i) fs a in
    link_slots_lem i (update s (suc i) (free_node head)) (suc i) (suc i ∷ fs) refl
      (ground (arith, e), ground arith, update-FreeChain s fs (suc i) (free_node head) c out)
      (out, d) (Above-cons i fs a)

-- A new pool has all its slots free, distinct and counted, and the lowest address first,
-- whatever its memory held.
pub init-IsPool :
    (pool_size : ℕ) (memory : Store)
    → let (s, m) = init pool_size memory in
      IsPool s m (slots pool_size []) × (m.available ≡ pool_size)
unfolding init
init-IsPool n memory =
    let (h, c, d) = link_slots_lem n memory null [] refl tt tt (λ q i. cc) in
    (record { head = h; chain = c; distinct = d; count = omega (arith, length-slots n []) }, refl)
