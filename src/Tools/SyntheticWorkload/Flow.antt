-- ===== src/Tools/SyntheticWorkload/Flow.antt =====
-- The generated flow: new identifiers, cancels of live orders, prices and quantities in range.
use lockfree_matching_engine.Prelude.{
  ◌+◌, ◌^◌, ◌≤◌, ◌<◌, ◌≡◌, refl, ◌∙◌, Bool, true, false, not, ◌&&◌, some, List, [], ◌∷◌, ◌++◌,
  length, ◌==◌, ==→eq, if◌then◌else◌, one_if, count, count-append, arith, Bool-cases, inl, inr,
  update, ltb,
}
use lockfree_matching_engine.Core.Types.{OrderId, is_limit, market, limit}
use lockfree_matching_engine.Transport.Message.{NewOrderMessage, EngineMessage, new_order, cancel}
use lockfree_matching_engine.Transport.Intake.{
  Outstanding, deliver, replay, replay-step, no_orders, SoundMessage, AllSound,
}
use lockfree_matching_engine.Tools.SyntheticWorkload.{
  Draw, WorkloadGenerator, new_generator, make_new_order, make_cancel, is_empty_list, next,
  generate,
}
use lockfree_matching_engine.Tools.SyntheticWorkload.LiveIds.{
  IsLive, InRange, clamp_price-HasLevel, make_cancel-IsLive, unused,
}

-- What comes of a message: the receiver can act on it, it is sound, and the generator stays in step.
record Given (g : WorkloadGenerator) (r : WorkloadGenerator × EngineMessage) (o : Outstanding)
    : Type 0 where
  pub orders : Outstanding
  pub delivered : deliver r.1 o ≡ some orders
  pub live : IsLive r.0 orders
  pub sound : SoundMessage r.1
  pub ids : r.0.next_id ≤ g.next_id + 1

not_listed : (g : WorkloadGenerator) (o : Outstanding) → IsLive g o → count g.next_id g.live_ids ≡ 0
not_listed g o l = elim (Bool-cases (ltb 0 (count g.next_id g.live_ids))) [
  | inl e ↦
      let (msg, e', k) = l.resting g.next_id (ground arith) in
      absurd (omega (arith, l.fresh g.next_id msg e'))
  | inr e ↦ ground arith
]

added-IsLive :
    (rests : Bool) (msg : NewOrderMessage) (g g' : WorkloadGenerator) (o : Outstanding)
    → IsLive g o
    → g'.next_id ≡ g.next_id + 1
    → (rests ≡ true → msg.kind ≡ limit)
    → ((a : OrderId)
        → count a g'.live_ids ≡ count a g.live_ids + one_if (rests && (a == g.next_id)))
    → IsLive g' (update o g.next_id (some msg))
added-IsLive rests msg g g' o l i k each = record {
  once = λ a. elim (Bool-cases (a == g.next_id)) [
    | inl same ↦
        let e = ==→eq a g.next_id same in
        let z : count a g.live_ids ≡ 0 = rw e (not_listed g o l) in ground (arith, each a)
    | inr other ↦ ground (arith, each a, l.once a)
  ];
  resting = λ a p. elim (Bool-cases (a == g.next_id)) [
    | inl same ↦
        let e = ==→eq a g.next_id same in
        let z : count a g.live_ids ≡ 0 = rw e (not_listed g o l) in
        (msg, rw same, k (ground (arith, each a)))
    | inr other ↦ let (m, e', k') = l.resting a (ground (arith, each a)) in (m, rw other e', k')
  ];
  fresh = λ a m e'. elim (Bool-cases (a == g.next_id)) [
    | inl same ↦ ground arith
    | inr other ↦ let old = l.fresh a m (rw other at e') in omega arith
  ];
}

make_new_order-Given :
    (draw : Draw) (g : WorkloadGenerator) (o : Outstanding)
    → IsLive g o
    → InRange draw g
    → g.next_id + 1 < 2 ^ 64
    → let (g', msg) = make_new_order draw g in Given g (g', new_order msg) o
unfolding make_new_order deliver
make_new_order-Given draw g o l r room = record {
  orders = update o g.next_id (some (make_new_order draw g).1);
  delivered = rw (unused g o l);
  live =
      added-IsLive (not draw.is_market) (make_new_order draw g).1 g (make_new_order draw g).0 o l
        (omega arith) (λ e. ground arith) (λ a. listed draw.is_market a);
  sound = (clamp_price-HasLevel draw.ticks, r.quantity_pos, r.quantity_fits);
  ids = omega arith;
}
  where
    listed :
        (b : Bool) (a : OrderId)
        → count a (
            if is_limit (if b then market else limit)
            then g.live_ids ++ g.next_id ∷ []
            else g.live_ids)
          ≡ count a g.live_ids + one_if (not b && (a == g.next_id))
    listed true a = omega arith
    listed false a = omega (arith, count-append g.live_ids (g.next_id ∷ []) a)

make_cancel-Given :
    (draw : Draw) (g : WorkloadGenerator) (o : Outstanding)
    → IsLive g o
    → draw.idx < length g.live_ids
    → let (g', msg) = make_cancel draw.idx g in Given g (g', cancel msg) o
make_cancel-Given draw g o l h =
    let (o', e, l', i) = make_cancel-IsLive draw.idx g o h l in
    record { orders = o'; delivered = e; live = l'; sound = tt; ids = omega arith }

next-Given :
    (draw : Draw) (g : WorkloadGenerator) (o : Outstanding)
    → IsLive g o
    → InRange draw g
    → g.next_id + 1 < 2 ^ 64
    → Given g (next draw g) o
unfolding next
next-Given draw g o l r room =
    elim (Bool-cases (not (is_empty_list g.live_ids) && draw.wants_cancel)) [
      | inl e ↦
          rw e (make_cancel-Given draw g o l (r.idx (some_live g.live_ids draw.wants_cancel e)))
      | inr e ↦ rw e (make_new_order-Given draw g o l r room)
    ]
  where
    some_live :
        (ids : List OrderId) (b : Bool) → (not (is_empty_list ids) && b) ≡ true → 0 < length ids
    some_live [] b e = cc
    some_live (x ∷ xs) b e = omega arith

-- The draws of a run are in their ranges, each for the generator that it reaches.
abbrev pub AllInRange : List Draw → WorkloadGenerator → Type 0
AllInRange [] g = Unit {0}
AllInRange (draw ∷ draws) g = InRange draw g × AllInRange draws (next draw g).0

generate-IsLive :
    (draws : List Draw) (g : WorkloadGenerator) (o : Outstanding)
    → IsLive g o
    → AllInRange draws g
    → g.next_id + length draws < 2 ^ 64
    → let (g', msgs) = generate draws g in
      (o' : Outstanding) × (replay msgs o ≡ some o') × IsLive g' o' × AllSound msgs
unfolding generate replay
generate-IsLive [] g o l r room = (o, refl, l, tt)
generate-IsLive (draw ∷ draws) g o l r room =
    let n = next-Given draw g o l r.0 (omega arith) in
    let (o', e, l', s) =
      generate-IsLive draws (next draw g).0 n.orders n.live r.1 (omega (arith, n.ids)) in
    (
      o',
      replay-step (next draw g).1 (generate draws (next draw g).0).1 o n.orders n.delivered ∙ e,
      l',
      (n.sound, s),
    )

-- For draws in their ranges (an index of a live order, if there is one, and a quantity from 1 to
-- 2^32 - 1), fewer than 2^64 - 1 of them: a receiver that starts with no order can act on each
-- generated message; each live identifier is listed once and is that of an outstanding limit
-- order; the outstanding identifiers are below the next; and the new orders have a price
-- strictly between 0 and 10,000,000 ticks and a quantity from 1 to 2^32 - 1.
pub generate_lem :
    (draws : List Draw)
    → AllInRange draws new_generator
    → length draws + 1 < 2 ^ 64
    → let (g, msgs) = generate draws new_generator in
      (o : Outstanding) × (replay msgs no_orders ≡ some o) × IsLive g o × AllSound msgs
generate_lem draws r room =
    generate-IsLive draws new_generator no_orders
      (record {
        once = λ id. omega arith;
        resting = λ id p. absurd (omega arith);
        fresh = λ id msg e. cc;
      })
      r (omega arith)
