-- ===== src/Tools/SyntheticWorkload.antt =====
-- tools/synthetic_workload.h: the generator of order flow. What it draws at random is an argument of
-- each message.
pub mod LiveIds
pub mod Flow
use lockfree_matching_engine.Prelude.{
  ℕ, zero, suc, ◌+◌, ◌-◌, Bool, true, false, not, ◌&&◌, List, [], ◌∷◌, ◌++◌, length, ◌==◌,
  if◌then◌else◌, add64, get_or, set, last_or, drop_last, ℤ, pos, ltb_ℤ,
}
use lockfree_matching_engine.Core.Types.{
  OrderId, Side, bid, ask, OrderType, limit, market, is_limit, Price, Quantity, Timestamp,
  max_price_ticks,
}
use lockfree_matching_engine.Transport.Message.{
  NewOrderMessage, CancelMessage, EngineMessage, new_order, cancel,
}

-- The draws of one message, those that its kind does not need included: whether it is a cancel, and
-- of which live order, or else a bid, a market order, at a price in ticks, for a quantity.
pub record Draw : Type 0 where
  pub wants_cancel : Bool
  pub idx : ℕ
  pub is_bid : Bool
  pub is_market : Bool
  pub ticks : ℤ
  pub quantity : Quantity

pub record WorkloadGenerator : Type 0 where
  pub live_ids : List OrderId
  pub next_id : OrderId
  pub logical_clock : Timestamp

abbrev pub new_generator : WorkloadGenerator
new_generator = record { live_ids = []; next_id = 1; logical_clock = 0 }

-- `std::clamp<Price>(p, 1, MAX_PRICE_TICKS - 1)`
unfoldable pub clamp_price : Price → Price
clamp_price p =
    if ltb_ℤ p (pos 1)
    then pos 1
    else if ltb_ℤ (pos (max_price_ticks - 1)) p
    then pos (max_price_ticks - 1)
    else p

unfoldable pub make_new_order : Draw → WorkloadGenerator → WorkloadGenerator × NewOrderMessage
unfolding clamp_price
make_new_order draw g =
    let kind = if draw.is_market then market else limit in
    let now = add64 g.logical_clock 1 in
    (
      record {
        live_ids = if is_limit kind then g.live_ids ++ g.next_id ∷ [] else g.live_ids;
        next_id = add64 g.next_id 1;
        logical_clock = now;
      },
      record {
        id = g.next_id;
        side = if draw.is_bid then bid else ask;
        kind = kind;
        price = clamp_price draw.ticks;
        quantity = draw.quantity;
        timestamp = now;
      },
    )

abbrev pub last_id : List OrderId → OrderId
last_id [] = 0
last_id (x ∷ xs) = last_or x xs

-- `swap` with the last item, and `pop_back`: the item is overwritten by the last one.
unfoldable pub swap_and_pop : ℕ → List OrderId → List OrderId
swap_and_pop idx ids = drop_last (set ids idx (last_id ids))

unfoldable pub make_cancel : ℕ → WorkloadGenerator → WorkloadGenerator × CancelMessage
unfolding swap_and_pop
make_cancel idx g =
    let now = add64 g.logical_clock 1 in
    (
      record g { live_ids = swap_and_pop idx g.live_ids; logical_clock = now },
      record { id = get_or g.live_ids idx 0; timestamp = now },
    )

abbrev pub is_empty_list : List OrderId → Bool
is_empty_list [] = true
is_empty_list (x ∷ xs) = false

unfoldable pub next : Draw → WorkloadGenerator → WorkloadGenerator × EngineMessage
next draw g =
    if not (is_empty_list g.live_ids) && draw.wants_cancel
    then (let (g', msg) = make_cancel draw.idx g in (g', cancel msg))
    else (let (g', msg) = make_new_order draw g in (g', new_order msg))

unfoldable pub generate : List Draw → WorkloadGenerator → WorkloadGenerator × List EngineMessage
generate [] g = (g, [])
generate (draw ∷ draws) g =
    let (g1, msg) = next draw g in let (g2, msgs) = generate draws g1 in (g2, msg ∷ msgs)
