-- ===== src/Core/MatchingEngine/Process.antt =====
-- `MatchingEngine::process` and the constructor implement the exchange, message by message.
use lockfree_matching_engine.Prelude.{
  ℕ, ◌+◌, ◌^◌, ◌<◌, ◌≡◌, refl, sym, ap₂, arith, List, [], ◌∷◌, ◌++◌, sum_upto-zero,
}
use lockfree_matching_engine.Core.Types.{max_price_ticks}
use lockfree_matching_engine.Core.Store.{Store}
use lockfree_matching_engine.Core.PriceLevel.{empty_level}
use lockfree_matching_engine.Core.PriceLevel.Invariant.{IsLevel, total}
use lockfree_matching_engine.Core.OrderBook.{empty_book}
use lockfree_matching_engine.Core.OrderBook.Counts.{count_side}
use lockfree_matching_engine.Core.OrderBook.Quotes.{Quoted}
use lockfree_matching_engine.Core.OrderBook.Invariant.{Queues, IsBook}
use lockfree_matching_engine.Core.MemoryPool
use lockfree_matching_engine.Core.MemoryPool.FreeList.{slots, init-IsPool}
use lockfree_matching_engine.Core.MatchingEngine.{MatchingEngine, init, process}
use lockfree_matching_engine.Core.MatchingEngine.Matching.{offers}
use lockfree_matching_engine.Core.MatchingEngine.Sweep.{Depth}
use lockfree_matching_engine.Core.MatchingEngine.Exchange.{exchange}
use lockfree_matching_engine.Core.MatchingEngine.NewOrder.{
  Holds, without_fills, process_new_order_lem,
}
use lockfree_matching_engine.Core.MatchingEngine.ProcessCancel.{process_cancel_lem}
use lockfree_matching_engine.Transport.Message.{FillMessage, EngineMessage, new_order, cancel}

-- A message whose quantity fits its word.
abbrev pub FitsWord : EngineMessage → Type 0
FitsWord (new_order msg) = msg.quantity < 2 ^ 32
FitsWord (cancel msg) = Unit {0}

cleared-Holds :
    (n : ℕ) (e : MatchingEngine) (depth : Depth)
    → Holds n e depth
    → Holds n (record e { fills = [] }) depth
cleared-Holds n e depth h = record {
  queues = h.queues;
  free = h.free;
  engine = without_fills n e h.queues h.free [] h.engine;
  offered = h.offered;
}

-- If the engine holds the orders that a depth offers and the message's quantity is below 2^32,
-- then `process` reports the fills of the abstract exchange and leaves an engine that holds what
-- the exchange then offers.
pub process_lem :
    (n : ℕ) (msg : EngineMessage) (e : MatchingEngine) (depth : Depth)
    → FitsWord msg
    → Holds n e depth
    → let (f, depth') = exchange n msg depth in
      let e' = process msg e in (e'.fills ≡ f) × Holds n e' depth'
unfolding process exchange
process_lem n (new_order msg) e depth small h = process_new_order_lem n msg e depth small h
process_lem n (cancel msg) e depth small h =
    let (found, fills, holds) =
      process_cancel_lem n msg (record e { fills = [] }) depth (cleared-Holds n e depth h) in
    (fills, holds)

abbrev no_orders : Queues
no_orders p = []

pub empty-IsLevel : (s : Store) → IsLevel s empty_level []
unfolding total
empty-IsLevel s = record {
  head = refl;
  tail = refl;
  chain = tt;
  distinct = tt;
  quantity = refl;
  count = refl;
}

empty-Quoted : Quoted empty_book (λ p. 0) (λ p. 0)
empty-Quoted = record {
  bid_count = sym (sum_upto-zero (λ p. 0) max_price_ticks (λ x h. refl));
  ask_count = sym (sum_upto-zero (λ p. 0) max_price_ticks (λ x h. refl));
  bid_bound = λ x h. absurd (omega arith);
  ask_bound = λ x h. absurd (omega arith);
  bid_held = λ h. absurd (omega arith);
  ask_held = λ h. absurd (omega arith);
  uncrossed = λ h. absurd (omega arith);
  bid_sentinel = λ h. refl;
  ask_sentinel = λ h. refl;
  bid_range = omega arith;
  ask_range = omega arith;
}

-- A new book holds no order.
pub empty-IsBook : (s : Store) → IsBook s empty_book no_orders
unfolding count_side
empty-IsBook s = record {
  level = λ p. empty-IsLevel s;
  resting = λ p r i. cc;
  known = λ id r m. cc;
  quoted = empty-Quoted;
}

-- A new engine offers nothing, whatever its memory held.
pub init-Holds : (n : ℕ) (memory : Store) → n + 1 < 2 ^ 64 → Holds n (init n memory) (λ p. [])
unfolding init offers
init-Holds n memory small =
    let (pool, available) = init-IsPool n memory in
    record {
      queues = no_orders;
      free = slots n [];
      engine = record {
        book = empty-IsBook (MemoryPool.init n memory).0;
        unfilled = λ x y i. cc;
        pool = pool;
        room = omega (arith, available);
        small = small;
      };
      offered = refl;
    }

-- All the fills of a sequence of messages, and the state at its end.
unfoldable pub process_all : List EngineMessage → MatchingEngine → List FillMessage × MatchingEngine
unfolding process
process_all [] e = ([], e)
process_all (msg ∷ msgs) e =
    let e' = process msg e in let (fs, e'') = process_all msgs e' in (e'.fills ++ fs, e'')

unfoldable pub exchange_all : ℕ → List EngineMessage → Depth → List FillMessage × Depth
unfolding exchange
exchange_all n [] depth = ([], depth)
exchange_all n (msg ∷ msgs) depth =
    let (f, depth') = exchange n msg depth in
    let (fs, depth'') = exchange_all n msgs depth' in (f ++ fs, depth'')

abbrev pub AllFit : List EngineMessage → Type 0
AllFit [] = Unit {0}
AllFit (msg ∷ msgs) = FitsWord msg × AllFit msgs

process_all_lem :
    (n : ℕ) (msgs : List EngineMessage) (e : MatchingEngine) (depth : Depth)
    → AllFit msgs
    → Holds n e depth
    → let (f, depth') = exchange_all n msgs depth in
      let (g, e') = process_all msgs e in (g ≡ f) × Holds n e' depth'
unfolding process_all exchange_all
process_all_lem n [] e depth small h = (refl, h)
process_all_lem n (msg ∷ msgs) e depth small h =
    let (f, holds) = process_lem n msg e depth small.0 h in
    let (g, later) =
      process_all_lem n msgs (process msg e) (exchange n msg depth).1 small.1 holds in
    (ap₂ ◌++◌ f g, later)

-- For a pool of n slots with n + 1 < 2^64 over any memory, and any sequence of messages whose
-- quantities are below 2^32: the fills that `process` reports from the constructor on, message
-- after message, are those of the abstract exchange with room for n orders, and the engine then
-- holds exactly the orders that the exchange offers, in the same order at each price.
pub process_all-init :
    (n : ℕ) (memory : Store) (msgs : List EngineMessage)
    → n + 1 < 2 ^ 64
    → AllFit msgs
    → let (f, depth) = exchange_all n msgs (λ p. []) in
      let (g, e) = process_all msgs (init n memory) in (g ≡ f) × Holds n e depth
process_all-init n memory msgs small fit =
    process_all_lem n msgs (init n memory) (λ p. []) fit (init-Holds n memory small)
