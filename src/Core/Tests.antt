-- ===== src/Core/Tests.antt =====
-- The theorems of core/ at concrete inputs: an engine of three orders that is sent a sell order of
-- five at 100, and then a buy order of three.
use lockfree_matching_engine.Prelude.{
  ℕ, ◌+◌, ◌<◌, ◌≡◌, refl, Bool, true, some, arith, List, [], ◌∷◌, pos, update,
}
use lockfree_matching_engine.Core.Types.{bid, ask, limit}
use lockfree_matching_engine.Core.Order.{Order, default_order}
use lockfree_matching_engine.Core.Store.{free_node, object, Store, deref, is_object, modify}
use lockfree_matching_engine.Core.PriceLevel.{PriceLevel, State, empty_level, push_back, remove}
use lockfree_matching_engine.Core.PriceLevel.Invariant.{IsLevel}
use lockfree_matching_engine.Core.PriceLevel.PushBack.{Requeued, push_back_lem}
use lockfree_matching_engine.Core.PriceLevel.Remove.{remove_lem}
use lockfree_matching_engine.Core.OrderBook.{OrderBook, empty_book, add_order, cancel_order}
use lockfree_matching_engine.Core.OrderBook.Invariant.{Queues, enqueue}
use lockfree_matching_engine.Core.OrderBook.Insert.{Joins, Inserted}
use lockfree_matching_engine.Core.OrderBook.AddOrder.{add_order_accepts}
use lockfree_matching_engine.Core.OrderBook.CancelOrder.{Cancelled, cancel_order_lem}
use lockfree_matching_engine.Core.MemoryPool.{MemoryPool}
use lockfree_matching_engine.Core.MemoryPool.FreeList.{IsPool}
use lockfree_matching_engine.Core.MatchingEngine
use lockfree_matching_engine.Core.MatchingEngine.{
  MatchingEngine, process, process_new_order, process_cancel, match_order, match_buy, match_sell,
  fill_level,
}
use lockfree_matching_engine.Core.MatchingEngine.Sweep.{Depth, filled}
use lockfree_matching_engine.Core.MatchingEngine.Exchange.{
  waits, exchange_new, exchange_cancel, exchange,
}
use lockfree_matching_engine.Core.MatchingEngine.NewOrder.{
  Holds, process_new_order_lem, match_order-conserves,
}
use lockfree_matching_engine.Core.MatchingEngine.ProcessCancel.{process_cancel_lem}
use lockfree_matching_engine.Core.MatchingEngine.Process.{
  process_lem, init-Holds, empty-IsLevel, empty-IsBook, process_all, exchange_all, process_all-init,
}
use lockfree_matching_engine.Core.MatchingEngine.Prices.{
  PricedAt, Allowed, process_new_order-PricedAt,
}
use lockfree_matching_engine.Core.MatchingEngine.Safety.{
  Slots, process_all-uncrossed, process_all-room, process_all-map,
}
use lockfree_matching_engine.Transport.Message.{
  NewOrderMessage, CancelMessage, EngineMessage, new_order,
}

abbrev fresh : Store
fresh p = free_node 0

abbrev sell_five : NewOrderMessage
sell_five = record {
  id = 7;
  side = ask;
  kind = limit;
  price = pos 100;
  quantity = 5;
  timestamp = 1;
}

abbrev buy_three : NewOrderMessage
buy_three = record {
  id = 8;
  side = bid;
  kind = limit;
  price = pos 101;
  quantity = 3;
  timestamp = 2;
}

abbrev both : List EngineMessage
both = new_order sell_five ∷ new_order buy_three ∷ []

abbrev nothing : Depth
nothing p = []

abbrev engine0 : MatchingEngine
engine0 = MatchingEngine.init 3 fresh

abbrev engine1 : MatchingEngine
engine1 = process (new_order sell_five) engine0

abbrev depth1 : Depth
depth1 = (exchange 3 (new_order sell_five) nothing).1

engine0-Holds : Holds 3 engine0 nothing
engine0-Holds = init-Holds 3 fresh (omega arith)

engine1-Holds : Holds 3 engine1 depth1
engine1-Holds = (process_lem 3 (new_order sell_five) engine0 nothing (omega arith) engine0-Holds).1

process_all-init_example :
    ((process_all both (MatchingEngine.init 3 fresh)).0 ≡ (exchange_all 3 both (λ p. [])).0)
    × Holds 3 (process_all both (MatchingEngine.init 3 fresh)).1 (exchange_all 3 both (λ p. [])).1
process_all-init_example =
    process_all-init 3 fresh both (omega arith) (omega arith, (omega arith, tt))

process_lem_example :
    ((process (new_order buy_three) engine1).fills ≡ (exchange 3 (new_order buy_three) depth1).0)
    × Holds 3 (process (new_order buy_three) engine1) (exchange 3 (new_order buy_three) depth1).1
process_lem_example = process_lem 3 (new_order buy_three) engine1 depth1 (omega arith) engine1-Holds

process_new_order_lem_example :
    ((process_new_order buy_three engine1).fills ≡ (exchange_new 3 buy_three depth1).0)
    × Holds 3 (process_new_order buy_three engine1) (exchange_new 3 buy_three depth1).1
process_new_order_lem_example =
    process_new_order_lem 3 buy_three engine1 depth1 (omega arith) engine1-Holds

abbrev cancel_seven : CancelMessage
cancel_seven = record { id = 7; timestamp = 3 }

process_cancel_lem_example :
    ((process_cancel cancel_seven engine1).0 ≡ waits 7 depth1)
    × ((process_cancel cancel_seven engine1).1.fills ≡ engine1.fills)
    × Holds 3 (process_cancel cancel_seven engine1).1 (exchange_cancel 7 depth1)
process_cancel_lem_example = process_cancel_lem 3 cancel_seven engine1 depth1 engine1-Holds

match_order-conserves_example :
    filled (match_order buy_three (record engine1 { fills = [] })).1.fills
      + (match_order buy_three (record engine1 { fills = [] })).0
    ≡ 3
match_order-conserves_example =
    match_order-conserves 3 buy_three engine1 depth1 (omega arith) engine1-Holds

process_all-room_example : Slots 3 (process_all both (MatchingEngine.init 3 fresh)).1
process_all-room_example =
    process_all-room 3 fresh both (omega arith) (omega arith, (omega arith, tt))

-- A book with a bid at 99 and an ask at 101.
abbrev two_sided : List EngineMessage
two_sided =
    new_order (record sell_five { price = pos 101 })
    ∷ new_order (record buy_three { price = pos 99 })
    ∷ []

abbrev two_sided_engine : MatchingEngine
two_sided_engine = (process_all two_sided (MatchingEngine.init 3 fresh)).1

two_sided-counts : (two_sided_engine.book.bid_count ≡ 1) × (two_sided_engine.book.ask_count ≡ 1)
unfolding process_all MatchingEngine.init
two_sided-counts = (refl, refl)

two_sided-map : two_sided_engine.book.order_map 7 ≡ some 1
unfolding process_all MatchingEngine.init
two_sided-map = refl

process_all-uncrossed_example : two_sided_engine.book.best_bid < two_sided_engine.book.best_ask
process_all-uncrossed_example =
    process_all-uncrossed 3 fresh two_sided (omega arith) (omega arith, (omega arith, tt))
      (omega (arith, two_sided-counts)) (omega (arith, two_sided-counts))

process_all-map_example :
    (is_object (two_sided_engine.store 1) ≡ true)
    × ((deref two_sided_engine.store 1).id ≡ 7)
    × ((deref two_sided_engine.store 1).filled_quantity < (deref two_sided_engine.store 1).quantity)
process_all-map_example =
    process_all-map 3 fresh two_sided (omega arith) (omega arith, (omega arith, tt)) 7 1
      two_sided-map

-- One order in slot 1, and an empty level and book.
abbrev five : Order
five = record default_order { id = 7; side = ask; price = pos 100; quantity = 5 }

abbrev one_order : Store
one_order = update fresh 1 (object five)

abbrev pushed : State
pushed = push_back 1 (one_order, empty_level)

pushed-IsLevel : IsLevel pushed.0 pushed.1 (1 ∷ [])
pushed-IsLevel =
    (push_back_lem one_order empty_level 1 [] (empty-IsLevel one_order) refl refl refl).level

remove_lem_example : Requeued pushed.0 (1 ∷ []) [] (remove 1 (pushed.0, pushed.1))
remove_lem_example = remove_lem pushed.0 pushed.1 [] 1 [] pushed-IsLevel

pushed_order : deref pushed.0 1 ≡ five
unfolding push_back modify
pushed_order = refl

abbrev level_at_three : ℕ → PriceLevel
level_at_three = update (λ p. empty_level) 3 (record empty_level { head = 1; tail = 1 })

abbrev no_queues : Queues
no_queues p = []

five-Joins : Joins one_order no_queues 100 1
five-Joins = record {
  live = refl;
  not_null = refl;
  fresh = λ x. refl;
  price = refl;
  in_range = omega arith;
  unfilled = omega arith;
  small = omega arith;
}

abbrev added : Bool × Store × OrderBook
added = add_order 1 one_order empty_book

add_order_accepts_example :
    (added.0 ≡ true) × Inserted one_order empty_book no_queues 100 1 (added.1, added.2)
add_order_accepts_example =
    add_order_accepts one_order empty_book no_queues 100 1 (empty-IsBook one_order) five-Joins refl
      (omega arith) (λ h. absurd (omega arith))

added_lem : Inserted one_order empty_book no_queues 100 1 (added.1, added.2)
added_lem =
    (add_order_accepts one_order empty_book no_queues 100 1 (empty-IsBook one_order) five-Joins refl
      (omega arith) (λ h. absurd (omega arith))).1

added-map : added.2.order_map 7 ≡ some 1
unfolding add_order
added-map = refl

cancel_order_lem_example :
    ((cancel_order 7 added.1 added.2).0 ≡ true)
    × Cancelled added.1 added.2
        (enqueue no_queues 100 1)
        7
        1
        ((cancel_order 7 added.1 added.2).1, (cancel_order 7 added.1 added.2).2)
cancel_order_lem_example =
    cancel_order_lem added.1 added.2 (enqueue no_queues 100 1) 7 1 added_lem.book
      (omega (arith, added_lem.total)) added-map

abbrev used_up : MemoryPool
used_up = record { free_head = 0; available = 0 }

used_up-IsPool : IsPool one_order used_up []
used_up-IsPool = record { head = refl; chain = tt; distinct = tt; count = refl }

process_new_order-PricedAt_example :
    PricedAt (Allowed bid 101) (process_new_order buy_three engine1).fills
process_new_order-PricedAt_example =
    process_new_order-PricedAt 3 buy_three 101 engine1 depth1 (omega arith) engine1-Holds refl refl
