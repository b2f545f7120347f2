-- ===== src/Tools/Tests.antt =====
-- The theorems of tools/ at concrete inputs.
use lockfree_matching_engine.Prelude.{
  ℕ, zero, suc, ◌*◌, ◌/◌, ◌%◌, ◌==◌, get_or, ◌+◌, ◌≡◌, refl, true, false, some, List, [], ◌∷◌, ◌++◌,
  take, if◌then◌else◌, pos, negsuc, arith,
}
use lockfree_matching_engine.Core.Types.{Side, bid, ask, OrderType, limit, market, Price}
use lockfree_matching_engine.Transport.Message.{
  NewOrderMessage, CancelMessage, EngineMessage, new_order, cancel,
}
use lockfree_matching_engine.Transport.Intake.{Outstanding, replay, no_orders, AllSound}
use lockfree_matching_engine.Tools.SyntheticWorkload.{
  Draw, new_generator, next, generate, make_new_order,
}
use lockfree_matching_engine.Tools.SyntheticWorkload.LiveIds.{IsLive}
use lockfree_matching_engine.Tools.SyntheticWorkload.Flow.{AllInRange, generate_lem}
use lockfree_matching_engine.Tools.OrderFile.{Layout, write_records, replay_file, record_bytes}
use lockfree_matching_engine.Tools.OrderFile.RoundTrip.{
  nothing_written, replay_file-write_records, replay_file-cut,
}

abbrev limit_bid : Draw
limit_bid = record {
  wants_cancel = true;
  idx = 0;
  is_bid = true;
  is_market = false;
  ticks = pos 10000;
  quantity = 3;
}

abbrev draws : List Draw
draws = limit_bid ∷ limit_bid ∷ []

draws-in_range : AllInRange draws new_generator
unfolding next make_new_order
draws-in_range = (omega arith, (omega arith, tt))

generate_lem_example :
    let (g, msgs) = generate draws new_generator in
    (o : Outstanding) × (replay msgs no_orders ≡ some o) × IsLive g o × AllSound msgs
generate_lem_example = generate_lem draws draws-in_range (omega arith)

-- A layout with a number for each field, and two for the price.
abbrev side_code : Side → ℕ
side_code bid = 0
side_code ask = 1

abbrev kind_code : OrderType → ℕ
kind_code limit = 0
kind_code market = 1

abbrev side_of : ℕ → Side
side_of zero = bid
side_of (suc n) = ask

abbrev kind_of : ℕ → OrderType
kind_of zero = limit
kind_of (suc n) = market

abbrev price_code : Price → ℕ
price_code (pos n) = n * 2
price_code (negsuc n) = n * 2 + 1

abbrev price_of : ℕ → Price
price_of n = if n % 2 == 0 then pos (n / 2) else negsuc (n / 2)

abbrev order_of : List ℕ → NewOrderMessage
order_of xs = record {
  id = get_or xs 0 0;
  side = side_of (get_or xs 1 0);
  kind = kind_of (get_or xs 2 0);
  price = price_of (get_or xs 3 0);
  quantity = get_or xs 4 0;
  timestamp = get_or xs 5 0;
}

abbrev order_numbers : NewOrderMessage → List ℕ
order_numbers msg =
    msg.id
    ∷ side_code msg.side
    ∷ kind_code msg.kind
    ∷ price_code msg.price
    ∷ msg.quantity
    ∷ msg.timestamp
    ∷ []

abbrev cancel_numbers : CancelMessage → List ℕ
cancel_numbers msg = msg.id ∷ msg.timestamp ∷ []

abbrev cancel_from : List ℕ → CancelMessage
cancel_from xs = record { id = get_or xs 0 0; timestamp = get_or xs 1 0 }

price_of_code : (p : Price) → price_of (price_code p) ≡ p
price_of_code (pos n) = ground arith
price_of_code (negsuc n) = ground arith

side_of_code : (s : Side) → side_of (side_code s) ≡ s
side_of_code bid = refl
side_of_code ask = refl

kind_of_code : (k : OrderType) → kind_of (kind_code k) ≡ k
kind_of_code limit = refl
kind_of_code market = refl

order_of_numbers : (msg : NewOrderMessage) → order_of (order_numbers msg) ≡ msg
order_of_numbers msg =
    ground (arith, price_of_code msg.price, side_of_code msg.side, kind_of_code msg.kind)

abbrev layout : Layout
layout = record {
  size_new = 6;
  size_cancel = 2;
  new_bytes = order_numbers;
  cancel_bytes = cancel_numbers;
  new_of = order_of;
  cancel_of = cancel_from;
  new_size = λ msg. refl;
  cancel_size = λ msg. refl;
  new_copied = order_of_numbers;
  cancel_copied = λ msg. refl;
}

abbrev order_one : EngineMessage
order_one =
    new_order
      (record { id = 1; side = bid; kind = limit; price = pos 100; quantity = 5; timestamp = 1 })

abbrev cancel_one : EngineMessage
cancel_one = cancel (record { id = 1; timestamp = 2 })

replay_file-write_records_example :
    let w = write_records layout (order_one ∷ cancel_one ∷ []) nothing_written in
    replay_file layout w.bytes ≡ record {
      new_count = w.new_count;
      cancel_count = w.cancel_count;
      error_count = 0;
      messages = order_one ∷ cancel_one ∷ [];
    }
replay_file-write_records_example = replay_file-write_records layout (order_one ∷ cancel_one ∷ [])

replay_file-cut_example :
    let w = write_records layout (order_one ∷ []) nothing_written in
    replay_file layout (w.bytes ++ take 2 (record_bytes layout cancel_one)) ≡ record {
      new_count = w.new_count;
      cancel_count = w.cancel_count;
      error_count = 1;
      messages = order_one ∷ [];
    }
replay_file-cut_example = replay_file-cut layout (order_one ∷ []) cancel_one 1 (omega arith)
