-- ===== src/Transport/Intake.antt =====
-- What a receiver of engine messages relies on: identifiers that it can act on, prices that the book
-- has a level for, and quantities that fit their word and are not zero.
use lockfree_matching_engine.Prelude.{
  ◌<◌, ◌^◌, ◌≡◌, Option, none, some, List, [], ◌∷◌, ◌++◌, update, pos, negsuc, arith,
}
use lockfree_matching_engine.Core.Types.{OrderId, Timestamp, Price, max_price_ticks}
use lockfree_matching_engine.Transport.Message.{
  NewOrderMessage, CancelMessage, EngineMessage, new_order, cancel,
}

-- The orders that a receiver of the messages has outstanding.
abbrev pub Outstanding : Type 0
Outstanding = OrderId → Option NewOrderMessage

-- A new order needs an identifier that is not in use, and a cancel one that is.
abbrev pub admit : NewOrderMessage → Outstanding → Option NewOrderMessage → Option Outstanding
admit msg o none = some (update o msg.id (some msg))
admit msg o (some other) = none

abbrev pub withdraw : CancelMessage → Outstanding → Option NewOrderMessage → Option Outstanding
withdraw msg o none = none
withdraw msg o (some other) = some (update o msg.id none)

unfoldable pub deliver : EngineMessage → Outstanding → Option Outstanding
deliver (new_order msg) o = admit msg o (o msg.id)
deliver (cancel msg) o = withdraw msg o (o msg.id)

unfoldable pub replay : List EngineMessage → Outstanding → Option Outstanding
unfolding deliver
replay [] o = some o
replay (msg ∷ msgs) o = elim (deliver msg o) [ none ↦ none | some o' ↦ replay msgs o' ]

pub replay-step :
    (msg : EngineMessage) (msgs : List EngineMessage) (o o' : Outstanding)
    → deliver msg o ≡ some o'
    → replay (msg ∷ msgs) o ≡ replay msgs o'
unfolding replay
replay-step msg msgs o o' e = rw (e, replay)

pub replay-append :
    (xs ys : List EngineMessage) (o o' : Outstanding)
    → replay xs o ≡ some o'
    → replay (xs ++ ys) o ≡ replay ys o'
unfolding replay
replay-append [] ys o o' h = ground arith
replay-append (x ∷ xs) ys o o' h = by_delivery (deliver x o) h (λ o1. replay-append xs ys o1 o')
  where
    by_delivery :
        (d : Option Outstanding)
        → (elim d [ none ↦ none | some o1 ↦ replay xs o1 ]) ≡ some o'
        → ((o1 : Outstanding) → replay xs o1 ≡ some o' → replay (xs ++ ys) o1 ≡ replay ys o')
        → (elim d [ none ↦ none | some o1 ↦ replay (xs ++ ys) o1 ]) ≡ replay ys o'
    by_delivery none h ih = cc
    by_delivery (some o1) h ih = ih o1 h

abbrev pub no_orders : Outstanding
no_orders id = none

-- A price between the ends of the level array, and not at 0.
abbrev pub HasLevel : Price → Type 0
HasLevel (pos t) = (0 < t) × (t < max_price_ticks)
HasLevel (negsuc t) = ⊥

abbrev pub SoundMessage : EngineMessage → Type 0
SoundMessage (new_order msg) = HasLevel msg.price × (0 < msg.quantity) × (msg.quantity < 2 ^ 32)
SoundMessage (cancel msg) = Unit {0}

abbrev pub AllSound : List EngineMessage → Type 0
AllSound [] = Unit {0}
AllSound (msg ∷ msgs) = SoundMessage msg × AllSound msgs

pub AllSound-append : (xs ys : List EngineMessage) → AllSound xs → AllSound ys → AllSound (xs ++ ys)
AllSound-append [] ys h k = k
AllSound-append (x ∷ xs) ys h k = (h.0, AllSound-append xs ys h.1 k)

-- The message with another timestamp, and all else as it was.
abbrev pub with_time : Timestamp → EngineMessage → EngineMessage
with_time now (new_order msg) = new_order (record {
  id = msg.id;
  side = msg.side;
  kind = msg.kind;
  price = msg.price;
  quantity = msg.quantity;
  timestamp = now;
})
with_time now (cancel msg) = cancel (record { id = msg.id; timestamp = now })

abbrev pub all_with_time : Timestamp → List EngineMessage → List EngineMessage
all_with_time now [] = []
all_with_time now (msg ∷ msgs) = with_time now msg ∷ all_with_time now msgs
