-- ===== src/Core/MatchingEngine/Matching.antt =====
-- A specification of matching at one price, over what a taker sees of a queue: whose the offers
-- are and how much is left of each, oldest first.
use lockfree_matching_engine.Prelude.{
  ℕ, ◌-◌, ◌≡◌, refl, ap, ap₂, true, arith, List, [], ◌∷◌, has, ltb, ◌==◌, if◌then◌else◌, pos,
}
use lockfree_matching_engine.Core.Types.{OrderId, Side, Quantity, Timestamp}
use lockfree_matching_engine.Core.Order.{Ptr, Order, remaining_quantity}
use lockfree_matching_engine.Core.Store.{Store, deref}
use lockfree_matching_engine.Core.PriceLevel.Invariant.{unlinked, details-same}
use lockfree_matching_engine.Transport.Message.{FillMessage}

pub record Offer : Type 0 where
  pub maker : OrderId
  pub side : Side
  pub left : Quantity

abbrev pub offer : Order → Offer
offer o = record { maker = o.id; side = o.side; left = remaining_quantity o }

pub record Trade : Type 0 where
  pub maker : OrderId
  pub quantity : Quantity

abbrev pub trade : OrderId → Quantity → Trade
trade maker quantity = record { maker = maker; quantity = quantity }

-- A taker of `n` against a queue: the trades, what the taker still wants, and the queue left.
-- The oldest offer is taken first, and whole before the next one is touched.
unfoldable pub fill_queue : ℕ → List Offer → List Trade × ℕ × List Offer
fill_queue n [] = ([], n, [])
fill_queue n (o ∷ os) =
    if n == 0
    then ([], 0, o ∷ os)
    else if ltb n o.left
    then (trade o.maker n ∷ [], 0, record o { left = o.left - n } ∷ os)
    else (let (ts, m, rest) = fill_queue (n - o.left) os in (trade o.maker o.left ∷ ts, m, rest))

-- The offers that the orders `ps` stand for.
unfoldable pub offers : Store → List Ptr → List Offer
offers s [] = []
offers s (p ∷ ps) = offer (deref s p) ∷ offers s ps

pub offers-same :
    (s t : Store) (ps : List Ptr)
    → ((y : Ptr) → has y ps ≡ true → unlinked (t y) ≡ unlinked (s y))
    → offers t ps ≡ offers s ps
unfolding offers
offers-same s t [] h = refl
offers-same s t (p ∷ ps) h =
    let d = details-same (t p) (s p) (h p (ground arith)) in
    ap₂ ◌∷◌ (ap (λ o. offer o) d) (offers-same s t ps (λ y i. h y (ground arith)))

-- The message that reports a trade at a level.
abbrev pub fill_message :
    (level_price : ℕ) (aggressive_id : OrderId) (aggressor_side : Side) (ts : Timestamp)
    → Trade
    → FillMessage
fill_message level_price aggressive_id aggressor_side ts t = record {
  aggressive_id = aggressive_id;
  passive_id = t.maker;
  price = pos level_price;
  quantity = t.quantity;
  timestamp = ts;
  aggressor_side = aggressor_side;
}
