-- ===== src/Core/OrderBook/Repair.antt =====
-- The repair of the best prices in core/order_book.cpp after an order has gone.
use lockfree_matching_engine.Prelude.{
  ℕ, suc, ◌≤◌, ◌<◌, ◌≡◌, refl, sym, ap, subst, ◌∙◌, true, false, Option, none, some, arith, inl,
  inr, Bool-cases, ◌==◌, ==→eq, sum_upto, OneMore, sum_upto-zero, le-sum_upto, sum_upto-OneMore,
}
use lockfree_matching_engine.Core.Types.{bid, max_price_ticks}
use lockfree_matching_engine.Core.PriceLevel.{is_empty}
use lockfree_matching_engine.Core.OrderBook.{
  OrderBook, repair_best, scan_down, update_best_bid_after_remove,
}
use lockfree_matching_engine.Core.OrderBook.Scan.{ScanDown, scan_down_lem}
use lockfree_matching_engine.Core.OrderBook.Quotes.{
  Quoted, Ranged, bids_counted, asks_counted, positive_of_OneMore,
}

update_best_bid-none :
    (p : ℕ) (b : OrderBook)
    → (b.bid_count == 0) ≡ true
    → update_best_bid_after_remove p b ≡ record b { best_bid = 0 }
unfolding update_best_bid_after_remove
update_best_bid-none p b e = rw (e, update_best_bid_after_remove)

update_best_bid-scan :
    (p : ℕ) (b : OrderBook)
    → (b.bid_count == 0) ≡ false
    → update_best_bid_after_remove p b
      ≡ elim (scan_down b.levels p) [ some m ↦ record b { best_bid = m } | none ↦ b ]
unfolding update_best_bid_after_remove
update_best_bid-scan p b e = rw (e, update_best_bid_after_remove)

module _ (p : ℕ) (b : OrderBook) where
  repair_bid-full : is_empty (b.levels p) ≡ false → repair_best bid p b ≡ b
  unfolding repair_best
  repair_bid-full e = rw (e, repair_best)

  repair_bid-other :
      is_empty (b.levels p) ≡ true → (p == b.best_bid) ≡ false → repair_best bid p b ≡ b
  unfolding repair_best
  repair_bid-other e f = rw (e, f, repair_best)

  repair_bid-best :
      is_empty (b.levels p) ≡ true
      → (p == b.best_bid) ≡ true
      → repair_best bid p b ≡ update_best_bid_after_remove p b
  unfolding repair_best
  repair_bid-best e f = rw (e, f, repair_best)

-- `b` is the book `c` with one bid less at `p`, before the repair.
pub record BidGone (c b : OrderBook) (bids asks bids' : ℕ → ℕ) (p : ℕ) : Type 0 where
  pub before : Quoted c bids asks
  pub one : OneMore bids' bids p
  pub in_range : p < max_price_ticks
  pub ranged : Ranged b.levels bids' asks
  pub bid_count : suc b.bid_count ≡ c.bid_count
  pub ask_count : b.ask_count ≡ c.ask_count
  pub best_bid : b.best_bid ≡ c.best_bid
  pub best_ask : b.best_ask ≡ c.best_ask

module _ {c b : OrderBook} {bids asks bids' : ℕ → ℕ} {p : ℕ}
    (g : BidGone c b bids asks bids' p) where
  fewer : (x : ℕ) → 0 < bids' x → 0 < bids x
  fewer x h = positive_of_OneMore bids' bids p x g.one h

  had_bid : 0 < bids p
  had_bid = omega (arith, g.one.here)

  sum_left : b.bid_count ≡ sum_upto bids' max_price_ticks
  sum_left = omega (
    arith,
    g.bid_count,
    g.before.bid_count,
    sum_upto-OneMore bids' bids p max_price_ticks g.one g.in_range,
  )

  -- No ask rests at or below the old best bid.
  no_ask : (x : ℕ) → x ≤ b.best_bid → asks x ≡ 0
  no_ask x h = elim (Bool-cases (asks x == 0)) [
    | inl e ↦ ground arith
    | inr e ↦
        let pos' : 0 < asks x = ground arith in
        absurd (
          omega (
            arith,
            g.before.ask_bound x pos',
            g.best_bid,
            g.before.uncrossed (bids_counted g.before p g.in_range had_bid)
                (asks_counted g.before x (g.ranged.asks_in x pos') pos'),
          ))
  ]

  Quoted_of_best :
      (m : ℕ)
      → m ≤ b.best_bid
      → ((x : ℕ) → 0 < bids' x → x ≤ m)
      → (0 < b.bid_count → 0 < bids' m)
      → (b.bid_count ≡ 0 → m ≡ 0)
      → Quoted (record b { best_bid = m }) bids' asks
  Quoted_of_best m le bound held sentinel = record {
    bid_count = sum_left;
    ask_count = g.ask_count ∙ g.before.ask_count;
    bid_bound = bound;
    ask_bound = λ x k. omega (arith, g.best_ask, g.before.ask_bound x k);
    bid_held = held;
    ask_held = λ k. rw g.best_ask (g.before.ask_held (omega (arith, g.ask_count)));
    uncrossed = λ k n. omega (
      arith,
      g.best_ask,
      g.best_bid,
      g.before.uncrossed (omega (arith, g.bid_count)) (omega (arith, g.ask_count)),
    );
    bid_sentinel = sentinel;
    ask_sentinel = λ e. g.best_ask ∙ g.before.ask_sentinel (omega (arith, g.ask_count));
    bid_range = omega (arith, g.best_bid, g.before.bid_range);
    ask_range = omega (arith, g.best_ask, g.before.ask_range);
  }

  bound_before : (x : ℕ) → 0 < bids' x → x ≤ b.best_bid
  bound_before x h = omega (arith, g.best_bid, g.before.bid_bound x (fewer x h))

  -- Nothing to repair: the best price still has a bid.
  bid_kept : 0 < bids' b.best_bid → Quoted b bids' asks
  bid_kept h =
      Quoted_of_best b.best_bid (omega arith) bound_before (λ _. h)
        (λ e. absurd (
          omega (
            arith,
            sum_left,
            le-sum_upto bids' max_price_ticks b.best_bid (g.ranged.bids_in b.best_bid h),
          )))

  no_bids_left : b.bid_count ≡ 0 → (x : ℕ) → 0 < bids' x → ⊥
  no_bids_left e x h =
      omega (arith, sum_left, le-sum_upto bids' max_price_ticks x (g.ranged.bids_in x h))

  -- The level of the best bid is empty, and a bid is left: the scan finds the next one.
  bid_found :
      bids' b.best_bid ≡ 0
      → 0 < b.bid_count
      → (r : Option ℕ) → ScanDown b.levels b.best_bid r
      → Quoted (elim r [ some m ↦ record b { best_bid = m } | none ↦ b ]) bids' asks
  bid_found gone left none h =
      absurd (omega (arith, sum_left, sum_upto-zero bids' max_price_ticks (λ x _. no_bid x)))
    where
      no_bid : (x : ℕ) → bids' x ≡ 0
      no_bid x = elim (Bool-cases (bids' x == 0)) [
        | inl e ↦ ground arith
        | inr e ↦ absurd (found (ground arith))
      ]
        where
          found : 0 < bids' x → ⊥
          found k = elim (Bool-cases (x == b.best_bid)) [
            | inl e ↦ at (ground arith)
            | inr e ↦ ground (arith, g.ranged.empty x, h x, bound_before x k)
          ]
            where
              at : x ≡ b.best_bid → ⊥
              at e = omega (arith, gone, ap bids' e)
  bid_found gone left (some m) h =
      Quoted_of_best m (omega (arith, h.0)) bound (λ _. here) (λ e. absurd (omega arith))
    where
      here : 0 < bids' m
      here = ground (arith, g.ranged.empty m, no_ask m, h.0, h.1)

      bound : (x : ℕ) → 0 < bids' x → x ≤ m
      bound x k = elim (Bool-cases (x == b.best_bid)) [
        | inl e ↦ at (ground arith)
        | inr e ↦ ground (arith, g.ranged.empty x, h.2 x, bound_before x k)
      ]
        where
          at : x ≡ b.best_bid → x ≤ m
          at e = absurd (omega (arith, gone, ap bids' e))

  bid_elsewhere : (b.best_bid == p) ≡ false → 0 < bids' b.best_bid
  bid_elsewhere e = omega (
    arith,
    g.one.elsewhere b.best_bid e,
    subst (λ x. 0 < bids x) (sym g.best_bid) (g.before.bid_held (omega (arith, g.bid_count))),
  )

  bid_at_best : is_empty (b.levels p) ≡ false → (b.best_bid == p) ≡ true → 0 < bids' b.best_bid
  bid_at_best h e =
      subst (λ x. 0 < bids' x) (sym (==→eq _ _ e))
        (ground (arith, g.ranged.empty p, no_ask p (ground arith)))

  bid_kept_full : is_empty (b.levels p) ≡ false → Quoted b bids' asks
  bid_kept_full h = elim (Bool-cases (b.best_bid == p)) [
    | inl e ↦ bid_kept (bid_at_best h e)
    | inr e ↦ bid_kept (bid_elsewhere e)
  ]

  gone_at_best : is_empty (b.levels p) ≡ true → p ≡ b.best_bid → bids' b.best_bid ≡ 0
  gone_at_best h e = rw (← e) (ground (arith, g.ranged.empty p))

  update_bid-Quoted :
      is_empty (b.levels p) ≡ true
      → p ≡ b.best_bid
      → Quoted (update_best_bid_after_remove p b) bids' asks
  update_bid-Quoted h e = elim (Bool-cases (b.bid_count == 0)) [
    | inl z ↦
        let none_left = no_bids_left (ground arith) in
        rw (update_best_bid-none p b z) (
          Quoted_of_best 0 (omega arith) (λ x k. absurd (none_left x k))
            (λ k. absurd (omega (arith, ==→eq _ _ z))) (λ _. refl))
    | inr n ↦
        rw (update_best_bid-scan p b n, e)
          (bid_found (gone_at_best h e) (ground arith) (scan_down b.levels b.best_bid)
            (scan_down_lem b.levels b.best_bid))
  ]

  -- The repair after a bid has gone leaves true counters and best prices.
  pub repair_best-bid : Quoted (repair_best bid p b) bids' asks
  repair_best-bid = elim (Bool-cases (is_empty (b.levels p))) [
    | inr full ↦ rw (repair_bid-full p b full) (bid_kept_full full)
    | inl gone ↦ elim (Bool-cases (p == b.best_bid)) [
      | inr ne ↦ rw (repair_bid-other p b gone ne) (bid_kept (bid_elsewhere (ground arith)))
      | inl eq ↦ rw (repair_bid-best p b gone eq) (update_bid-Quoted gone (==→eq _ _ eq))
    ]
  ]
