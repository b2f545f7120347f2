-- ===== src/Core/OrderBook/RepairAsk.antt =====
-- The repair of the best ask in core/order_book.cpp, which scans upwards.
use lockfree_matching_engine.Prelude.{
  ℕ, suc, ◌+◌, ◌-◌, ◌≤◌, ◌<◌, ◌≡◌, refl, sym, ap, subst, ◌∙◌, true, false, Option, none, some,
  arith, inl, inr, Bool-cases, ◌==◌, ==→eq, sum_upto, OneMore, sum_upto-zero, le-sum_upto,
  sum_upto-OneMore,
}
use lockfree_matching_engine.Core.Types.{ask, max_price_ticks}
use lockfree_matching_engine.Core.PriceLevel.{is_empty}
use lockfree_matching_engine.Core.OrderBook.{
  OrderBook, repair_best, scan_up, update_best_ask_after_remove,
}
use lockfree_matching_engine.Core.OrderBook.Scan.{ScanUp, scan_up_lem}
use lockfree_matching_engine.Core.OrderBook.Quotes.{
  Quoted, Ranged, bids_counted, asks_counted, positive_of_OneMore,
}

module _ (p : ℕ) (b : OrderBook) where
  update_best_ask-none :
      (b.ask_count == 0) ≡ true
      → update_best_ask_after_remove p b ≡ record b { best_ask = max_price_ticks - 1 }
  unfolding update_best_ask_after_remove
  update_best_ask-none e = rw (e, update_best_ask_after_remove)

  update_best_ask-scan :
      (b.ask_count == 0) ≡ false
      → update_best_ask_after_remove p b
        ≡ elim (scan_up b.levels (max_price_ticks - (p + 1)) (p + 1)) [
          | some m ↦ record b { best_ask = m }
          | none ↦ b
        ]
  unfolding update_best_ask_after_remove
  update_best_ask-scan e = rw (e, update_best_ask_after_remove)

  repair_ask-full : is_empty (b.levels p) ≡ false → repair_best ask p b ≡ b
  unfolding repair_best
  repair_ask-full e = rw (e, repair_best)

  repair_ask-other :
      is_empty (b.levels p) ≡ true → (p == b.best_ask) ≡ false → repair_best ask p b ≡ b
  unfolding repair_best
  repair_ask-other e f = rw (e, f, repair_best)

  repair_ask-best :
      is_empty (b.levels p) ≡ true
      → (p == b.best_ask) ≡ true
      → repair_best ask p b ≡ update_best_ask_after_remove p b
  unfolding repair_best
  repair_ask-best e f = rw (e, f, repair_best)

-- `b` is the book `c` with one ask less at `p`, before the repair.
pub record AskGone (c b : OrderBook) (bids asks asks' : ℕ → ℕ) (p : ℕ) : Type 0 where
  pub before : Quoted c bids asks
  pub one : OneMore asks' asks p
  pub in_range : p < max_price_ticks
  pub ranged : Ranged b.levels bids asks'
  pub ask_count : suc b.ask_count ≡ c.ask_count
  pub bid_count : b.bid_count ≡ c.bid_count
  pub best_bid : b.best_bid ≡ c.best_bid
  pub best_ask : b.best_ask ≡ c.best_ask

module _ {c b : OrderBook} {bids asks asks' : ℕ → ℕ} {p : ℕ}
    (g : AskGone c b bids asks asks' p) where
  fewer : (x : ℕ) → 0 < asks' x → 0 < asks x
  fewer x h = positive_of_OneMore asks' asks p x g.one h

  had_ask : 0 < asks p
  had_ask = omega (arith, g.one.here)

  sum_left : b.ask_count ≡ sum_upto asks' max_price_ticks
  sum_left = omega (
    arith,
    g.ask_count,
    g.before.ask_count,
    sum_upto-OneMore asks' asks p max_price_ticks g.one g.in_range,
  )

  -- No bid rests at or above the old best ask.
  no_bid : (x : ℕ) → b.best_ask ≤ x → bids x ≡ 0
  no_bid x h = elim (Bool-cases (bids x == 0)) [
    | inl e ↦ ground arith
    | inr e ↦
        let pos' : 0 < bids x = ground arith in
        absurd (
          omega (
            arith,
            g.before.bid_bound x pos',
            g.best_ask,
            g.before.uncrossed (bids_counted g.before x (g.ranged.bids_in x pos') pos')
                (asks_counted g.before p g.in_range had_ask),
          ))
  ]

  Quoted_of_best :
      (m : ℕ)
      → b.best_ask ≤ m
      → m < max_price_ticks
      → ((x : ℕ) → 0 < asks' x → m ≤ x)
      → (0 < b.ask_count → 0 < asks' m)
      → (b.ask_count ≡ 0 → m ≡ max_price_ticks - 1)
      → Quoted (record b { best_ask = m }) bids asks'
  Quoted_of_best m le range bound held sentinel = record {
    bid_count = g.bid_count ∙ g.before.bid_count;
    ask_count = sum_left;
    bid_bound = λ x k. omega (arith, g.best_bid, g.before.bid_bound x k);
    ask_bound = bound;
    bid_held = λ k. rw g.best_bid (g.before.bid_held (omega (arith, g.bid_count)));
    ask_held = held;
    uncrossed = λ k n. omega (
      arith,
      g.best_ask,
      g.best_bid,
      g.before.uncrossed (omega (arith, g.bid_count)) (omega (arith, g.ask_count)),
    );
    bid_sentinel = λ e. g.best_bid ∙ g.before.bid_sentinel (omega (arith, g.bid_count));
    ask_sentinel = sentinel;
    bid_range = omega (arith, g.best_bid, g.before.bid_range);
    ask_range = range;
  }

  range_before : b.best_ask < max_price_ticks
  range_before = omega (arith, g.best_ask, g.before.ask_range)

  bound_before : (x : ℕ) → 0 < asks' x → b.best_ask ≤ x
  bound_before x h = omega (arith, g.best_ask, g.before.ask_bound x (fewer x h))

  no_asks_left : b.ask_count ≡ 0 → (x : ℕ) → 0 < asks' x → ⊥
  no_asks_left e x h =
      omega (arith, sum_left, le-sum_upto asks' max_price_ticks x (g.ranged.asks_in x h))

  -- Nothing to repair: the best price still has an ask.
  ask_kept : 0 < asks' b.best_ask → Quoted b bids asks'
  ask_kept h =
      Quoted_of_best b.best_ask (omega arith) range_before bound_before (λ _. h)
        (λ e. absurd (no_asks_left e b.best_ask h))

  -- The level of the best ask is empty, and an ask is left: the scan finds the next one.
  ask_found :
      asks' b.best_ask ≡ 0
      → 0 < b.ask_count
      → (k : ℕ) → b.best_ask + 1 + k ≡ max_price_ticks
      → (r : Option ℕ) → ScanUp b.levels k (b.best_ask + 1) r
      → Quoted (elim r [ some m ↦ record b { best_ask = m } | none ↦ b ]) bids asks'
  ask_found gone left k all none h =
      absurd (omega (arith, sum_left, sum_upto-zero asks' max_price_ticks (λ x _. no_ask x)))
    where
      no_ask : (x : ℕ) → asks' x ≡ 0
      no_ask x = elim (Bool-cases (asks' x == 0)) [
        | inl e ↦ ground arith
        | inr e ↦ absurd (found (ground arith))
      ]
        where
          found : 0 < asks' x → ⊥
          found n = elim (Bool-cases (x == b.best_ask)) [
            | inl e ↦ at (ground arith)
            | inr e ↦ ground (arith, g.ranged.empty x, h x, bound_before x n, g.ranged.asks_in x n)
          ]
            where
              at : x ≡ b.best_ask → ⊥
              at e = omega (arith, gone, ap asks' e)
  ask_found gone left k all (some m) h =
      Quoted_of_best m (omega (arith, h.0)) (omega (arith, h.1)) bound (λ _. here)
        (λ e. absurd (omega arith))
    where
      here : 0 < asks' m
      here = ground (arith, g.ranged.empty m, no_bid m, h.0, h.2)

      bound : (x : ℕ) → 0 < asks' x → m ≤ x
      bound x n = elim (Bool-cases (x == b.best_ask)) [
        | inl e ↦ at (ground arith)
        | inr e ↦ ground (arith, g.ranged.empty x, h.3 x, bound_before x n)
      ]
        where
          at : x ≡ b.best_ask → m ≤ x
          at e = absurd (omega (arith, gone, ap asks' e))

  ask_elsewhere : (b.best_ask == p) ≡ false → 0 < asks' b.best_ask
  ask_elsewhere e = omega (
    arith,
    g.one.elsewhere b.best_ask e,
    subst (λ x. 0 < asks x) (sym g.best_ask) (g.before.ask_held (omega (arith, g.ask_count))),
  )

  ask_at_best : is_empty (b.levels p) ≡ false → (b.best_ask == p) ≡ true → 0 < asks' b.best_ask
  ask_at_best h e =
      subst (λ x. 0 < asks' x) (sym (==→eq _ _ e))
        (ground (arith, g.ranged.empty p, no_bid p (ground arith)))

  ask_kept_full : is_empty (b.levels p) ≡ false → Quoted b bids asks'
  ask_kept_full h = elim (Bool-cases (b.best_ask == p)) [
    | inl e ↦ ask_kept (ask_at_best h e)
    | inr e ↦ ask_kept (ask_elsewhere e)
  ]

  gone_at_best : is_empty (b.levels p) ≡ true → p ≡ b.best_ask → asks' b.best_ask ≡ 0
  gone_at_best h e = rw (← e) (ground (arith, g.ranged.empty p))

  update_ask-Quoted :
      is_empty (b.levels p) ≡ true
      → p ≡ b.best_ask
      → Quoted (update_best_ask_after_remove p b) bids asks'
  update_ask-Quoted h e = elim (Bool-cases (b.ask_count == 0)) [
    | inl z ↦
        let none_left = no_asks_left (ground arith) in
        rw (update_best_ask-none p b z) (
          Quoted_of_best (max_price_ticks - 1) (omega (arith, range_before)) (omega arith)
            (λ x k. absurd (none_left x k)) (λ k. absurd (omega (arith, ==→eq _ _ z))) (λ _. refl))
    | inr n ↦
        rw (update_best_ask-scan p b n, e)
          (ask_found (gone_at_best h e) (ground arith) (max_price_ticks - (b.best_ask + 1))
            (omega (arith, range_before))
            (scan_up b.levels (max_price_ticks - (b.best_ask + 1)) (b.best_ask + 1))
            (scan_up_lem b.levels (max_price_ticks - (b.best_ask + 1)) (b.best_ask + 1)))
  ]

  -- The repair after an ask has gone leaves true counters and best prices.
  pub repair_best-ask : Quoted (repair_best ask p b) bids asks'
  repair_best-ask = elim (Bool-cases (is_empty (b.levels p))) [
    | inr full ↦ rw (repair_ask-full p b full) (ask_kept_full full)
    | inl gone ↦ elim (Bool-cases (p == b.best_ask)) [
      | inr ne ↦ rw (repair_ask-other p b gone ne) (ask_kept (ask_elsewhere (ground arith)))
      | inl eq ↦ rw (repair_ask-best p b gone eq) (update_ask-Quoted gone (==→eq _ _ eq))
    ]
  ]
