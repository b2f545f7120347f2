-- ===== src/Server/DashboardHub/Levels.antt =====
-- server/dashboard_hub.h: which levels `publish_book` shows.
use lockfree_matching_engine.Prelude.{
  ℕ, zero, suc, ◌+◌, ◌-◌, ◌<◌, ◌≡◌, refl, ap, ◌∙◌, min, true, false, arith, List, [], ◌∷◌, take,
  ◌==◌, if◌then◌else◌, Bool-cases, inl, inr,
}
use lockfree_matching_engine.Core.Types.{max_price_ticks}
use lockfree_matching_engine.Core.PriceLevel.{PriceLevel, is_empty}
use lockfree_matching_engine.Core.OrderBook.{OrderBook, has_bids, has_asks}
use lockfree_matching_engine.Server.DashboardHub.{
  LevelRow, DashboardHub, book_depth, scan_limit, level_row, collect_down, collect_up, floor_below,
  cap_above, publish_book,
}

-- The rows of all non-empty levels at `n` prices from `p` on, down or up.
abbrev pub rows_down : (ℕ → PriceLevel) → ℕ → ℕ → List LevelRow
rows_down levels zero p = []
rows_down levels (suc n) p =
    let rest = rows_down levels n (p - 1) in
    if is_empty (levels p) then rest else level_row p (levels p) ∷ rest

abbrev pub rows_up : (ℕ → PriceLevel) → ℕ → ℕ → List LevelRow
rows_up levels zero p = []
rows_up levels (suc n) p =
    let rest = rows_up levels n (p + 1) in
    if is_empty (levels p) then rest else level_row p (levels p) ∷ rest

pred : (k : ℕ) → suc k - 1 ≡ k
pred k = omega arith

not_zero : (k : ℕ) → (suc k == 0) ≡ false
not_zero k = ground arith

-- With no room for a row the loops stop; else each takes the next non-empty level.
collect_down_lem :
    (levels : ℕ → PriceLevel) (slots n p : ℕ)
    → collect_down levels slots n p ≡ take slots (rows_down levels n p)
unfolding collect_down
collect_down_lem levels zero zero p = refl
collect_down_lem levels zero (suc n) p = refl
collect_down_lem levels (suc slots) zero p = refl
collect_down_lem levels (suc slots) (suc n) p = elim (Bool-cases (is_empty (levels p))) [
  | inl e ↦ rw (not_zero slots, e) (collect_down_lem levels (suc slots) n (p - 1))
  | inr e ↦
      let rest = collect_down_lem levels slots n (p - 1) in
      rw (not_zero slots, e, pred slots) (ap (◌∷◌ (level_row p (levels p))) rest)
]

collect_up_lem :
    (levels : ℕ → PriceLevel) (slots n p : ℕ)
    → collect_up levels slots n p ≡ take slots (rows_up levels n p)
unfolding collect_up
collect_up_lem levels zero zero p = refl
collect_up_lem levels zero (suc n) p = refl
collect_up_lem levels (suc slots) zero p = refl
collect_up_lem levels (suc slots) (suc n) p = elim (Bool-cases (is_empty (levels p))) [
  | inl e ↦ rw (not_zero slots, e) (collect_up_lem levels (suc slots) n (p + 1))
  | inr e ↦
      let rest = collect_up_lem levels slots n (p + 1) in
      rw (not_zero slots, e, pred slots) (ap (◌∷◌ (level_row p (levels p))) rest)
]

-- What is shown of a book, of which each side has its best price.
pub record ShowsBook (book : OrderBook) (hub : DashboardHub) : Type 0 where
  pub bids : hub.bids ≡ (
      if has_bids book
      then take book_depth (rows_down book.levels (min book.best_bid scan_limit + 1) book.best_bid)
      else [])
  pub asks : hub.asks ≡ (
      if has_asks book
      then take book_depth (
          rows_up book.levels
            (min (max_price_ticks - 1 - book.best_ask) scan_limit + 1)
            book.best_ask)
      else [])
  pub total_bids : hub.total_bids ≡ book.bid_count
  pub total_asks : hub.total_asks ≡ book.ask_count
  pub answered : hub.book_wanted ≡ false

down_rounds : (best : ℕ) → best + 1 - floor_below best ≡ min best scan_limit + 1
down_rounds best = ground arith

up_rounds :
    (best : ℕ)
    → best < max_price_ticks
    → cap_above best + 1 - best ≡ min (max_price_ticks - 1 - best) scan_limit + 1
up_rounds best h = ground arith

-- For a book whose best ask is below 10,000,000: with the lock, `publish_book` leaves the first
-- 15 of the levels that are not empty going down from the best bid and up from the best ask,
-- each as far as 100,000 ticks or the end of the array, no rows for a side without orders, the
-- two counters, and the request answered; without the lock, it changes nothing.
pub publish_book_lem :
    (book : OrderBook) (hub : DashboardHub)
    → book.best_ask < max_price_ticks
    → ShowsBook book (publish_book true book hub) × (publish_book false book hub ≡ hub)
unfolding publish_book
publish_book_lem book hub h = (
  record {
    bids =
        ap (λ rows. if has_bids book then rows else [])
          (collect_down_lem book.levels book_depth (book.best_bid + 1 - floor_below book.best_bid)
              book.best_bid
            ∙ ap (λ n. take book_depth (rows_down book.levels n book.best_bid))
                (down_rounds book.best_bid));
    asks =
        ap (λ rows. if has_asks book then rows else [])
          (collect_up_lem book.levels book_depth (cap_above book.best_ask + 1 - book.best_ask)
              book.best_ask
            ∙ ap (λ n. take book_depth (rows_up book.levels n book.best_ask))
                (up_rounds book.best_ask h));
    total_bids = refl;
    total_asks = refl;
    answered = refl;
  },
  refl,
)
