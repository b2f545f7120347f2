-- ===== src/Feed/FeedHandler/Bounds.antt =====
-- What a row of a frame says is in range: a price that the book has a level for, and a quantity that
-- Fits its word.
use Prim.Native.String.{String}
use lockfree_matching_engine.Prelude.{
  ◌<◌, ◌^◌, Bool, true, false, ◌||◌, Option, none, some, List, [], ◌∷◌, arith, Bool-cases, inl, inr,
  pos, negsuc, leb, Option-cases,
}
use lockfree_matching_engine.Core.Types.{Side, Price, Quantity, max_price_ticks}
use lockfree_matching_engine.Transport.Intake.{HasLevel}
use lockfree_matching_engine.Feed.FeedHandler.{
  Dom, Row, bad, out_of_book, level, to_row, price_size_row, change_row, price_size_rows,
  change_rows, strings_of, parse_side,
}
use lockfree_matching_engine.Feed.FeedHandler.Decimals.{
  Doubles, to_ticks, to_lots, in_book, lots, parse_double, dollars_to_ticks,
}

abbrev pub SoundRow : Row → Type 0
SoundRow bad = Unit {0}
SoundRow out_of_book = Unit {0}
SoundRow (level side price qty) = HasLevel price × (qty < 2 ^ 32)

abbrev pub SoundRows : List Row → Type 0
SoundRows [] = Unit {0}
SoundRows (row ∷ rows) = SoundRow row × SoundRows rows

module _ (dom : Dom) (doubles : Doubles) where
  abbrev InRange : Option Price × Bool → Type 0
  InRange (none, oob) = Unit {0}
  InRange (some p, oob) = HasLevel p

  in_book-InRange : (p : Price) → InRange (in_book doubles p)
  in_book-InRange (pos t) = elim (Bool-cases (leb t 0 || leb max_price_ticks t)) [
    | inl e ↦ rw e tt
    | inr e ↦ rw e (ground arith, ground arith)
  ]
  in_book-InRange (negsuc t) = tt

  to_ticks-InRange : (s : String) → InRange (to_ticks doubles s)
  unfolding to_ticks
  to_ticks-InRange s = elim (Option-cases (parse_double doubles s)) [
    | inl e ↦ rw (e, to_ticks) tt
    | inr (x, e) ↦ rw (e, to_ticks) (in_book-InRange (dollars_to_ticks doubles x))
  ]

  lots_bound : (x : doubles.Double) → lots doubles x < 2 ^ 32
  lots_bound x = ground arith

  abbrev Fits : Option Quantity → Type 0
  Fits none = Unit {0}
  Fits (some qty) = qty < 2 ^ 32

  to_lots-Fits : (s : String) → Fits (to_lots doubles s)
  unfolding to_lots
  to_lots-Fits s = elim (Option-cases (parse_double doubles s)) [
    | inl e ↦ rw (e, to_lots) tt
    | inr (x, e) ↦ rw (e, to_lots) (lots_bound x)
  ]

  to_row-SoundRow :
      (side : Side) (price : Option Price × Bool) (size : Option Quantity)
      → InRange price
      → Fits size
      → SoundRow (to_row side price size)
  to_row-SoundRow side (none, true) size h k = tt
  to_row-SoundRow side (none, false) size h k = tt
  to_row-SoundRow side (some p, oob) none h k = tt
  to_row-SoundRow side (some p, oob) (some qty) h k = (h, k)

  price_size_row-SoundRow :
      (side : Side) (strings : Option (List String))
      → SoundRow (price_size_row dom doubles side strings)
  unfolding price_size_row
  price_size_row-SoundRow side none = tt
  price_size_row-SoundRow side (some []) = tt
  price_size_row-SoundRow side (some (p ∷ [])) = tt
  price_size_row-SoundRow side (some (p ∷ s ∷ more)) =
      to_row-SoundRow side (to_ticks doubles p) (to_lots doubles s) (to_ticks-InRange p)
        (to_lots-Fits s)

  change_row-SoundRow : (strings : Option (List String)) → SoundRow (change_row dom doubles strings)
  unfolding change_row
  change_row-SoundRow none = tt
  change_row-SoundRow (some []) = tt
  change_row-SoundRow (some (a ∷ [])) = tt
  change_row-SoundRow (some (a ∷ b ∷ [])) = tt
  change_row-SoundRow (some (a ∷ b ∷ c ∷ more)) = elim (Option-cases (parse_side a)) [
    | inl e ↦ rw (e, change_row) tt
    | inr (side, e) ↦ rw (e, change_row) (price_size_row-SoundRow side (some (b ∷ c ∷ more)))
  ]

  pub change_rows-SoundRows : (els : List dom.Element) → SoundRows (change_rows dom doubles els)
  unfolding change_rows
  change_rows-SoundRows [] = tt
  change_rows-SoundRows (el ∷ els) =
      (change_row-SoundRow (strings_of dom doubles el), change_rows-SoundRows els)

  pub price_size_rows-SoundRows :
      (side : Side) (els : List dom.Element) → SoundRows (price_size_rows dom doubles side els)
  unfolding price_size_rows
  price_size_rows-SoundRows side [] = tt
  price_size_rows-SoundRows side (el ∷ els) =
      (price_size_row-SoundRow side (strings_of dom doubles el), price_size_rows-SoundRows side els)
