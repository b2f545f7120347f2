-- ===== src/Feed/FeedHandler/Decimals.antt =====
-- feed/feed_handler.cpp and core/types.h: prices and sizes from decimal text. The type `double` and
-- its operations are a parameter, with no law assumed.
use Prim.Native.String.{String}
use text.Mathlib.Text
use lockfree_matching_engine.Prelude.{
  ℕ, ◌-◌, ◌%◌, ◌^◌, Bool, true, false, ◌||◌, Option, none, some, leb, if◌then◌else◌, ℤ, pos_part,
}
use lockfree_matching_engine.Core.Types.{Price, Quantity, max_price_ticks}

-- `from_chars` gives the number and the characters that it leaves, or `none` for an error code.
pub record Doubles : Type 1 where
  pub Double : Type 0
  pub from_chars : String → Option (Double × String)
  pub zero_coins : Double
  pub lots_per_coin : Double
  pub quantity_max : Double
  pub dollars_per_tick : Double
  pub times : Double → Double → Double
  pub over : Double → Double → Double
  pub at_most : Double → Double → Bool
  pub round : Double → Double
  pub to_int64 : Double → ℤ
  pub llround : Double → ℤ

abbrev pub is_empty_text : String → Bool
is_empty_text s = Text.◌==◌ s ""

abbrev pub max_quantity : ℕ
max_quantity = 2 ^ 32 - 1

module _ (doubles : Doubles) where
  open doubles use {
    Double, from_chars, zero_coins, lots_per_coin, quantity_max, dollars_per_tick, times, over,
    at_most, round, to_int64, llround,
  }

  unfoldable pub dollars_to_ticks : Double → Price
  dollars_to_ticks dollars = to_int64 (round (over dollars dollars_per_tick))

  -- The whole text has to be read.
  unfoldable pub parse_double : String → Option Double
  parse_double s = if is_empty_text s then none else elim (from_chars s) [
    | none ↦ none
    | some (out, left) ↦ if is_empty_text left then some out else none
  ]

  abbrev pub in_book : Price → Option Price × Bool
  in_book p =
      if leb (pos_part p) 0 || leb max_price_ticks (pos_part p)
      then (none, true)
      else (some p, false)

  -- The price, and whether it is out of range.
  unfoldable pub to_ticks : String → Option Price × Bool
  unfolding parse_double dollars_to_ticks
  to_ticks s = elim (parse_double s) [
    | none ↦ (none, false)
    | some dollars ↦ in_book (dollars_to_ticks dollars)
  ]

  -- `static_cast<Quantity>`, of a number that is not negative.
  abbrev pub lots_of : ℤ → Quantity
  lots_of rounded = pos_part rounded % 2 ^ 32

  abbrev pub lots : Double → Quantity
  lots coins =
      if at_most coins zero_coins
      then 0
      else (let scaled = times coins lots_per_coin in
          if at_most quantity_max scaled then max_quantity else lots_of (llround scaled))

  unfoldable pub to_lots : String → Option Quantity
  unfolding parse_double
  to_lots s = elim (parse_double s) [ none ↦ none | some coins ↦ some (lots coins) ]
