-- ===== src/Feed/FeedHandler/Live.antt =====
-- feed/feed_handler.cpp: the map `live`, as a list with one entry for each key in it.
use lockfree_matching_engine.Prelude.{
  ◌≡◌, refl, ap, Bool, true, false, ◌&&◌, Option, none, some, List, [], ◌∷◌, ◌==◌, ==→eq, ==_refl,
  if◌then◌else◌, Bool-cases, inl, inr, pos, negsuc, arith,
}
use lockfree_matching_engine.Core.Types.{OrderId, Side, bid, ask, Price}

pub record LevelKey : Type 0 where
  pub price : Price
  pub side : Side

pub record Level : Type 0 where
  pub key : LevelKey
  pub id : OrderId

abbrev pub LiveLevels : Type 0
LiveLevels = List Level

pub same_price : Price → Price → Bool
same_price (pos a) (pos b) = a == b
same_price (negsuc a) (negsuc b) = a == b
same_price (pos a) (negsuc b) = false
same_price (negsuc a) (pos b) = false

pub same_side : Side → Side → Bool
same_side bid bid = true
same_side ask ask = true
same_side bid ask = false
same_side ask bid = false

-- `operator==`
unfoldable pub same_key : LevelKey → LevelKey → Bool
unfolding same_price same_side
same_key a b = same_price a.price b.price && same_side a.side b.side

unfoldable pub find_level : LevelKey → LiveLevels → Option OrderId
unfolding same_key
find_level key [] = none
find_level key (l ∷ ls) = if same_key l.key key then some l.id else find_level key ls

unfoldable pub erase_level : LevelKey → LiveLevels → LiveLevels
unfolding same_key
erase_level key [] = []
erase_level key (l ∷ ls) =
    let rest = erase_level key ls in if same_key l.key key then rest else l ∷ rest

pub same_price→eq : (a b : Price) → same_price a b ≡ true → a ≡ b
unfolding same_price
same_price→eq (pos a) (pos b) h = ap pos (==→eq a b h)
same_price→eq (negsuc a) (negsuc b) h = ap negsuc (==→eq a b h)
same_price→eq (pos a) (negsuc b) h = cc
same_price→eq (negsuc a) (pos b) h = cc

pub same_side→eq : (a b : Side) → same_side a b ≡ true → a ≡ b
unfolding same_side
same_side→eq bid bid h = refl
same_side→eq ask ask h = refl
same_side→eq bid ask h = cc
same_side→eq ask bid h = cc

pub same_key→eq : (a b : LevelKey) → same_key a b ≡ true → a ≡ b
unfolding same_key
same_key→eq a b h =
    let p : a.price ≡ b.price = same_price→eq a.price b.price (ground arith) in
    let s : a.side ≡ b.side = same_side→eq a.side b.side (ground arith) in cc

pub same_key_refl : (k : LevelKey) → same_key k k ≡ true
unfolding same_key same_price same_side
same_key_refl k = ground (arith, same_price_refl k.price, same_side_refl k.side)
  where
    same_price_refl : (p : Price) → same_price p p ≡ true
    same_price_refl (pos a) = ==_refl a
    same_price_refl (negsuc a) = ==_refl a

    same_side_refl : (s : Side) → same_side s s ≡ true
    same_side_refl bid = refl
    same_side_refl ask = refl

pub find_level-erase_level_self :
    (key : LevelKey) (ls : LiveLevels) → find_level key (erase_level key ls) ≡ none
unfolding find_level erase_level
find_level-erase_level_self key [] = refl
find_level-erase_level_self key (l ∷ ls) = ground (arith, find_level-erase_level_self key ls)

pub find_level-erase_level_ne :
    (key k : LevelKey) (ls : LiveLevels)
    → same_key key k ≡ false
    → find_level k (erase_level key ls) ≡ find_level k ls
unfolding find_level erase_level
find_level-erase_level_ne key k [] h = refl
find_level-erase_level_ne key k (l ∷ ls) h =
    let rest = find_level-erase_level_ne key k ls h in
    elim (Bool-cases (same_key l.key key)) [
      | inl e ↦
          let other : same_key l.key k ≡ false = rw (same_key→eq l.key key e) h in
          rw (e, other) rest
      | inr e ↦ rw (e, rest)
    ]

pub find_level-erase_level_none :
    (key k : LevelKey) (ls : LiveLevels)
    → find_level k ls ≡ none
    → find_level k (erase_level key ls) ≡ none
unfolding find_level erase_level
find_level-erase_level_none key k [] h = refl
find_level-erase_level_none key k (l ∷ ls) h = ground (arith, find_level-erase_level_none key k ls)

pub erase_level_absent :
    (key : LevelKey) (ls : LiveLevels) → find_level key ls ≡ none → erase_level key ls ≡ ls
unfolding find_level erase_level
erase_level_absent key [] h = refl
erase_level_absent key (l ∷ ls) h = ground (arith, erase_level_absent key ls)

-- No key stands in the list twice.
abbrev pub Single : LiveLevels → Type 0
Single [] = Unit {0}
Single (l ∷ ls) = (find_level l.key ls ≡ none) × Single ls

pub Single-erase_level :
    (key : LevelKey) (ls : LiveLevels) → Single ls → Single (erase_level key ls)
unfolding erase_level
Single-erase_level key [] h = tt
Single-erase_level key (l ∷ ls) h = elim (Bool-cases (same_key l.key key)) [
  | inl e ↦ rw e (Single-erase_level key ls h.1)
  | inr e ↦ rw e (find_level-erase_level_none key l.key ls h.0, Single-erase_level key ls h.1)
]
