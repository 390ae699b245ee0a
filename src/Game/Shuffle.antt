-- ===== src/Game/Shuffle.antt =====
-- What the shuffle and the layout promise: each card once.
use paxos_arena.Prelude.{
  Text, ℕ, zero, suc, ◌+◌, ◌-◌, ◌*◌, ◌%◌, ◌<◌, ◌≤◌, ◌≡◌, refl, sym, ap, ◌∙◌, List, [], ◌∷◌, length,
  leb, ltb, if◌then◌else◌, arith,
}
use paxos_arena.Game.{Card, deck_size, column_depth, column_count, tableau_size, stock_size}
use paxos_arena.Game.Deck.{
  Draws, draw_at, take_draw, limit_of, swap, shuffle_from, cards_from, shuffle, take_cards,
  drop_cards, deal_columns, layout, deal,
}
use paxos_arena.Game.Rules.{cards_left}
use paxos_arena.Game.Cards.{occurs, occurs_in, on_board, occurs-swap, occurs-take, length-set_card}

length-swap : (i j : ℕ) (xs : List Card) → length (swap i j xs) ≡ length xs
unfolding swap
length-swap i j xs = length-set_card j _ _ ∙ length-set_card i _ xs

occurs-shuffle_from :
    (c i : ℕ) {digest : Text → Text} {seed : Text} (d : Draws digest seed) (k : ℕ)
    (deck : List Card)
    → i < length deck
    → occurs c (shuffle_from i d k deck) ≡ occurs c deck
unfolding shuffle_from
occurs-shuffle_from c zero d k deck h = refl
occurs-shuffle_from c (suc i) {digest} {seed} d k deck h =
    let (x, k') = take_draw (d.wait k) (draw_at digest seed) (limit_of (i + 2)) k in
    let j = x % (i + 2) in
    occurs-shuffle_from c i d k' (swap (suc i) j deck) (omega (arith, length-swap (suc i) j deck))
    ∙ occurs-swap c (suc i) j deck h (omega arith)

length-shuffle_from :
    (i : ℕ) {digest : Text → Text} {seed : Text} (d : Draws digest seed) (k : ℕ) (deck : List Card)
    → length (shuffle_from i d k deck) ≡ length deck
unfolding shuffle_from
length-shuffle_from zero d k deck = refl
length-shuffle_from (suc i) {digest} {seed} d k deck =
    let (x, k') = take_draw (d.wait k) (draw_at digest seed) (limit_of (i + 2)) k in
    length-shuffle_from i d k' _ ∙ length-swap (suc i) (x % (i + 2)) deck

occurs-cards_from :
    (c n a : ℕ)
    → occurs c (cards_from n a) ≡ (if leb a c then (if ltb c (a + n) then 1 else 0) else 0)
unfolding occurs cards_from
occurs-cards_from c zero a = ground arith
occurs-cards_from c (suc n) a = ground (arith, occurs-cards_from c n (suc a))

length-cards_from : (n a : ℕ) → length (cards_from n a) ≡ n
unfolding cards_from
length-cards_from zero a = refl
length-cards_from (suc n) a = omega (arith, length-cards_from n (suc a))

pub length-shuffle :
    {digest : Text → Text} {seed : Text} (d : Draws digest seed) → length (shuffle d) ≡ deck_size
unfolding shuffle
length-shuffle d =
    length-shuffle_from (deck_size - 1) d 0 (cards_from deck_size 0) ∙ length-cards_from deck_size 0

occurs-deck : (c : ℕ) → occurs c (cards_from deck_size 0) ≡ (if ltb c deck_size then 1 else 0)
occurs-deck c = ground (arith, occurs-cards_from c deck_size 0)

-- A shuffled deck has each card of 0 to 51 once.
pub occurs-shuffle :
    {digest : Text → Text} {seed : Text} (d : Draws digest seed) (c : Card)
    → occurs c (shuffle d) ≡ (if ltb c deck_size then 1 else 0)
unfolding shuffle
occurs-shuffle d c =
    occurs-shuffle_from c (deck_size - 1) d 0 (cards_from deck_size 0)
      (omega (arith, length-cards_from deck_size 0))
    ∙ occurs-deck c

length-drop_cards : (n : ℕ) (xs : List Card) → length (drop_cards n xs) ≡ length xs - n
unfolding drop_cards
length-drop_cards zero xs = omega arith
length-drop_cards (suc n) [] = omega arith
length-drop_cards (suc n) (x ∷ xs) = omega (arith, length-drop_cards n xs)

length-take_cards : (n : ℕ) (xs : List Card) → n ≤ length xs → length (take_cards n xs) ≡ n
unfolding take_cards
length-take_cards zero xs h = refl
length-take_cards (suc n) [] h = absurd (omega arith)
length-take_cards (suc n) (x ∷ xs) h = omega (arith, length-take_cards n xs (omega arith))

drop-none : (n : ℕ) → drop_cards n [] ≡ []
unfolding drop_cards
drop-none zero = refl
drop-none (suc n) = refl

drop-drop : (m n : ℕ) (xs : List Card) → drop_cards n (drop_cards m xs) ≡ drop_cards (n + m) xs
unfolding drop_cards
drop-drop zero n xs = ap (λ k. drop_cards k xs) (omega arith)
drop-drop (suc m) n [] = drop-none n ∙ sym (drop-none (n + suc m))
drop-drop (suc m) n (x ∷ xs) =
    let e : suc (n + m) ≡ n + suc m = omega arith in
    drop-drop m n xs ∙ ap (λ k. drop_cards k (x ∷ xs)) e

occurs-deal_columns :
    (c n : ℕ) (xs : List Card)
    → occurs_in c (deal_columns n xs) + occurs c (drop_cards (n * column_depth) xs) ≡ occurs c xs
unfolding deal_columns occurs_in drop_cards
occurs-deal_columns c zero xs = omega arith
occurs-deal_columns c (suc n) xs =
    let rest = drop_cards column_depth xs in
    let e : n * column_depth + column_depth ≡ suc n * column_depth = omega arith in
    let joined : drop_cards (n * column_depth) rest ≡ drop_cards (suc n * column_depth) xs =
      drop-drop column_depth (n * column_depth) xs ∙ ap (λ k. drop_cards k xs) e in
    rw (← joined) (omega (arith, occurs-deal_columns c n rest, occurs-take c column_depth xs))

cards_left-deal_columns :
    (n : ℕ) (xs : List Card)
    → n * column_depth ≤ length xs
    → cards_left (deal_columns n xs) ≡ n * column_depth
unfolding deal_columns cards_left
cards_left-deal_columns zero xs h = omega arith
cards_left-deal_columns (suc n) xs h =
    let rest = drop_cards column_depth xs in
    omega (
      arith,
      cards_left-deal_columns n rest (omega (arith, length-drop_cards column_depth xs)),
      length-take_cards column_depth xs (omega arith),
    )

on_board-layout : (c : Card) (deck : List Card) → on_board c (layout deck) ≡ occurs c deck
unfolding layout on_board
on_board-layout c deck =
    let rest = drop_cards tableau_size deck in
    omega (arith, occurs-deal_columns c column_count deck, occurs-take c 1 rest)

-- A dealt board has each card of 0 to 51 once and no other.
pub on_board-deal :
    {digest : Text → Text} {seed : Text} (d : Draws digest seed) (c : Card)
    → on_board c (deal d) ≡ (if ltb c deck_size then 1 else 0)
unfolding deal
on_board-deal d c = on_board-layout c (shuffle d) ∙ occurs-shuffle d c

cards_left-layout :
    (deck : List Card)
    → length deck ≡ deck_size
    → (cards_left (layout deck).columns ≡ tableau_size) × (length (layout deck).stock ≡ stock_size)
unfolding layout
cards_left-layout deck h =
    let rest = drop_cards tableau_size deck in
    (
      cards_left-deal_columns column_count deck (omega arith),
      omega (arith, length-drop_cards 1 rest, length-drop_cards tableau_size deck),
    )

length-deal_columns : (n : ℕ) (xs : List Card) → length (deal_columns n xs) ≡ n
unfolding deal_columns
length-deal_columns zero xs = refl
length-deal_columns (suc n) xs = omega (arith, length-deal_columns n (drop_cards column_depth xs))

length-columns-layout : (deck : List Card) → length (layout deck).columns ≡ column_count
unfolding layout
length-columns-layout deck = length-deal_columns column_count deck

-- A dealt board has 35 cards in seven columns and 16 in its stock.
pub deal_size :
    {digest : Text → Text} {seed : Text} (d : Draws digest seed)
    → (cards_left (deal d).columns ≡ tableau_size)
      × (length (deal d).stock ≡ stock_size)
      × (length (deal d).columns ≡ column_count)
unfolding deal
deal_size d =
    let (left, stock) = cards_left-layout (shuffle d) (length-shuffle d) in
    (left, stock, length-columns-layout (shuffle d))
