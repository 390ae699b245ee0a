-- ===== src/Game/Cards.antt =====
-- How often a card stands in a list, in the columns and on a board.
use paxos_arena.Prelude.{
  ℕ, zero, suc, ◌+◌, ◌<◌, ◌≡◌, refl, some, List, [], ◌∷◌, ◌++◌, length, if◌then◌else◌, ◌==◌, arith,
}
use paxos_arena.Game.{Card, Board}
use paxos_arena.Game.Deck.{card_at, set_card, swap, take_cards, drop_cards}
use paxos_arena.Game.Rules.{last_card, drop_last, column_at, set_column, cards_left}

abbrev pub one_if : Card → Card → ℕ
one_if c d = if d == c then 1 else 0

unfoldable pub occurs : Card → List Card → ℕ
occurs c [] = 0
occurs c (d ∷ ds) = one_if c d + occurs c ds

unfoldable pub occurs_in : Card → List (List Card) → ℕ
unfolding occurs
occurs_in c [] = 0
occurs_in c (col ∷ cols) = occurs c col + occurs_in c cols

unfoldable pub on_board : Card → Board → ℕ
unfolding occurs_in
on_board c b = occurs_in c b.columns + occurs c b.waste + occurs c b.stock

pub occurs-append : (c : Card) (xs ys : List Card) → occurs c (xs ++ ys) ≡ occurs c xs + occurs c ys
unfolding occurs
occurs-append c [] ys = omega arith
occurs-append c (x ∷ xs) ys = omega (arith, occurs-append c xs ys)

pub occurs-take :
    (c : Card) (n : ℕ) (xs : List Card)
    → occurs c (take_cards n xs) + occurs c (drop_cards n xs) ≡ occurs c xs
unfolding occurs take_cards drop_cards
occurs-take c zero xs = omega arith
occurs-take c (suc n) [] = refl
occurs-take c (suc n) (x ∷ xs) = omega (arith, occurs-take c n xs)

pub occurs-last :
    (c d : Card) (xs : List Card)
    → last_card xs ≡ some d
    → occurs c (drop_last xs) + one_if c d ≡ occurs c xs
unfolding occurs last_card drop_last
occurs-last c d [] h = cc
occurs-last c d (x ∷ []) h = ground arith
occurs-last c d (x ∷ y ∷ xs) h = omega (arith, occurs-last c d (y ∷ xs) h)

pub length-drop_last :
    (d : Card) (xs : List Card) → last_card xs ≡ some d → suc (length (drop_last xs)) ≡ length xs
unfolding last_card drop_last
length-drop_last d [] h = cc
length-drop_last d (x ∷ []) h = refl
length-drop_last d (x ∷ y ∷ xs) h = omega (arith, length-drop_last d (y ∷ xs) h)

-- A column that has a last card is one of the columns, so that replacing it counts.
pub occurs_in-set_column :
    (c d : Card) (i : ℕ) (new : List Card) (cols : List (List Card))
    → last_card (column_at i cols) ≡ some d
    → occurs_in c (set_column i new cols) + occurs c (column_at i cols)
      ≡ occurs_in c cols + occurs c new
unfolding occurs_in column_at set_column last_card
occurs_in-set_column c d i new [] h = cc
occurs_in-set_column c d zero new (col ∷ cols) h = omega arith
occurs_in-set_column c d (suc i) new (col ∷ cols) h =
    omega (arith, occurs_in-set_column c d i new cols h)

pub cards_left-set_column :
    (d : Card) (i : ℕ) (new : List Card) (cols : List (List Card))
    → last_card (column_at i cols) ≡ some d
    → cards_left (set_column i new cols) + length (column_at i cols) ≡ cards_left cols + length new
unfolding cards_left column_at set_column last_card
cards_left-set_column d i new [] h = cc
cards_left-set_column d zero new (col ∷ cols) h = omega arith
cards_left-set_column d (suc i) new (col ∷ cols) h =
    omega (arith, cards_left-set_column d i new cols h)

pub length-set_column :
    (i : ℕ) (new : List Card) (cols : List (List Card))
    → length (set_column i new cols) ≡ length cols
unfolding set_column
length-set_column i new [] = refl
length-set_column zero new (col ∷ cols) = refl
length-set_column (suc i) new (col ∷ cols) = omega (arith, length-set_column i new cols)

pub length-set_card : (i : ℕ) (d : Card) (xs : List Card) → length (set_card i d xs) ≡ length xs
unfolding set_card
length-set_card i d [] = refl
length-set_card zero d (x ∷ xs) = refl
length-set_card (suc i) d (x ∷ xs) = omega (arith, length-set_card i d xs)

occurs-set_card :
    (c d : Card) (i : ℕ) (xs : List Card)
    → i < length xs
    → occurs c (set_card i d xs) + one_if c (card_at i xs) ≡ occurs c xs + one_if c d
unfolding occurs set_card card_at
occurs-set_card c d i [] h = absurd (omega arith)
occurs-set_card c d zero (x ∷ xs) h = omega arith
occurs-set_card c d (suc i) (x ∷ xs) h = omega (arith, occurs-set_card c d i xs (omega arith))

card_at-set_card :
    (i j : ℕ) (d : Card) (xs : List Card)
    → i < length xs
    → card_at j (set_card i d xs) ≡ (if i == j then d else card_at j xs)
unfolding set_card card_at
card_at-set_card i j d [] h = absurd (omega arith)
card_at-set_card zero zero d (x ∷ xs) h = refl
card_at-set_card zero (suc j) d (x ∷ xs) h = ground arith
card_at-set_card (suc i) zero d (x ∷ xs) h = ground arith
card_at-set_card (suc i) (suc j) d (x ∷ xs) h =
    ground (arith, card_at-set_card i j d xs (omega arith))

-- An exchange of two positions keeps every card.
pub occurs-swap :
    (c : Card) (i j : ℕ) (xs : List Card)
    → i < length xs
    → j < length xs
    → occurs c (swap i j xs) ≡ occurs c xs
unfolding swap
occurs-swap c i j xs hi hj =
    let once = set_card i (card_at j xs) xs in
    ground (
      arith,
      occurs-set_card c (card_at j xs) i xs hi,
      occurs-set_card c (card_at i xs) j once (omega (arith, length-set_card i (card_at j xs) xs)),
      card_at-set_card i j (card_at j xs) xs hi,
    )
