-- ===== src/Game.antt =====
-- internal/game: the data and constants of Ladder, and cards (game.go and rules.go).
pub mod Cards
pub mod Deck
pub mod Draws
pub mod Endings
pub mod Rounds
pub mod Rules
pub mod Shuffle
pub mod Names
mod Tests
use paxos_arena.Prelude.{
  ℕ, suc, ◌+◌, ◌-◌, ◌*◌, ◌/◌, ◌%◌, ◌^◌, Bool, true, false, ◌||◌, Option, none, some, List, [], ◌∷◌,
  length, if◌then◌else◌, ltb, leb, ◌==◌, Text,
}

-- A card is 0 to 51; a uint8 in the source.
abbrev pub Card : Type 0
Card = ℕ

abbrev pub deck_size : ℕ
deck_size = 52

abbrev pub column_count : ℕ
column_count = 7

abbrev pub column_depth : ℕ
column_depth = 5

abbrev pub tableau_size : ℕ
tableau_size = column_count * column_depth

abbrev pub stock_size : ℕ
stock_size = deck_size - tableau_size - 1

abbrev pub rounds : ℕ
rounds = 3

abbrev pub round_time_limit_ms : ℕ
round_time_limit_ms = 300000

abbrev pub points_per_card : ℕ
points_per_card = 100

abbrev pub clear_bonus : ℕ
clear_bonus = 500

abbrev pub stock_bonus : ℕ
stock_bonus = 50

abbrev pub max_round_score : ℕ
max_round_score = tableau_size * points_per_card + clear_bonus + stock_size * stock_bonus

abbrev pub max_total_score : ℕ
max_total_score = rounds * max_round_score

unfoldable pub card_rank : Card → ℕ
card_rank c = c / 4 + 1

unfoldable pub card_suit : Card → ℕ
card_suit c = c % 4

unfoldable pub is_card : Card → Bool
is_card c = ltb c deck_size

-- Go's `%` keeps the sign of its left side, so a negative difference is written out.
unfoldable pub adjacent : Card → Card → Bool
unfolding card_rank
adjacent a b =
    let d =
      if leb (card_rank b) (card_rank a)
      then ((card_rank a - card_rank b) % 13 + 13) % 13
      else (13 - (card_rank b - card_rank a) % 13) % 13 in
    d == 1 || d == 12

abbrev pub rank_chars : Text
rank_chars =
    b'A' ∷ b'2' ∷ b'3' ∷ b'4' ∷ b'5' ∷ b'6' ∷ b'7' ∷ b'8' ∷ b'9' ∷ b'T' ∷ b'J' ∷ b'Q' ∷ b'K' ∷ []

abbrev pub suit_chars : Text
suit_chars = b'c' ∷ b'd' ∷ b'h' ∷ b's' ∷ []

-- A byte of a string; an index out of range, which would panic, gives 0.
unfoldable pub char_at : ℕ → Text → ℕ
char_at i [] = 0
char_at ℕ.zero (c ∷ cs) = c
char_at (suc i) (c ∷ cs) = char_at i cs

-- The loops of `ParseCard`: the last position from `i` on that holds `c`, or `found`.
unfoldable pub last_index : ℕ → ℕ → Text → Option ℕ → Option ℕ
last_index c i [] found = found
last_index c i (d ∷ ds) found = last_index c (suc i) ds (if d == c then some i else found)

-- `String`.
unfoldable pub card_text : Card → Text
unfolding is_card card_rank card_suit char_at
card_text c =
    if is_card c
    then char_at (card_rank c - 1) rank_chars ∷ char_at (card_suit c) suit_chars ∷ []
    else b'?' ∷ b'?' ∷ []

-- `ParseCard`, for a text of two bytes.
unfoldable pub parse_pair : ℕ → ℕ → Option Card
unfolding last_index
parse_pair r s = elim (last_index r 0 rank_chars none) [
  | none ↦ none
  | some rank ↦ elim (last_index s 0 suit_chars none) [
    | none ↦ none
    | some suit ↦ some (rank * 4 + suit)
  ]
]

unfoldable pub parse_card : Text → Option Card
unfolding parse_pair
parse_card [] = none
parse_card (r ∷ []) = none
parse_card (r ∷ s ∷ []) = parse_pair r s
parse_card (r ∷ s ∷ c ∷ t) = none

-- A kind is a string; every other string is `other`.
pub data MoveKind : Type 0 where
  play draw other : MoveKind

-- The column is an int, as its residue modulo 2 ^ 64.
pub record Move : Type 0 where
  pub kind : MoveKind
  pub column : ℕ

abbrev pub no_column : ℕ
no_column = 2 ^ 64 - 1

-- `unset` is the empty string of a round in play.
pub data FinishReason : Type 0 where
  unset cleared blocked resigned expired closed : FinishReason

-- A column lists its cards bottom first, the stock its next card first.
pub record Board : Type 0 where
  pub columns : List (List Card)
  pub waste : List Card
  pub stock : List Card
  pub moves : ℕ

-- The `Err` values of a move.
pub data Illegal : Type 0 where
  unknown_move bad_column column_empty not_adjacent stock_empty round_over : Illegal
