-- ===== src/Game/Rules.antt =====
-- internal/game/rules.go: moves on a board and its score.
use paxos_arena.Prelude.{
  ℕ, suc, ◌+◌, ◌-◌, ◌*◌, Bool, true, false, not, ◌&&◌, Option, none, some, List, [], ◌∷◌, ◌++◌,
  length, if◌then◌else◌, ltb, ◌==◌,
}
use paxos_arena.Game.{
  Card, Board, Move, MoveKind, FinishReason, Illegal, adjacent, column_count, tableau_size,
  points_per_card, clear_bonus, stock_bonus, no_column,
}

unfoldable pub last_card : List Card → Option Card
last_card [] = none
last_card (c ∷ []) = some c
last_card (c ∷ d ∷ cs) = last_card (d ∷ cs)

unfoldable pub drop_last : List Card → List Card
drop_last [] = []
drop_last (c ∷ []) = []
drop_last (c ∷ d ∷ cs) = c ∷ drop_last (d ∷ cs)

unfoldable pub column_at : ℕ → List (List Card) → List Card
column_at i [] = []
column_at ℕ.zero (col ∷ cols) = col
column_at (suc i) (col ∷ cols) = column_at i cols

unfoldable pub set_column : ℕ → List Card → List (List Card) → List (List Card)
set_column i new [] = []
set_column ℕ.zero new (col ∷ cols) = new ∷ cols
set_column (suc i) new (col ∷ cols) = col ∷ set_column i new cols

-- `WasteCard`; an empty waste, which would panic, gives 0.
unfoldable pub waste_card : Board → Card
unfolding last_card
waste_card b = elim (last_card b.waste) [ none ↦ 0 | some c ↦ c ]

unfoldable pub cards_left : List (List Card) → ℕ
cards_left [] = 0
cards_left (col ∷ cols) = length col + cards_left cols

-- `Cleared`, for a tableau of at most 35 cards.
unfoldable pub cleared_cards : Board → ℕ
unfolding cards_left
cleared_cards b = tableau_size - cards_left b.columns

-- `Score`.
unfoldable pub board_score : Board → ℕ
unfolding cleared_cards
board_score b =
    points_per_card * cleared_cards b
    + (if cleared_cards b == tableau_size then clear_bonus + stock_bonus * length b.stock else 0)

-- Whether the top card of a column goes onto `w`.
unfoldable pub fits : List Card → Card → Bool
unfolding last_card
fits col w = elim (last_card col) [ none ↦ false | some c ↦ adjacent c w ]

-- `Playable`, from column `i` on.
unfoldable pub playable_from : ℕ → List (List Card) → Card → List ℕ
unfolding fits
playable_from i [] w = []
playable_from i (col ∷ cols) w =
    if fits col w then i ∷ playable_from (suc i) cols w else playable_from (suc i) cols w

unfoldable pub playable : Board → List ℕ
unfolding playable_from
playable b = playable_from 0 b.columns (waste_card b)

abbrev pub is_empty : {A : Type 0} → List A → Bool
is_empty [] = true
is_empty (x ∷ xs) = false

-- `Over`.
unfoldable pub round_end : Board → Option FinishReason
unfolding playable
round_end b =
    if cleared_cards b == tableau_size
    then some FinishReason.cleared
    else if is_empty b.stock && is_empty (playable b)
    then some FinishReason.blocked
    else none

-- The shape of a move, the first rule of `Check`.
unfoldable pub check_shape : MoveKind → ℕ → Option Illegal
check_shape MoveKind.play column = if ltb column column_count then none else some Illegal.bad_column
check_shape MoveKind.draw column = if column == no_column then none else some Illegal.bad_column
check_shape MoveKind.other column = some Illegal.unknown_move

-- The move against the cards, the last rule of `Check`.
unfoldable pub check_cards : Board → MoveKind → ℕ → Option Illegal
unfolding last_card
check_cards b MoveKind.draw column = if is_empty b.stock then some Illegal.stock_empty else none
check_cards b MoveKind.play column = elim (last_card (column_at column b.columns)) [
  | none ↦ some Illegal.column_empty
  | some c ↦ if not (adjacent c (waste_card b)) then some Illegal.not_adjacent else none
]
check_cards b MoveKind.other column = none

-- `Check`: none when the move is legal.
unfoldable pub check_move : Board → Move → Option Illegal
unfolding round_end check_shape check_cards
check_move b m = elim (check_shape m.kind m.column) [
  | some e ↦ some e
  | none ↦ elim (round_end b) [
    | some r ↦ some Illegal.round_over
    | none ↦ check_cards b m.kind m.column
  ]
]

-- The effect of a draw and of a play, which `Apply` makes when they are legal.
unfoldable pub make_draw : Board → Board
make_draw b = elim b.stock [
  | [] ↦ b
  | c ∷ cs ↦ record b { waste = b.waste ++ c ∷ []; stock = cs; moves = suc b.moves }
]

unfoldable pub make_play : ℕ → Board → Board
make_play i b = elim (last_card (column_at i b.columns)) [
  | none ↦ b
  | some c ↦ record b {
    columns = set_column i (drop_last (column_at i b.columns)) b.columns;
    waste = b.waste ++ c ∷ [];
    moves = suc b.moves;
  }
]

unfoldable pub make : MoveKind → ℕ → Board → Board
unfolding make_draw make_play
make MoveKind.draw i b = make_draw b
make MoveKind.play i b = make_play i b
make MoveKind.other i b = b

-- `Apply`: the board and the error.
unfoldable pub apply_move : Board → Move → Board × Option Illegal
unfolding check_move make
apply_move b m = elim (check_move b m) [
  | some e ↦ (b, some e)
  | none ↦ (make m.kind m.column b, none)
]

-- `Replay` from a dealt board: the board before the first illegal move, with its error.
unfoldable pub replay_moves : Board → List Move → Board × Option Illegal
replay_moves b [] = (b, none)
replay_moves b (m ∷ ms) =
    let rest = replay_moves (apply_move b m).0 ms in
    elim (apply_move b m).1 [ some e ↦ (b, some e) | none ↦ rest ]
