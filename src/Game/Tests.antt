-- ===== src/Game/Tests.antt =====
-- The theorems on Ladder at concrete boards.
use paxos_arena.Prelude.{◌≤◌, ◌≡◌, refl, ◌↔◌, [], ◌∷◌, Text, none, some, arith}
use paxos_arena.Game.{
  adjacent, Board, Move, MoveKind, no_column, max_round_score, card_text, parse_card,
}
use paxos_arena.Game.Deck.{Draws, deal, take_draw, draw_at, limit_of}
use paxos_arena.Game.Rules.{
  board_score, cleared_cards, apply_move, column_at, waste_card, set_column, drop_last,
  replay_moves, round_end, check_move,
}
use paxos_arena.Game.Cards.{on_board}
use paxos_arena.Game.Draws.{IsFirst, IsLargest, take_draw_lem, no_draws}
use paxos_arena.Game.Rounds.{
  replay_moves-deal, length-replay_moves, board_score-apply_move, board_score-replay_moves,
}
use paxos_arena.Game.Endings.{IsLive, round_end_iff}
use paxos_arena.Game.Names.{parse_card-card_text}

-- A digest with no byte in it, of whose stream every value is 0.
abbrev empty_digest : Text → Text
empty_digest t = []

abbrev some_draws : Draws empty_digest (7 ∷ [])
some_draws = no_draws (7 ∷ [])

abbrev draw_move : Move
draw_move = record { kind = MoveKind.draw; column = no_column }

-- An ace on the waste takes the king of the only column that holds a card.
abbrev small_board : Board
small_board = record {
  columns = (49 ∷ []) ∷ [] ∷ [] ∷ [] ∷ [] ∷ [] ∷ [] ∷ [];
  waste = 0 ∷ [];
  stock = 7 ∷ 8 ∷ [];
  moves = 34;
}

abbrev first_column : Move
first_column = record { kind = MoveKind.play; column = 0 }

take_draw_lem_example :
    IsFirst (draw_at empty_digest (7 ∷ [])) (limit_of 52) 3 0 4 × IsLargest 52 (limit_of 52)
unfolding take_draw draw_at
take_draw_lem_example = take_draw_lem some_draws 52 3 (omega arith) (omega arith)

replay_moves-deal_example :
    on_board 51 (replay_moves (deal some_draws) (draw_move ∷ first_column ∷ [])).0 ≡ 1
replay_moves-deal_example = replay_moves-deal some_draws (draw_move ∷ first_column ∷ []) 51

two_draws : (replay_moves (deal some_draws) (draw_move ∷ draw_move ∷ [])).1 ≡ none
unfolding replay_moves deal apply_move cleared_cards
two_draws = refl

length-replay_moves_example : 2 ≤ 51
length-replay_moves_example = length-replay_moves some_draws (draw_move ∷ draw_move ∷ []) two_draws

king_on_ace : check_move small_board first_column ≡ none
unfolding check_move cleared_cards column_at adjacent waste_card
king_on_ace = refl

board_score-apply_move_example :
    board_score small_board ≤ board_score (apply_move small_board first_column).0
board_score-apply_move_example = board_score-apply_move small_board first_column king_on_ace

board_score-replay_moves_example :
    board_score (replay_moves (deal some_draws) (draw_move ∷ [])).0 ≤ max_round_score
board_score-replay_moves_example = board_score-replay_moves some_draws (draw_move ∷ [])

round_end_iff_example :
    ((round_end small_board ≡ none) ↔ IsLive small_board)
    × (IsLive small_board ↔ ((m : Move) × (check_move small_board m ≡ none)))
round_end_iff_example = round_end_iff small_board refl

parse_card-card_text_example : parse_card (b'T' ∷ b'h' ∷ []) ≡ some 38
unfolding card_text
parse_card-card_text_example = parse_card-card_text 38 (omega arith)

-- Clearing the last column scores every card, the bonus and the stock that is left.
clearing : board_score (apply_move small_board first_column).0 ≡ 4100
unfolding board_score apply_move column_at adjacent waste_card set_column drop_last
clearing = refl
