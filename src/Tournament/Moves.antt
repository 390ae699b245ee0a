-- ===== src/Tournament/Moves.antt =====
-- internal/tournament/play_state.go: starting, playing and finishing a round.
use paxos_arena.Prelude.{
  ℕ, ◌+◌, ◌-◌, ◌%◌, ◌^◌, Bool, true, false, not, ◌&&◌, ◌⊎◌, inl, inr, Option, none, some, [], ◌∷◌,
  ◌++◌, length, ◌==◌, if◌then◌else◌, Text, signed_less,
}
use paxos_arena.Paxos.{Slot}
use paxos_arena.Game.{Board, FinishReason, rounds, round_time_limit_ms}
use paxos_arena.Game.Deck.{deal}
use paxos_arena.Game.Rules.{apply_move, replay_moves, round_end}
use paxos_arena.Tournament.{Tournament}
use paxos_arena.Tournament.Commands.{
  StartRound, PlayMove, FinishRound, Code, PlayOutcome, Result, play_result,
}
use paxos_arena.Tournament.State.{
  State, Host, PlayerState, RoundRecord, RoundStatus, RoundKey, EventRecord, EventType, EventStatus,
  find_round, is_done, keep_round, save_tournament,
}
use paxos_arena.Tournament.Events.{no_event, record_event}
use paxos_arena.Tournament.Entries.{is_open, has_entry, index_of}
use paxos_arena.Tournament.Rounds.{expired_or, finish_round}
use paxos_arena.Tournament.Play.{outcome_of, after_sequenced}

abbrev pub valid_round : ℕ → Bool
valid_round r = not (signed_less r 1) && not (signed_less rounds r)

abbrev previous_finished : Option RoundRecord → Bool
previous_finished none = false
previous_finished (some rec) = is_done rec.status

abbrev is_dealt : Option RoundRecord → Bool
is_dealt none = false
is_dealt (some rec) = true

-- The rules of `startRound` after those of `sequenced`.
unfoldable pub start_check : StartRound → Tournament → State → Option Code
unfolding find_round
start_check op t s =
    let key : RoundKey = record { tournament = t.id; player = op.player; round = op.round } in
    if not (is_open t.status)
    then some Code.not_open
    else if not (has_entry op.player t.entries)
    then some Code.not_joined
    else if not (valid_round op.round)
    then some Code.invalid_round
    else if is_dealt (find_round key s.play.rounds)
    then some Code.round_already_started
    else if signed_less 1 op.round
        && not (previous_finished (find_round (record key { round = op.round - 1 }) s.play.rounds))
    then some Code.previous_round_unfinished
    else none

unfoldable pub new_round : Slot → StartRound → Tournament → ℕ → RoundRecord
new_round slot op t clock = record {
  tournament = t.id;
  player = op.player;
  round = op.round;
  seed = op.seed;
  moves = [];
  status = RoundStatus.in_play;
  reason = FinishReason.unset;
  cleared = 0;
  score = 0;
  started_at = slot;
  started_at_ms = clock;
  deadline_ms = (clock + round_time_limit_ms) % 2 ^ 64;
  finished_at = 0;
  updated_at = slot;
}

abbrev pub start_event : Slot → StartRound → Tournament → EventRecord
start_event slot op t = record no_event {
  slot = slot;
  type = EventType.round_started;
  tournament = t.id;
  player = op.player;
  round = op.round;
  status = EventStatus.of_round RoundStatus.in_play;
}

-- A move that is added to its round.
unfoldable pub with_move : Slot → PlayMove → RoundRecord → RoundRecord
with_move slot op rec = record rec { moves = rec.moves ++ op.move ∷ []; updated_at = slot }

unfoldable pub start_checked : Slot → StartRound → PlayerState → Tournament → State → State × Result
unfolding start_check new_round keep_round record_event
start_checked slot op ps t s =
    let out = record (outcome_of op.player ps) { round = op.round } in
    elim (start_check op t s) [
      | some c ↦ (s, play_result c out)
      | none ↦
          let rec = new_round slot op t s.clock in
          (record_event (start_event slot op t) (keep_round rec s), play_result Code.ok_code out)
    ]

-- `startRound`.
unfoldable pub start_round : Slot → StartRound → State → State × Result
unfolding after_sequenced start_checked
start_round slot op = after_sequenced op.player op.seq op.tournament (start_checked slot op)

-- `roundFor`: the code that refuses, or the record and the position of the entry.
unfoldable pub round_for : Tournament → Text → ℕ → State → Code ⊎ RoundRecord × ℕ
unfolding index_of find_round
round_for t pid round s =
    let key : RoundKey = record { tournament = t.id; player = pid; round = round } in
    elim (index_of pid t.entries) [
      | none ↦ inl Code.not_joined
      | some i ↦
          if not (valid_round round)
          then inl Code.invalid_round
          else elim (find_round key s.play.rounds) [
            | none ↦ inl Code.round_not_started
            | some rec ↦ inr (rec, i)
          ]
    ]

-- The rules of `playMove` on a round, before the board.
unfoldable pub move_check : PlayMove → RoundRecord → State → Option Code
move_check op rec s =
    if is_done rec.status
    then some Code.round_finished
    else if signed_less rec.deadline_ms s.clock
    then some Code.round_expired
    else if not (op.move_index == length rec.moves)
    then some Code.move_index_mismatch
    else none

-- The board of the round's moves and of the new one, or none when a move is refused.
unfoldable pub moved_board : Host → PlayMove → RoundRecord → Option Board
unfolding replay_moves deal apply_move
moved_board h op rec =
    let (board, refused) = replay_moves (deal (h.draws rec.seed)) rec.moves in
    let (board', illegal) = apply_move board op.move in
    elim refused [ some e ↦ none | none ↦ elim illegal [ some e ↦ none | none ↦ some board' ] ]

unfoldable pub accept_move :
    Host
    → Slot
    → PlayMove
    → PlayOutcome
    → Tournament
    → RoundRecord
    → ℕ
    → Board
    → State
    → State × Result
unfolding with_move keep_round finish_round save_tournament round_end
accept_move h slot op out t rec i board s =
    let rec' = with_move slot op rec in
    let s' = keep_round rec' s in
    let out' = record out { move_index = length rec'.moves } in
    elim (round_end board) [
      | none ↦ (s', play_result Code.ok_code out')
      | some reason ↦
          let (s'', t') = finish_round h slot i rec' (some board) reason false s' t in
          (save_tournament op.tournament t' s'', play_result Code.ok_code out')
    ]

unfoldable pub move_checked :
    Host → Slot → PlayMove → PlayerState → Tournament → State → State × Result
unfolding round_for move_check moved_board accept_move
move_checked h slot op ps t s =
    let out = record (outcome_of op.player ps) { round = op.round } in
    if not (is_open t.status)
    then (s, play_result Code.not_open out)
    else elim (round_for t op.player op.round s) [
      | inl c ↦ (s, play_result c out)
      | inr (rec, i) ↦
          let out' = record out { move_index = length rec.moves } in
          elim (move_check op rec s) [
            | some c ↦ (s, play_result c out')
            | none ↦ elim (moved_board h op rec) [
              | none ↦ (s, play_result Code.illegal_move out')
              | some board ↦ accept_move h slot op out' t rec i board s
            ]
          ]
    ]

-- `playMove`.
unfoldable pub play_move : Host → Slot → PlayMove → State → State × Result
unfolding after_sequenced move_checked
play_move h slot op = after_sequenced op.player op.seq op.tournament (move_checked h slot op)

unfoldable pub finish_checked :
    Host → Slot → FinishRound → PlayerState → Tournament → State → State × Result
unfolding round_for finish_round save_tournament
finish_checked h slot op ps t s =
    let out = record (outcome_of op.player ps) { round = op.round } in
    elim (round_for t op.player op.round s) [
      | inl c ↦ (s, play_result c out)
      | inr (rec, i) ↦
          let out' = record out { move_index = length rec.moves } in
          if is_done rec.status
          then (s, play_result Code.ok_code out')
          else if not (is_open t.status)
          then (s, play_result Code.not_open out')
          else let (s', t') =
              finish_round h slot i rec none (expired_or FinishReason.resigned rec s) false s t in
            (save_tournament op.tournament t' s', play_result Code.ok_code out')
    ]

-- `finishRoundCmd`.
unfoldable pub finish_command : Host → Slot → FinishRound → State → State × Result
unfolding after_sequenced finish_checked
finish_command h slot op = after_sequenced op.player op.seq op.tournament (finish_checked h slot op)
