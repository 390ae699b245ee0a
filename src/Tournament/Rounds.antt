-- ===== src/Tournament/Rounds.antt =====
-- internal/tournament/play_state.go: finishing rounds and scoring their entries.
use paxos_arena.Prelude.{
  ℕ, suc, Bool, true, not, ◌&&◌, Option, none, some, List, [], ◌∷◌, ltb, ◌==◌, if◌then◌else◌, Text,
  signed_less,
}
use paxos_arena.Paxos.{Slot}
use paxos_arena.Game.{Board, FinishReason, rounds}
use paxos_arena.Game.Deck.{deal}
use paxos_arena.Game.Rules.{board_score, cleared_cards, replay_moves}
use paxos_arena.Tournament.{Entry, Tournament}
use paxos_arena.Tournament.State.{
  State, Host, EventRecord, RoundRecord, RoundStatus, RoundKey, EventType, EventStatus, find_round,
  is_done, keep_round,
}
use paxos_arena.Tournament.Events.{
  no_event, record_event, record_leaderboard, progress, round_numbers,
}
use paxos_arena.Tournament.Entries.{entry_at, fix_score}

-- `game.Replay`: the board and the error of a round's moves.
unfoldable pub replayed_board : Host → RoundRecord → Board
unfolding replay_moves deal
replayed_board h rec = (replay_moves (deal (h.draws rec.seed)) rec.moves).0

unfoldable pub score_event : Slot → Text → State → Tournament → EventRecord
unfolding progress
score_event slot pid s t =
    let g = progress s t.id pid in
    record no_event {
      slot = slot;
      type = EventType.entry_scored;
      tournament = t.id;
      player = pid;
      total_score = g.total;
      rounds_finished = g.finished;
    }

-- `scoreEntry`.
unfoldable pub score_entry : Slot → ℕ → Text → State → Tournament → State × Tournament
unfolding fix_score progress score_event record_event
score_entry slot i pid s t =
    (record_event (score_event slot pid s t) s, fix_score i (progress s t.id pid).total t)

unfoldable pub finished_record : Slot → Board → FinishReason → RoundRecord → RoundRecord
unfolding cleared_cards board_score
finished_record slot board reason rec = record rec {
  status = RoundStatus.done;
  reason = reason;
  cleared = cleared_cards board;
  score = board_score board;
  finished_at = slot;
  updated_at = slot;
}

unfoldable pub score_third_round : Slot → ℕ → RoundRecord → State → Tournament → State × Tournament
unfolding entry_at score_entry
score_third_round slot i rec s t = elim (entry_at i t.entries) [
  | none ↦ (s, t)
  | some e ↦
      if rec.round == rounds && not e.scored then score_entry slot i e.player.id s t else (s, t)
]

unfoldable pub board_of : Host → RoundRecord → Option Board → Board
unfolding replayed_board
board_of h rec none = replayed_board h rec
board_of h rec (some b) = b

unfoldable pub round_event : Slot → RoundRecord → State → Tournament → EventRecord
unfolding progress
round_event slot rec s t =
    let g = progress s t.id rec.player in
    record no_event {
      slot = slot;
      type = EventType.round_finished;
      tournament = t.id;
      player = rec.player;
      round = rec.round;
      status = EventStatus.of_round RoundStatus.done;
      score = rec.score;
      total_score = g.total;
      rounds_finished = g.finished;
    }

-- A tournament that is closing records its leaderboard itself.
unfoldable pub tell_board : Slot → Bool → Text → State → State
unfolding record_leaderboard
tell_board slot closing tid s = if closing then s else record_leaderboard slot tid s

-- `finishRound`, for a record that the map keeps under its own key.
unfoldable pub finish_round :
    Host
    → Slot
    → ℕ
    → RoundRecord
    → Option Board
    → FinishReason
    → Bool
    → State
    → Tournament
    → State × Tournament
unfolding board_of finished_record keep_round round_event record_event tell_board score_third_round
finish_round h slot i rec given reason closing s t =
    let rec' = finished_record slot (board_of h rec given) reason rec in
    let s1 = keep_round rec' s in
    let s2 = record_event (round_event slot rec' s1 t) s1 in
    score_third_round slot i rec' (tell_board slot closing t.id s2) t

abbrev pub expired_or : FinishReason → RoundRecord → State → FinishReason
expired_or reason rec s =
    if signed_less rec.deadline_ms s.clock then FinishReason.expired else reason

-- The inner loop of `closeRounds`, over the rounds of entry `i`.
unfoldable pub close_entry :
    Host → Slot → ℕ → Text → List ℕ → State → Tournament → State × Tournament
unfolding find_round finish_round
close_entry h slot i pid [] s t = (s, t)
close_entry h slot i pid (r ∷ rs) s t =
    let key : RoundKey = record { tournament = t.id; player = pid; round = r } in
    let skip = close_entry h slot i pid rs s t in
    elim (find_round key s.play.rounds) [
      | none ↦ skip
      | some rec ↦
          let (s', t') =
            finish_round h slot i rec none (expired_or FinishReason.closed rec s) true s t in
          let rest = close_entry h slot i pid rs s' t' in if is_done rec.status then skip else rest
    ]

-- The outer loop of `closeRounds`, from entry `i` on; players stay where they are.
unfoldable pub close_entries :
    Host → Slot → ℕ → List Entry → State → Tournament → State × Tournament
unfolding close_entry
close_entries h slot i [] s t = (s, t)
close_entries h slot i (e ∷ es) s t =
    let (s', t') = close_entry h slot i e.player.id round_numbers s t in
    close_entries h slot (suc i) es s' t'

-- The second loop: it changes no entry that it has still to read.
unfoldable pub score_dealt : Slot → ℕ → List Entry → State → Tournament → State × Tournament
unfolding progress score_entry
score_dealt slot i [] s t = (s, t)
score_dealt slot i (e ∷ es) s t =
    let dealt = ltb 0 (progress s t.id e.player.id).dealt in
    let (s', t') = if not e.scored && dealt then score_entry slot i e.player.id s t else (s, t) in
    score_dealt slot (suc i) es s' t'

-- `closeRounds`.
unfoldable pub close_rounds : Host → Slot → State → Tournament → State × Tournament
unfolding close_entries score_dealt
close_rounds h slot s t =
    let (s', t') = close_entries h slot 0 t.entries s t in score_dealt slot 0 t'.entries s' t'
