-- ===== src/Tournament/Events.antt =====
-- internal/tournament/play_state.go: recording events, and the progress of an entry.
use paxos_arena.Prelude.{
  ℕ, suc, ◌+◌, ◌%◌, ◌^◌, Bool, false, ◌&&◌, Option, none, some, List, [], ◌∷◌, ◌++◌, length, ltb,
  ◌==◌, if◌then◌else◌, Text, same_text, find, put,
}
use paxos_arena.Paxos.{Slot}
use paxos_arena.Tournament.{Tournament}
use paxos_arena.Tournament.State.{
  State, EventRecord, EventType, EventStatus, RoundKey, RoundRecord, PlayState, push, find_round,
  is_done, with_play,
}

abbrev pub no_event : EventRecord
no_event = record {
  slot = 0;
  type = EventType.leaderboard_changed;
  tournament = [];
  player = [];
  round = 0;
  status = EventStatus.no_status;
  score = 0;
  total_score = 0;
  rounds_finished = 0;
  amount = 0;
  time_ms = 0;
}

unfoldable pub add_event : EventRecord → PlayState → PlayState
unfolding push
add_event ev p =
    let i = length p.events in
    let q = record p { events = p.events ++ ev ∷ [] } in
    if same_text ev.player []
    then record q { shared = push ev.tournament i p.shared }
    else record q { own = push ev.player i p.own }

-- `recordEvent`.
unfoldable pub record_event : EventRecord → State → State
unfolding with_play add_event
record_event ev s = with_play (add_event (record ev { time_ms = s.clock })) s

abbrev pub told_at : Slot → Option Slot → Bool
told_at slot none = false
told_at slot (some at) = at == slot

abbrev pub board_event : Slot → Text → EventRecord
board_event slot tid = record no_event {
  slot = slot;
  type = EventType.leaderboard_changed;
  tournament = tid;
}

unfoldable pub mark_board : Slot → Text → PlayState → PlayState
mark_board slot tid p = record p { board_at = put tid slot p.board_at }

-- `recordLeaderboard`.
unfoldable pub record_leaderboard : Slot → Text → State → State
unfolding with_play record_event mark_board
record_leaderboard slot tid s =
    if told_at slot (find tid s.play.board_at)
    then s
    else record_event (board_event slot tid) (with_play (mark_board slot tid) s)

abbrev pub status_event : Slot → Tournament → EventRecord
status_event slot t = record no_event {
  slot = slot;
  type = EventType.tournament_status;
  tournament = t.id;
  status = EventStatus.of_tournament t.status;
}

-- `recordStatus`.
unfoldable pub record_status : Slot → Tournament → State → State
unfolding record_event record_leaderboard
record_status slot t s = record_leaderboard slot t.id (record_event (status_event slot t) s)

-- `EntryProgress`; `next` is the local variable of the same name until the loop is over.
pub record Progress : Type 0 where
  pub dealt : ℕ
  pub finished : ℕ
  pub total : ℕ
  pub reached_at : Slot
  pub playing : ℕ
  pub next : ℕ

abbrev pub no_progress : Progress
no_progress = record { dealt = 0; finished = 0; total = 0; reached_at = 0; playing = 0; next = 0 }

unfoldable pub count_round : ℕ → Option RoundRecord → Progress → Progress
count_round r none g = if g.next == 0 && g.playing == 0 then record g { next = r } else g
count_round r (some rec) g =
    let h = record g { dealt = suc g.dealt } in
    if is_done rec.status
    then record h {
      finished = suc g.finished;
      total = (g.total + rec.score) % 2 ^ 64;
      reached_at = if ltb g.reached_at rec.finished_at then rec.finished_at else g.reached_at;
    }
    else record h { playing = r }

-- `1 ≤ r ≤ game.Rounds`.
abbrev pub round_numbers : List ℕ
round_numbers = 1 ∷ 2 ∷ 3 ∷ []

unfoldable pub progress_over : State → Text → Text → List ℕ → Progress → Progress
unfolding find_round count_round
progress_over s tid pid [] g = g
progress_over s tid pid (r ∷ rs) g =
    let key : RoundKey = record { tournament = tid; player = pid; round = r } in
    progress_over s tid pid rs (count_round r (find_round key s.play.rounds) g)

-- `Progress`.
unfoldable pub progress : State → Text → Text → Progress
unfolding progress_over
progress s tid pid =
    let g = progress_over s tid pid round_numbers no_progress in
    if g.playing == 0 then g else record g { next = 0 }
