-- ===== src/Tournament/State.antt =====
-- internal/tournament/state.go and play_state.go: the state, its maps and its event records.
use paxos_arena.Prelude.{
  ℕ, Bool, true, false, ◌&&◌, Option, none, some, List, [], ◌∷◌, ◌++◌, length, ◌==◌, if◌then◌else◌,
  Text, same_text, find, put,
}
use paxos_arena.Paxos.{Slot}
use paxos_arena.Ledger.{Money, Posting}
use paxos_arena.Ledger.Book.{Book, new_book}
use paxos_arena.Game.{Move, FinishReason}
use paxos_arena.Game.Deck.{Draws}
use paxos_arena.Tournament.{Status, Tournament}
use paxos_arena.Tournament.Commands.{Op, Command, Result, zero_bytes}

pub record Binding : Type 0 where
  pub device : Text
  pub verifier : Text
  pub player : Text
  pub jurisdiction : Text
  pub age : ℕ
  pub bound_at : Slot

-- `PlayerRecord` and `playerState` in one record.
pub record PlayerState : Type 0 where
  pub binding : Binding
  pub last_seq : ℕ
  pub entered : List Text

pub data RoundStatus : Type 0 where
  in_play done : RoundStatus

abbrev pub is_done : RoundStatus → Bool
is_done RoundStatus.done = true
is_done RoundStatus.in_play = false

pub record RoundRecord : Type 0 where
  pub tournament : Text
  pub player : Text
  pub round : ℕ
  pub seed : Text
  pub moves : List Move
  pub status : RoundStatus
  pub reason : FinishReason
  pub cleared : ℕ
  pub score : ℕ
  pub started_at : Slot
  pub started_at_ms : ℕ
  pub deadline_ms : ℕ
  pub finished_at : Slot
  pub updated_at : Slot

pub data EventType : Type 0 where
  tournament_status leaderboard_changed round_started round_finished : EventType
  entry_scored payout_available payout_claimed : EventType

-- The status text of an event: empty, a round's or a tournament's.
pub data EventStatus : Type 0 where
  no_status : EventStatus
  of_round : RoundStatus → EventStatus
  of_tournament : Status → EventStatus

pub record EventRecord : Type 0 where
  pub slot : Slot
  pub type : EventType
  pub tournament : Text
  pub player : Text
  pub round : ℕ
  pub status : EventStatus
  pub score : ℕ
  pub total_score : ℕ
  pub rounds_finished : ℕ
  pub amount : Money
  pub time_ms : ℕ

pub record RoundKey : Type 0 where
  pub tournament : Text
  pub player : Text
  pub round : ℕ

pub record PlayState : Type 0 where
  pub bindings : List (Text × Binding)
  pub players : List (Text × PlayerState)
  pub rounds : List (RoundKey × RoundRecord)
  pub events : List EventRecord
  pub shared : List (Text × List ℕ)
  pub own : List (Text × List ℕ)
  pub board_at : List (Text × Slot)
  pub dirty_bindings : List Text
  pub dirty_players : List Text
  pub dirty_rounds : List RoundKey
  pub events_before : ℕ

-- `record`, a row of the results table.
pub record Recorded : Type 0 where
  pub fingerprint : Text
  pub result : Result

pub record State : Type 0 where
  pub tournaments : List (Text × Tournament)
  pub order : List Text
  pub results : List (Text × Recorded)
  pub book : Book
  pub applied : Slot
  pub hash : Text
  pub commands : ℕ
  pub mutations : ℕ
  pub play : PlayState
  pub clock : ℕ

-- What the source calls of its standard library: SHA-256 and the JSON of each type. `unencodable` is
-- what a nil operation puts into the hash. `draws` is what a shuffle relies on in the stream of a
-- seed.
pub record Host : Type 0 where
  pub sha256 : Text → Text
  pub op_json : Op → Text
  pub command_json : Command → Text
  pub unencodable : Text
  pub result_json : Result → Text
  pub tournament_json : Tournament → Text
  pub posting_json : Posting → Text
  pub binding_json : Binding → Text
  pub player_json : PlayerState → Text
  pub round_json : RoundRecord → Text
  pub event_json : EventRecord → Text
  pub draws : (seed : Text) → Draws sha256 seed

abbrev new_play_state : PlayState
new_play_state = record {
  bindings = [];
  players = [];
  rounds = [];
  events = [];
  shared = [];
  own = [];
  board_at = [];
  dirty_bindings = [];
  dirty_players = [];
  dirty_rounds = [];
  events_before = 0;
}

abbrev pub new_state : State
new_state = record {
  tournaments = [];
  order = [];
  results = [];
  book = new_book;
  applied = 0;
  hash = zero_bytes;
  commands = 0;
  mutations = 0;
  play = new_play_state;
  clock = 0;
}

abbrev pub same_key : RoundKey → RoundKey → Bool
same_key k j =
    same_text k.tournament j.tournament && same_text k.player j.player && k.round == j.round

unfoldable pub find_round : RoundKey → List (RoundKey × RoundRecord) → Option RoundRecord
find_round k [] = none
find_round k ((j, v) ∷ m) = if same_key j k then some v else find_round k m

unfoldable pub put_round :
    RoundKey → RoundRecord → List (RoundKey × RoundRecord) → List (RoundKey × RoundRecord)
put_round k v [] = (k, v) ∷ []
put_round k v ((j, w) ∷ m) = if same_key j k then (k, v) ∷ m else (j, w) ∷ put_round k v m

abbrev pub round_key : RoundRecord → RoundKey
round_key r = record { tournament = r.tournament; player = r.player; round = r.round }

-- `begin`.
unfoldable pub begin_changes : PlayState → PlayState
begin_changes p = record p {
  dirty_bindings = [];
  dirty_players = [];
  dirty_rounds = [];
  events_before = length p.events;
}

unfoldable pub add_text : Text → List Text → List Text
add_text x [] = x ∷ []
add_text x (y ∷ ys) = if same_text y x then y ∷ ys else y ∷ add_text x ys

unfoldable pub add_key : RoundKey → List RoundKey → List RoundKey
add_key x [] = x ∷ []
add_key x (y ∷ ys) = if same_key y x then y ∷ ys else y ∷ add_key x ys

-- `touchPlayer` and `touchRound`.
unfoldable pub touch_player : Text → PlayState → PlayState
unfolding add_text
touch_player id p = record p { dirty_players = add_text id p.dirty_players }

unfoldable pub touch_round : RoundKey → PlayState → PlayState
unfolding add_key
touch_round k p = record p { dirty_rounds = add_key k p.dirty_rounds }

-- Go's `m[k] = append(m[k], i)`.
unfoldable pub push : Text → ℕ → List (Text × List ℕ) → List (Text × List ℕ)
push k i m = put k ((elim (find k m) [ none ↦ [] | some is ↦ is ]) ++ i ∷ []) m

-- The rest of a record is put back under the key that the source found it with.
unfoldable pub save_player : Text → PlayerState → State → State
save_player id p s = record s { play = record s.play { players = put id p s.play.players } }

unfoldable pub save_round : RoundRecord → State → State
unfolding put_round
save_round r s = record s {
  play = record s.play { rounds = put_round (round_key r) r s.play.rounds };
}

unfoldable pub save_tournament : Text → Tournament → State → State
save_tournament id t s = record s { tournaments = put id t s.tournaments }

unfoldable pub with_play : (PlayState → PlayState) → State → State
with_play f s = record s { play = f s.play }

unfoldable pub with_book : Book → State → State
with_book b s = record s { book = b }

-- A round record is put into its map and marked as changed.
unfoldable pub keep_round : RoundRecord → State → State
unfolding save_round touch_round with_play
keep_round r s = with_play (touch_round (round_key r)) (save_round r s)
