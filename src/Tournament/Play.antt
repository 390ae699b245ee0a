-- ===== src/Tournament/Play.antt =====
-- internal/tournament/play_state.go: devices, sequenced commands and entering.
use paxos_arena.Prelude.{
  ℕ, ◌+◌, ◌%◌, ◌^◌, Bool, true, not, ◌&&◌, ◌||◌, ◌⊎◌, inl, inr, Option, none, some, List, [], ◌∷◌,
  ◌++◌, length, ltb, leb, ◌==◌, if◌then◌else◌, Text, same_text, find, put, has,
}
use paxos_arena.Paxos.{Slot, Ballot}
use paxos_arena.Tournament.{Player, Entry, Tournament}
use paxos_arena.Tournament.Shapes.{every, valid_player}
use paxos_arena.Tournament.Commands.{
  OpenSession, Enter, Code, PlayOutcome, Result, is_ok, no_outcome, play_result, plain_result,
  zero_bytes,
}
use paxos_arena.Tournament.State.{
  State, Binding, PlayerState, PlayState, touch_player, save_player, save_tournament, with_play,
  with_book,
}
use paxos_arena.Tournament.Entries.{admit}

unfoldable pub valid_lower_hex : Text → ℕ → Bool
unfolding every
valid_lower_hex s n =
    length s == n && every (λ c. (leb b'0' c && leb c b'9') || (leb b'a' c && leb c b'f')) s

abbrev pub device_id_len : ℕ
device_id_len = 32

abbrev pub next_seq_of : PlayerState → ℕ
next_seq_of ps = (ps.last_seq + 1) % 2 ^ 64

-- A bound device always has its player's record; the zero value stands for a nil record, which
-- would panic.
unfoldable pub bound_seq : Text → List (Text × PlayerState) → ℕ
bound_seq id m = elim (find id m) [ none ↦ 1 | some ps ↦ next_seq_of ps ]

unfoldable pub new_binding : Slot → OpenSession → Binding
new_binding slot op = record {
  device = op.device;
  verifier = op.verifier;
  player = op.player;
  jurisdiction = op.jurisdiction;
  age = op.age;
  bound_at = slot;
}

abbrev pub new_player : Binding → PlayerState
new_player b = record { binding = b; last_seq = 0; entered = [] }

unfoldable pub add_binding : Binding → PlayState → PlayState
unfolding touch_player
add_binding b p = touch_player b.player (record p {
  bindings = put b.device b p.bindings;
  players = put b.player (new_player b) p.players;
  dirty_bindings = p.dirty_bindings ++ b.device ∷ [];
})

-- `openSession` for a device that is not bound.
unfoldable pub bind_device : Slot → ℕ → OpenSession → State → State × Result
unfolding valid_player new_binding add_binding with_play
bind_device slot received_at op s =
    let claimed : Player = record {
      id = op.player;
      jurisdiction = op.jurisdiction;
      age = op.age;
    } in
    if not (valid_player claimed)
    then (s, plain_result Code.invalid_player)
    else if has op.player s.play.players
    then (s, plain_result Code.player_exists)
    else (
      with_play (add_binding (new_binding slot op)) s,
      play_result Code.ok_code (record no_outcome {
        player = op.player;
        new_player = true;
        issued_at_ms = received_at;
        next_seq = 1;
      }),
    )

-- `openSession`.
unfoldable pub open_session : Slot → ℕ → OpenSession → State → State × Result
unfolding valid_lower_hex bound_seq bind_device
open_session slot received_at op s =
    if not (valid_lower_hex op.device device_id_len) || same_text op.verifier zero_bytes
    then (s, plain_result Code.invalid_device)
    else elim (find op.device s.play.bindings) [
      | none ↦ bind_device slot received_at op s
      | some b ↦
          if not (same_text b.verifier op.verifier)
          then (s, plain_result Code.device_mismatch)
          else (
            s,
            play_result Code.ok_code (record no_outcome {
              player = b.player;
              issued_at_ms = received_at;
              next_seq = bound_seq b.player s.play.players;
            }),
          )
    ]

abbrev pub outcome_of : Text → PlayerState → PlayOutcome
outcome_of pid ps = record no_outcome { player = pid; next_seq = next_seq_of ps }

-- The sequence number is consumed.
unfoldable pub consume : Text → PlayerState → State → State
unfolding save_player touch_player with_play
consume pid ps s = with_play (touch_player pid) (save_player pid ps s)

-- The rules of `sequenced` on the tournament.
unfoldable pub play_tournament :
    Text → PlayerState → Option Tournament → Result ⊎ PlayerState × Tournament
play_tournament pid ps none = inl (play_result Code.unknown_tournament (outcome_of pid ps))
play_tournament pid ps (some t) =
    if same_text t.rules.game []
    then inl (play_result Code.not_play_tournament (outcome_of pid ps))
    else inr (ps, t)

-- The rules of `sequenced` for a player: the state, and the rejection or what the command works on.
unfoldable pub sequenced_player :
    Text → ℕ → Text → PlayerState → State → State × (Result ⊎ PlayerState × Tournament)
unfolding consume play_tournament
sequenced_player pid seq tid ps s =
    if leb seq ps.last_seq
    then (s, inl (play_result Code.stale_seq (outcome_of pid ps)))
    else if ltb (next_seq_of ps) seq
    then (s, inl (play_result Code.seq_gap (outcome_of pid ps)))
    else (
      consume pid (record ps { last_seq = seq }) s,
      play_tournament pid (record ps { last_seq = seq }) (find tid s.tournaments),
    )

-- `sequenced`.
unfoldable pub sequenced : Text → ℕ → Text → State → State × (Result ⊎ PlayerState × Tournament)
unfolding sequenced_player
sequenced pid seq tid s = elim (find pid s.play.players) [
  | none ↦ (s, inl (play_result Code.unknown_player (record no_outcome { player = pid })))
  | some ps ↦ sequenced_player pid seq tid ps s
]

-- What a sequenced command does once its rules have answered.
unfoldable pub after_checks :
    (PlayerState → Tournament → State → State × Result)
    → State
    → Result ⊎ PlayerState × Tournament
    → State × Result
after_checks run s (inl rejection) = (s, rejection)
after_checks run s (inr (ps, t)) = run ps t s

-- A sequenced command: its rules, then what it does with the player and the tournament.
unfoldable pub after_sequenced :
    Text → ℕ → Text → (PlayerState → Tournament → State → State × Result) → State → State × Result
unfolding sequenced after_checks
after_sequenced pid seq tid run s =
    let (s', checked) = sequenced pid seq tid s in after_checks run s' checked

abbrev last_join_seq : List Entry → ℕ
last_join_seq [] = 0
last_join_seq (e ∷ []) = e.join_seq
last_join_seq (e ∷ d ∷ es) = last_join_seq (d ∷ es)

unfoldable pub enter_checked :
    Slot → Ballot → Enter → PlayerState → Tournament → State → State × Result
unfolding admit save_tournament save_player with_book
enter_checked slot ballot op ps t s =
    let player : Player = record {
      id = op.player;
      jurisdiction = ps.binding.jurisdiction;
      age = ps.binding.age;
    } in
    let (book, t', c) = admit slot ballot t player s.book in
    let s' = save_tournament op.tournament t' (with_book book s) in
    let out = outcome_of op.player ps in
    if is_ok c
    then (
      save_player op.player (record ps { entered = ps.entered ++ t.id ∷ [] }) s',
      play_result c (record out { join_seq = last_join_seq t'.entries }),
    )
    else (s', play_result c out)

-- `enterPlay`.
unfoldable pub enter_play : Slot → Ballot → Enter → State → State × Result
unfolding after_sequenced enter_checked
enter_play slot ballot op =
    after_sequenced op.player op.seq op.tournament (enter_checked slot ballot op)
