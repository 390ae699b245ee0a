-- ===== src/Tournament/Scenarios.antt =====
-- Short histories of commands, at which the theorems apply.
use paxos_arena.Prelude.{
  ◌&&◌, ◌||◌, ℕ, ◌<◌, ◌≡◌, refl, true, none, some, List, [], ◌∷◌, length, find, Text, arith,
}
use paxos_arena.Paxos.{zero_ballot}
use paxos_arena.Game.Draws.{no_draws}
use paxos_arena.Tournament.{Tournament}
use paxos_arena.Tournament.Compute.{compute_pool}
use paxos_arena.Tournament.Payouts.{standings_of, compute_payouts}
use paxos_arena.Tournament.Shares.{sum_amounts, sum_amounts-compute_payouts}
use paxos_arena.Tournament.Shapes.{valid_key, valid_id}
use paxos_arena.Tournament.Keys.{Purpose, key_of-distinct}
use paxos_arena.Tournament.Commands.{Op, Command, Enter, Code}
use paxos_arena.Tournament.State.{State, EventRecord, Host, PlayerState, new_state}
use paxos_arena.Tournament.Apply.{at_slot, fingerprint, replay, apply, Chosen, apply_all}
use paxos_arena.Tournament.Growth.{IsFair, IsLater}
use paxos_arena.Tournament.History.{apply_all-IsFair, apply_all-IsLater, apply_all-refuses}
use paxos_arena.Tournament.Retries.{IsUntouched, apply_retry, replay-apply}
use paxos_arena.Tournament.Stale.{IsStale, apply_all-IsStale}
use paxos_arena.Ledger.Names.{pool_account}
use paxos_arena.Tournament.Closing.{closed_record, settle_postings}
use paxos_arena.Tournament.Outflow.{taken, taken-settle_postings}
use paxos_arena.Tournament.Events.{no_event}
use paxos_arena.Tournament.Reads.{slot_in, any_from, in_tournament, has_events}
use paxos_arena.Tournament.Seen.{Ascending, is_after, scan_shared, has_events_lem}
use paxos_arena.Tournament.Tests.{cup}

-- A host whose digests have no byte in them, and which prints every value as nothing.
abbrev host : Host
host = record {
  sha256 = λ t. [];
  op_json = λ o. [];
  command_json = λ c. [];
  unencodable = [];
  result_json = λ r. [];
  tournament_json = λ t. [];
  posting_json = λ p. [];
  binding_json = λ b. [];
  player_json = λ p. [];
  round_json = λ r. [];
  event_json = λ e. [];
  draws = λ s. no_draws s;
}

abbrev create_command : ℕ → Command
create_command at = record {
  key = b'k' ∷ b'1' ∷ [];
  received_at = at;
  op = Op.create_tournament (record { id = b'c' ∷ []; seed = 5; rules = cup.rules });
}

abbrev join_command : Command
join_command = record {
  key = b'k' ∷ b'2' ∷ [];
  received_at = 12;
  op = Op.join_tournament (record {
    tournament = b'c' ∷ [];
    player = record { id = b'p' ∷ []; jurisdiction = b'T' ∷ b'R' ∷ []; age = 30 };
  });
}

-- A tournament is created and entered, and a slot is skipped.
abbrev history : List Chosen
history =
    Chosen.chosen_command 1 zero_ballot (create_command 10)
    ∷ Chosen.chosen_command 2 zero_ballot join_command
    ∷ Chosen.chosen_skip 3
    ∷ []

ranked : 0 < length (standings_of cup)
unfolding standings_of
ranked = omega arith

sum_amounts-compute_payouts_example :
    sum_amounts (compute_payouts cup cup.rules.exclusions) ≡ (compute_pool cup).2
sum_amounts-compute_payouts_example =
    sum_amounts-compute_payouts cup cup.rules.exclusions (omega arith) (omega arith) (omega arith)
      (omega arith) ranked

closed_ranked : 0 < length (standings_of (closed_record 7 cup))
unfolding standings_of closed_record
closed_ranked = omega arith

taken-settle_postings_example :
    let u = closed_record 7 cup in
    let ex = cup.rules.exclusions in
    taken (pool_account cup.id) (settle_postings 8 zero_ballot ex u (compute_payouts u ex)) ≡ 3003
taken-settle_postings_example =
    taken-settle_postings cup 7 8 zero_ballot cup.rules.exclusions (omega arith) (omega arith)
      (omega arith) (omega arith) closed_ranked

abbrev the_tournament : Tournament
the_tournament = elim (find (b'c' ∷ []) (apply_all host history new_state).tournaments) [
  | none ↦ cup
  | some t ↦ t
]

entered : length the_tournament.entries ≡ 1
unfolding apply_all
entered = refl

there : find (b'c' ∷ []) (apply_all host history new_state).tournaments ≡ some the_tournament
unfolding apply_all
there = refl

apply_all-IsFair_example : IsFair the_tournament
apply_all-IsFair_example = apply_all-IsFair host history (b'c' ∷ []) the_tournament there

abbrev with_cup : State
with_cup = record new_state { tournaments = (b'c' ∷ [], cup) ∷ []; applied = 5 }

apply_all-IsLater_example :
    (t' : Tournament) × (find (b'c' ∷ []) (apply_all host history with_cup).tournaments ≡ some t')
    × IsLater cup t'
apply_all-IsLater_example = apply_all-IsLater host history with_cup (b'c' ∷ []) cup refl

apply_all-refuses_example :
    let s = apply_all host history (apply host 4 zero_ballot join_command with_cup).0 in
    apply host 4 zero_ballot (create_command 10) s ≡ (s, at_slot 4 Code.out_of_order)
apply_all-refuses_example =
    apply_all-refuses host with_cup 4 zero_ballot join_command history 4 zero_ballot
      (create_command 10) (omega arith)

well_formed : valid_key (b'k' ∷ b'1' ∷ []) ≡ true
unfolding valid_key
well_formed = refl

reached :
    (apply_all host
      (Chosen.chosen_command 2 zero_ballot join_command ∷ Chosen.chosen_skip 3 ∷ [])
      (apply host 1 zero_ballot (create_command 10) new_state).0).applied
    ≡ 3
unfolding apply_all
reached = refl

same_print : fingerprint host (create_command 99) ≡ fingerprint host (create_command 10)
unfolding fingerprint
same_print = refl

apply_retry_example :
    let first = apply host 1 zero_ballot (create_command 10) new_state in
    let rest = Chosen.chosen_command 2 zero_ballot join_command ∷ Chosen.chosen_skip 3 ∷ [] in
    let s = apply_all host rest first.0 in
    let (s', res) = apply host 4 zero_ballot (create_command 99) s in
    (res ≡ record first.1 { replayed = true }) × IsUntouched s s'
apply_retry_example =
    apply_retry host new_state 1 zero_ballot (create_command 10)
      (Chosen.chosen_command 2 zero_ballot join_command ∷ Chosen.chosen_skip 3 ∷ []) 4 zero_ballot
      (create_command 99) (omega arith) well_formed refl refl refl same_print
      (omega (arith, reached))

abbrev bound_player : PlayerState
bound_player = record {
  binding = record {
    device = b'd' ∷ [];
    verifier = 1 ∷ [];
    player = b'p' ∷ [];
    jurisdiction = b'T' ∷ b'R' ∷ [];
    age = 30;
    bound_at = 1;
  };
  last_seq = 4;
  entered = [];
}

abbrev with_player : State
with_player = record with_cup {
  play = record new_state.play { players = (b'p' ∷ [], bound_player) ∷ [] };
}

abbrev enter_op : Enter
enter_op = record { tournament = b'c' ∷ []; player = b'p' ∷ []; seq = 3 }

abbrev enter_command : Command
enter_command = record {
  key = b'k' ∷ b'3' ∷ [];
  received_at = 20;
  op = Op.enter_tournament enter_op;
}

enter_key : valid_key (b'k' ∷ b'3' ∷ []) ≡ true
unfolding valid_key
enter_key = refl

player_run : (apply_all host history with_player).applied ≡ 5
unfolding apply_all
player_run = refl

no_row : find (b'k' ∷ b'3' ∷ []) (apply_all host history with_player).results ≡ none
unfolding apply_all
no_row = refl

apply_all-IsStale_example :
    let s = apply_all host history with_player in
    let r = apply host 9 zero_ballot enter_command s in
    IsStale 9 s r
    × (find (b'k' ∷ b'3' ∷ []) r.0.results
        ≡ some (record { fingerprint = fingerprint host enter_command; result = r.1 }))
apply_all-IsStale_example =
    apply_all-IsStale host history with_player 9 zero_ballot enter_command bound_player refl refl
      (omega arith) enter_key (omega (arith, player_run)) no_row

-- An own event in slot 1 and a shared event in slot 3.
abbrev two_events : List EventRecord
two_events =
    record no_event { slot = 1; player = b'p' ∷ []; tournament = b'c' ∷ [] }
    ∷ record no_event { slot = 3; tournament = b'c' ∷ [] }
    ∷ []

abbrev with_events : State
with_events = record with_cup {
  play = record new_state.play {
    players = (b'p' ∷ [], record bound_player { entered = (b'c' ∷ []) ∷ [] }) ∷ [];
    events = two_events;
    own = (b'p' ∷ [], 0 ∷ []) ∷ [];
    shared = (b'c' ∷ [], 1 ∷ []) ∷ [];
  };
}

one_ascends : (x : ℕ) → Ascending (slot_in two_events (x ∷ [])) 1
one_ascends x ℕ.zero ℕ.zero order small = omega arith
one_ascends x ℕ.zero (ℕ.suc j) order small = absurd (omega arith)
one_ascends x (ℕ.suc i) ℕ.zero order small = absurd (omega arith)
one_ascends x (ℕ.suc i) (ℕ.suc j) order small = absurd (omega arith)

has_events_lem_example : has_events 2 [] (b'p' ∷ []) with_events ≡ (
    any_from 0 (λ ev. is_after 2 ev && in_tournament [] ev) two_events (0 ∷ [])
    || scan_shared 2 [] two_events with_events.play.shared ((b'c' ∷ []) ∷ []))
has_events_lem_example =
    has_events_lem 2 [] (b'p' ∷ []) with_events (record bound_player { entered = (b'c' ∷ []) ∷ [] })
      refl (one_ascends 0) (one_ascends 1, tt)

sees_shared : has_events 2 [] (b'p' ∷ []) with_events ≡ true
unfolding has_events
sees_shared = refl

letter_p : valid_id (b'p' ∷ []) ≡ true
unfolding valid_id
letter_p = refl

letter_c : valid_id (b'c' ∷ []) ≡ true
unfolding valid_id
letter_c = refl

key_of-distinct_example :
    let tid : Text = b'c' ∷ [] in
    let pid : Text = b'p' ∷ [] in (Purpose.of_prize ≡ Purpose.of_prize) × (tid ≡ tid) × (pid ≡ pid)
key_of-distinct_example =
    key_of-distinct Purpose.of_prize Purpose.of_prize (b'c' ∷ []) (b'p' ∷ []) (b'c' ∷ [])
      (b'p' ∷ []) 1 1 letter_c letter_p letter_c letter_p refl

replay-apply_example :
    let s = (apply host 1 zero_ballot (create_command 10) new_state).0 in
    let answer = record (apply host 1 zero_ballot (create_command 10) new_state).1 {
      replayed = true;
    } in
    let again = (apply host 4 zero_ballot (create_command 99) s).1 in
    again ≡ record answer { slot = again.slot }
unfolding apply replay
replay-apply_example =
    replay-apply host 4 zero_ballot (create_command 99)
      (apply host 1 zero_ballot (create_command 10) new_state).0
      (record (apply host 1 zero_ballot (create_command 10) new_state).1 { replayed = true })
      (omega arith) well_formed refl
