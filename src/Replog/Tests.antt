-- ===== src/Replog/Tests.antt =====
-- A node of three started from a store with one vote, taken to leadership, and inputs at which the
-- theorems on runs apply.
use paxos_arena.Prelude.{true, none, ◌≢◌, ℕ, ◌+◌, ◌^◌, ◌<◌, ◌≡◌, refl, false, [], ◌∷◌, arith}
use paxos_arena.Paxos.{Ballot, PValue, less, is_zero, may_promise, same_ballot, compare_ballots}
use paxos_arena.Replog.Message.{Envelope, Message}
use paxos_arena.Replog.Durable.{
  Store, save, save_as, save_promised, save_max_round, advance, advance_commit,
}
use paxos_arena.Replog.Plumbing.{
  draw_timeout, begin, set_promised, raise_promise, raise_to, promise_to, step_down, refresh_lease,
  note_leader, emit, send_with, sort_by, insert_sorted, sorted_keys, member,
}
use paxos_arena.Replog.Acceptor.{on_prepare, answer_prepare, leased, values_from, accepted_from}
use paxos_arena.Replog.Handle.{handle, dispatch}
use paxos_arena.Replog.State.{Config, Node, no_knobs, new_node, load}
use paxos_arena.Replog.Calls.{step, tick, propose_call, finish}
use paxos_arena.Replog.Machine.{CoreSteps}
use paxos_arena.Replog.Machine.Invariant.{StoreOk, CoreOk}
use paxos_arena.Replog.Machine.Growth.{Grows}
use paxos_arena.Replog.Run.{Run, fresh, stepped, ticked, proposed}
use paxos_arena.Replog.Validity.{
  validate_config, with_defaults, check_peers, check_settings, after_peers, check_config,
}
use paxos_arena.Replog.Validity.Bounds.{IsFresh, IsWide, IsSettled, validate_config_lem}
use paxos_arena.Replog.Fuel.Calls.{Run-stuck}
use paxos_arena.Replog.Run.Safety.{
  Run-CoreSteps, Run-CoreOk, Run-Grows, restart-load, saved_before_sent, SavedOrSilent,
}

abbrev three : Config
three = record {
  self = 1;
  peers = 1 ∷ 2 ∷ 3 ∷ [];
  heartbeat_interval = 50;
  election_timeout_min = 150;
  election_timeout_max = 300;
  lease_duration = 0;
  window = 8;
  learn_batch = 64;
  queue_limit = 16;
  unsafe = no_knobs;
}

abbrev no_random : ℕ → ℕ → ℕ
no_random i k = 0

abbrev two : Ballot
two = record { round = 2; node = 2 }

abbrev vote : PValue
vote = record { ballot = two; slot = 1; value = 7 ∷ [] }

abbrev disk : Store
disk = record { promised = two; max_round = 2; accepted = (1, vote) ∷ []; chosen = [] }

disk-StoreOk : StoreOk disk
unfolding less is_zero
disk-StoreOk = record { rounds = omega arith; votes = ((refl, refl, refl), tt) }

abbrev booted : Node
booted = new_node three disk []

-- Node 2 asks for ballot 3.2 at time 10.
abbrev asks : Envelope
asks = record { sender = 2; receiver = 1; msg = Message.prepare (record { round = 3; node = 2 }) 1 }

abbrev promised_node : Node
promised_node = (step three no_random 10 asks booted).0

asked-Run : Run three no_random booted promised_node
asked-Run = stepped 10 asks fresh

room : promised_node.max_round + 1 < 2 ^ 64
unfolding step begin draw_timeout finish handle dispatch on_prepare answer_prepare leased
    set_promised raise_promise raise_to promise_to step_down save save_as save_promised
    save_max_round refresh_lease note_leader emit send_with values_from accepted_from sort_by
    insert_sorted sorted_keys member new_node load advance advance_commit less is_zero may_promise
    same_ballot compare_ballots
room = omega arith

alive : promised_node.failed ≡ false
unfolding step begin draw_timeout finish handle dispatch on_prepare answer_prepare leased
    set_promised raise_promise raise_to promise_to step_down save save_as save_promised
    save_max_round refresh_lease note_leader emit send_with values_from accepted_from sort_by
    insert_sorted sorted_keys member new_node load advance advance_commit less is_zero may_promise
    same_ballot compare_ballots
alive = refl

-- Its timeout passes at 400, and it proposes 9.
abbrev candidate_node : Node
candidate_node = (tick three no_random 400 promised_node).0

abbrev proposed_node : Node
proposed_node = (propose_call three no_random 401 (9 ∷ []) candidate_node).0

long-Run : Run three no_random booted proposed_node
long-Run = proposed 401 (9 ∷ []) (ticked 400 room asked-Run)

run-CoreSteps_example : CoreSteps booted.core proposed_node.core
run-CoreSteps_example = Run-CoreSteps three no_random refl long-Run

run-CoreOk_example : CoreOk proposed_node.core
run-CoreOk_example = Run-CoreOk three no_random refl disk [] disk-StoreOk long-Run

run-Grows_example : Grows booted.core proposed_node.core
run-Grows_example =
    Run-Grows three no_random refl (Run-CoreOk three no_random refl disk [] disk-StoreOk fresh)
      long-Run

restart-load_example :
    ((load no_knobs promised_node.store []).promised ≡ promised_node.promised)
    × ((load no_knobs promised_node.store []).max_round ≡ promised_node.max_round)
    × ((load no_knobs promised_node.store []).accepted ≡ promised_node.accepted)
    × ((load no_knobs promised_node.store []).chosen ≡ promised_node.chosen)
restart-load_example = restart-load three no_random refl disk [] [] disk-StoreOk asked-Run alive

saved_before_sent_example :
    SavedOrSilent (step three no_random 400 asks promised_node)
    × SavedOrSilent (tick three no_random 400 promised_node)
saved_before_sent_example =
    saved_before_sent three no_random refl disk [] disk-StoreOk asked-Run room 400 asks

booted_unstuck : booted.stuck ≡ false
unfolding new_node
booted_unstuck = refl

Run-stuck_example : proposed_node.stuck ≡ false
Run-stuck_example = Run-stuck three no_random booted_unstuck long-Run

three_valid : validate_config three ≡ none
unfolding validate_config with_defaults check_config check_peers after_peers check_settings member
three_valid = refl

three-IsWide : IsWide three
three-IsWide = record {
  beat_wide = omega arith;
  low_wide = omega arith;
  high_wide = omega arith;
  lease_wide = omega arith;
  window_wide = omega arith;
  batch_wide = omega arith;
  queue_wide = omega arith;
}

validate_config_lem_example :
    let d = with_defaults three in
    (d.self ≢ 0) × (member d.self d.peers ≡ true) × IsFresh d.peers [] × IsSettled d
validate_config_lem_example = validate_config_lem three three-IsWide three_valid
