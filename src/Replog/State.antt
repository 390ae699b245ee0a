-- ===== src/Replog/State.antt =====
-- internal/replog/config.go and the Node of internal/replog/node.go: configuration and state.
use paxos_arena.Prelude.{ℕ, Bool, true, false, List, [], if◌then◌else◌, ltb}
use paxos_arena.Paxos.{NodeId, Slot, Value, Ballot, zero_ballot}
use paxos_arena.Replog.Message.{Promise, Envelope, Event}
use paxos_arena.Replog.Durable.{Core, Store, Outcome, advance_commit}

pub data Role : Type 0 where
  follower candidate leader : Role

pub record Knobs : Type 0 where
  pub accept_below_promise : Bool
  pub ignore_phase1_reports : Bool
  pub skip_leadership_no_op : Bool
  pub forget_accepted_on_restart : Bool

-- `Unsafe == nil`, as in production.
abbrev pub no_knobs : Knobs
no_knobs = record {
  accept_below_promise = false;
  ignore_phase1_reports = false;
  skip_leadership_no_op = false;
  forget_accepted_on_restart = false;
}

-- Times are nanoseconds. A signed field is its residue modulo 2 ^ 64; a valid configuration and a
-- host's clock keep them at 0 or more.
pub record Config : Type 0 where
  pub self : NodeId
  pub peers : List NodeId
  pub heartbeat_interval : ℕ
  pub election_timeout_min : ℕ
  pub election_timeout_max : ℕ
  pub lease_duration : ℕ
  pub window : ℕ
  pub learn_batch : ℕ
  pub queue_limit : ℕ
  pub unsafe : Knobs

pub record Proposal : Type 0 where
  pub value : Value
  pub accepts : List (NodeId × Unit {0})
  pub last_sent : ℕ

pub record Phase1 : Type 0 where
  pub from_slot : Slot
  pub promises : List (NodeId × Promise)
  pub deadline : ℕ
  pub last_sent : ℕ

abbrev pub zero_phase1 : Phase1
zero_phase1 = record { from_slot = 0; promises = []; deadline = 0; last_sent = 0 }

pub record Read : Type 0 where
  pub index : Slot
  pub acks : List (NodeId × Unit {0})

-- `draws` counts the random numbers taken so far. `stuck` marks a run whose nesting of messages to
-- itself went past the fuel of `handle`; `endless` marks a call that does not return, the takeover
-- whose top slot is the last of uint64, so that `s <= top` never fails.
pub record Node : Type 0 where
  pub core : Core
  pub open core use {promised, max_round, accepted, chosen, commit_index, store, failed}
  pub lease_holder : NodeId
  pub lease_until : ℕ
  pub leader_hint : NodeId
  pub leader_ballot : Ballot
  pub election_deadline : ℕ
  pub started : Bool
  pub learn_req_after : ℕ
  pub role : Role
  pub ballot : Ballot
  pub phase1 : Phase1
  pub proposals : List (Slot × Proposal)
  pub next_slot : Slot
  pub first_own_slot : Slot
  pub queue : List Value
  pub contacts : List (NodeId × ℕ)
  pub leader_since : ℕ
  pub last_heartbeat : ℕ
  pub read_seq : ℕ
  pub reads : List (ℕ × Read)
  pub out : List Envelope
  pub events : List Event
  pub draws : ℕ
  pub stuck : Bool
  pub endless : Bool

abbrev pub is_follower : Role → Bool
is_follower Role.follower = true
is_follower _ = false

abbrev pub is_candidate : Role → Bool
is_candidate Role.candidate = true
is_candidate _ = false

abbrev pub is_leader : Role → Bool
is_leader Role.leader = true
is_leader _ = false

abbrev pub raise_to_promise : Core → Core
raise_to_promise c =
    if ltb c.max_round c.promised.round then record c { max_round = c.promised.round } else c

-- The core that `New` builds from what the store holds.
unfoldable pub load : Knobs → Store → List Outcome → Core
load knobs s faults = raise_to_promise (
    advance_commit (record {
      promised = s.promised;
      max_round = s.max_round;
      accepted = if knobs.forget_accepted_on_restart then [] else s.accepted;
      chosen = s.chosen;
      commit_index = 0;
      store = s;
      faults = faults;
      failed = false;
    }))

-- `New`, for a configuration that `Validate` accepts, and with the defaults filled in.
unfoldable pub new_node : Config → Store → List Outcome → Node
new_node cfg s faults = record {
  core = load cfg.unsafe s faults;
  lease_holder = 0;
  lease_until = 0;
  leader_hint = 0;
  leader_ballot = zero_ballot;
  election_deadline = 0;
  started = false;
  learn_req_after = 0;
  role = Role.follower;
  ballot = zero_ballot;
  phase1 = zero_phase1;
  proposals = [];
  next_slot = 0;
  first_own_slot = 0;
  queue = [];
  contacts = [];
  leader_since = 0;
  last_heartbeat = 0;
  read_seq = 0;
  reads = [];
  out = [];
  events = [];
  draws = 0;
  stuck = false;
  endless = false;
}
