-- ===== src/Replog/Calls.antt =====
-- internal/replog/node.go: the calls of the host, Step, Tick, Propose and ReadIndex.
use paxos_arena.Prelude.{
  ℕ, ◌+◌, ◌-◌, ◌*◌, ◌^◌, Bool, true, false, not, ◌&&◌, ◌||◌, Option, none, some, List, [], ◌∷◌,
  ◌++◌, if◌then◌else◌, lookup, insert, length, has_key, ltb, leb, ◌==◌,
}
use paxos_arena.Paxos.{NodeId, Slot, Value, Ballot, zero_ballot, quorum}
use paxos_arena.Replog.Message.{Message, Envelope, Event}
use paxos_arena.Replog.Durable.{u64, save, save_max_round}
use paxos_arena.Replog.State.{Config, Role, Node, Read, is_leader, zero_phase1}
use paxos_arena.Replog.Plumbing.{
  begin, sort_by, sorted_keys, member, for_each, broadcast, step_down, draw_timeout,
}
use paxos_arena.Replog.Leader.{propose}
use paxos_arena.Replog.Handle.{handle, send}

abbrev pub max_value_bytes : ℕ
max_value_bytes = 2 ^ 20

pub data Refusal : Type 0 where
  store_failed : Refusal
  value_too_large : Refusal
  not_leader : NodeId → Refusal
  busy : Refusal
  not_ready : Refusal

-- `finish`: a failed node hands out nothing and forgets what it had to send.
unfoldable pub finish : Node → Node × List Envelope
finish n =
    if n.failed then (record n { out = []; events = [] }, []) else (record n { out = [] }, n.out)

-- `Events`.
unfoldable pub take_events : Node → Node × List Event
take_events n = (record n { events = [] }, n.events)

-- The largest key of a map, for `maxPendingRead`.
unfoldable pub max_pending_read : List (ℕ × Read) → ℕ
max_pending_read [] = 0
max_pending_read ((seq, r) ∷ rs) = let m = max_pending_read rs in if ltb m seq then seq else m

module _ (cfg : Config) (random : ℕ → ℕ → ℕ) where
  unfoldable pub ready : Node → Bool
  ready n =
      is_leader n.role && (cfg.unsafe.skip_leadership_no_op || leb n.first_own_slot n.commit_index)

  -- The times of `quorumContact`, in configuration order.
  unfoldable pub contact_times : ℕ → List (NodeId × ℕ) → List NodeId → List ℕ
  contact_times now contacts [] = []
  contact_times now contacts (p ∷ ps) =
      if p == cfg.self then now ∷ contact_times now contacts ps else elim (lookup p contacts) [
        | none ↦ contact_times now contacts ps
        | some t ↦ t ∷ contact_times now contacts ps
      ]

  -- The element at `i` counted from the end.
  nth_last : ℕ → List ℕ → ℕ → ℕ
  nth_last i [] d = d
  nth_last i (t ∷ ts) d = if i == length ts then t else nth_last i ts d

  unfoldable pub quorum_contact : ℕ → Node → ℕ
  unfolding contact_times nth_last sort_by
  quorum_contact now n =
      let times = contact_times now n.contacts cfg.peers in
      if ltb (length times) (quorum (length cfg.peers))
      then n.leader_since
      else nth_last (quorum (length cfg.peers) - 1) (sort_by (λ t. t) times) n.leader_since

  unfoldable pub start_election : ℕ → Node → Node
  unfolding draw_timeout
  start_election now n =
      let r = u64 (n.max_round + 1) in
      let n' = record n { core = save (save_max_round r) (record (n.core) { max_round = r }) } in
      let b : Ballot = record { round = r; node = cfg.self } in
      if n'.failed
      then n'
      else broadcast cfg random (send cfg random) now
          (Message.prepare b (u64 (n'.commit_index + 1))) true
          (record n' {
            ballot = b;
            role = Role.candidate;
            phase1 = record {
              from_slot = u64 (n'.commit_index + 1);
              promises = [];
              deadline = now + draw_timeout cfg random n';
              last_sent = now;
            };
            draws = n'.draws + 1;
          })

  -- A candidate asks again those that have not promised.
  unfoldable pub retry_prepare : ℕ → Node → Node
  retry_prepare now n =
      for_each cfg.peers
        (λ p n.
          if p == cfg.self || has_key p n.phase1.promises
          then n
          else send cfg random now p (Message.prepare n.ballot n.phase1.from_slot) n)
        (record n { phase1 = record (n.phase1) { last_sent = now } })

  unfoldable pub tick_candidate : ℕ → Node → Node
  unfolding draw_timeout retry_prepare
  tick_candidate now n =
      if leb n.phase1.deadline now
      then record n {
        role = Role.follower;
        phase1 = zero_phase1;
        election_deadline = now + draw_timeout cfg random n;
        draws = n.draws + 1;
      }
      else if leb (n.phase1.last_sent + cfg.heartbeat_interval) now
      then retry_prepare now n
      else n

  -- One round of the retransmission loop. It stops where the node no longer leads.
  unfoldable pub resend : ℕ → Slot → Node → Node
  resend now s n = if not (is_leader n.role) then n else elim (lookup s n.proposals) [
    | none ↦ n
    | some p ↦
        if leb (p.last_sent + cfg.heartbeat_interval) now
        then broadcast cfg random (send cfg random) now (Message.accept n.ballot s p.value) false
            (record n { proposals = insert s (record p { last_sent = now }) n.proposals })
        else n
  ]

  unfoldable pub beat : ℕ → Node → Node
  beat now n =
      if leb (n.last_heartbeat + cfg.heartbeat_interval) now
      then broadcast cfg random (send cfg random) now
          (Message.heartbeat (record {
            ballot = n.ballot;
            commit_index = n.commit_index;
            read_seq = max_pending_read n.reads;
          }))
          true (record n { last_heartbeat = now })
      else n

  unfoldable pub check_contact : ℕ → Node → Node
  unfolding quorum_contact
  check_contact now n =
      if not (is_leader n.role)
      then n
      else if ltb cfg.election_timeout_max (now - quorum_contact now n)
      then step_down cfg random now 0 zero_ballot 0 n
      else n

  unfoldable pub tick_leader : ℕ → Node → Node
  unfolding beat resend check_contact
  tick_leader now n =
      let beaten = beat now n in
      if not (is_leader beaten.role)
      then beaten
      else check_contact now (for_each (sorted_keys beaten.proposals) (resend now) beaten)

  unfoldable pub tick_as : Role → ℕ → Node → Node
  unfolding start_election tick_candidate tick_leader
  tick_as Role.follower now n =
      if leb n.election_deadline now && (cfg.lease_duration == 0 || leb n.lease_until now)
      then start_election now n
      else n
  tick_as Role.candidate now n = tick_candidate now n
  tick_as Role.leader now n = tick_leader now n

  -- `Step`.
  unfoldable pub step : ℕ → Envelope → Node → Node × List Envelope
  unfolding begin finish member
  step now env n =
      let n' = begin cfg random now n in
      if n.failed
      then (n, [])
      else finish (
          if env.receiver == cfg.self && member env.sender cfg.peers
          then handle cfg random (5 + 2 * length n'.queue) now env n'
          else n')

  -- `Tick`.
  unfoldable pub tick : ℕ → Node → Node × List Envelope
  unfolding begin finish tick_as
  tick now n =
      let n' = begin cfg random now n in
      if n.failed then (n, []) else finish (tick_as n'.role now n')

  -- What `finish` returns, with an error.
  unfoldable pub answer : Option Refusal → Node → Node × List Envelope × Option Refusal
  unfolding finish
  answer e n = let (n', sent) = finish n in (n', sent, e)

  -- `Propose`. The error comes with the messages; both may be there.
  unfoldable pub propose_call : ℕ → Value → Node → Node × List Envelope × Option Refusal
  unfolding begin answer
  propose_call now v n =
      let n' = begin cfg random now n in
      if n.failed
      then (n, [], some Refusal.store_failed)
      else if ltb max_value_bytes (length v)
      then (n', [], some Refusal.value_too_large)
      else if not (is_leader n'.role)
      then (n', [], some (Refusal.not_leader n'.leader_hint))
      else if ltb (length n'.proposals) cfg.window
      then answer none (
          let p = propose cfg random (send cfg random) now n'.next_slot v n' in
          record p { next_slot = u64 (p.next_slot + 1) })
      else if leb cfg.queue_limit (length n'.queue)
      then answer (some Refusal.busy) n'
      else answer none (record n' { queue = n'.queue ++ v ∷ [] })

  -- `ReadIndex`. The sequence number is 0 where it fails.
  unfoldable pub read_index : ℕ → Node → Node × ℕ × List Envelope × Option Refusal
  unfolding begin finish ready
  read_index now n =
      let n' = begin cfg random now n in
      let seq = u64 (n'.read_seq + 1) in
      let asked =
        broadcast cfg random (send cfg random) now
          (Message.heartbeat
            (record { ballot = n'.ballot; commit_index = n'.commit_index; read_seq = seq }))
          true
          (record n' {
            read_seq = seq;
            reads =
                insert seq (record { index = n'.commit_index; acks = (cfg.self, tt) ∷ [] })
                  n'.reads;
            last_heartbeat = now;
          }) in
      if n.failed
      then (n, 0, [], some Refusal.store_failed)
      else if not (is_leader n'.role)
      then (n', 0, [], some (Refusal.not_leader n'.leader_hint))
      else if not (ready n')
      then (n', 0, [], some Refusal.not_ready)
      else (let (m, sent) = finish asked in (m, seq, sent, none))
