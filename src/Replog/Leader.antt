-- ===== src/Replog/Leader.antt =====
-- internal/replog/node.go, learning and "candidate and leader rules".
use paxos_arena.Prelude.{
  ℕ, zero, suc, ◌+◌, ◌-◌, true, false, not, ◌&&◌, ◌||◌, none, some, List, [], ◌∷◌, ◌++◌, map, ◌^◌,
  if◌then◌else◌, lookup, insert, length, ltb, leb, ◌==◌,
}
use paxos_arena.Paxos.{
  NodeId, Slot, Value, Ballot, PValue, less, same_ballot, zero_ballot, quorum, choose, value_equal,
}
use paxos_arena.Replog.Message.{Promise, Nack, Entry, Message, HeartbeatAck, Event}
use paxos_arena.Replog.Durable.{u64}
use paxos_arena.Replog.State.{
  Config, Role, Node, Proposal, Phase1, is_leader, is_candidate, is_follower,
}
use paxos_arena.Replog.Plumbing.{
  Send, raise_to, sorted_keys, erase, for_each, emit, broadcast, step_down,
}
use paxos_arena.Replog.Acceptor.{put_chosen}

-- `reports[slot]` of `becomeLeader`: the reports for one slot, by promise and then by position.
unfoldable pub reports_for : Slot → List PValue → List PValue
reports_for s [] = []
reports_for s (pv ∷ pvs) = if pv.slot == s then pv ∷ reports_for s pvs else reports_for s pvs

-- The reports of one promise that are in range.
unfoldable pub in_range : Slot → List PValue → List PValue
in_range from [] = []
in_range from (pv ∷ pvs) = if ltb pv.slot from then in_range from pvs else pv ∷ in_range from pvs

unfoldable pub all_reports : Slot → List (NodeId × Promise) → List PValue
unfolding in_range
all_reports from [] = []
all_reports from ((a, m) ∷ ms) = in_range from m.accepted ++ all_reports from ms

unfoldable pub top_slot : List Slot → Slot → Slot
top_slot [] top = top
top_slot (s ∷ ss) top = top_slot ss (if ltb top s then s else top)

-- The slots `s`, `s + 1`, … of a loop with `count` rounds.
unfoldable pub slots_from : ℕ → Slot → List Slot
slots_from zero s = []
slots_from (suc count) s = s ∷ slots_from count (s + 1)

-- The last slot, and `- 1` on a uint64.
abbrev pub last_slot : Slot
last_slot = 2 ^ 64 - 1

module _ (cfg : Config) (random : ℕ → ℕ → ℕ) (send : Send) where
  unfoldable pub propose : ℕ → Slot → Value → Node → Node
  propose now s v n = broadcast cfg random send now (Message.accept n.ballot s v) true (record n {
    proposals = insert s (record { value = v; accepts = []; last_sent = now }) n.proposals;
  })

  -- The loop of `drainQueue`: every round takes a value off the queue, so `fuel` is its length.
  unfoldable pub drain : ℕ → ℕ → Node → Node
  drain zero now n = n
  drain (suc fuel) now n = elim n.queue [
    | [] ↦ n
    | v ∷ vs ↦
        (let go = drain fuel now (
            let n' = propose now n.next_slot v (record n { queue = vs }) in
            record n' { next_slot = u64 (n'.next_slot + 1) }) in
          if ltb (length n.proposals) cfg.window && is_leader n.role && not n.failed then go else n)
  ]

  unfoldable pub drain_queue : ℕ → Node → Node
  unfolding drain
  drain_queue now n = drain (length n.queue) now n

  unfoldable pub learn : ℕ → Entry → Node → Node
  learn now e n =
      let n' = record n { core = put_chosen e n.core } in
      if n'.failed
      then n'
      else (let dropped = record n' { proposals = erase e.slot n'.proposals } in
          if is_leader dropped.role then drain_queue now dropped else dropped)

  unfoldable pub on_learn : ℕ → Entry → Node → Node
  on_learn now got n = if got.slot == 0 then n else elim (lookup got.slot n.chosen) [
    | none ↦ learn now got n
    | some have ↦
        if not (value_equal have.value got.value)
        then emit (Event.learn_conflict got.slot have got) n
        else n
  ]

  -- `contacts` of `becomeLeader`: every node that promised, heard from now.
  unfoldable pub contacts_at : ℕ → List NodeId → List (NodeId × ℕ)
  contacts_at now [] = []
  contacts_at now (a ∷ as') = (a, now) ∷ contacts_at now as'

  -- The loop of `becomeLeader` over the slots to take over. It stops where the node has failed or
  -- no longer leads.
  unfoldable pub take_over : ℕ → List PValue → List Slot → Node → Node
  take_over now reports [] n = n
  take_over now reports (s ∷ ss) n =
      let v = if cfg.unsafe.ignore_phase1_reports then [] else choose (reports_for s reports) [] in
      elim (lookup s n.chosen) [
        | some _ ↦ take_over now reports ss n
        | none ↦
            (let n' = propose now s v n in
              let go = take_over now reports ss n' in
              if n'.failed || not (is_leader n'.role) then n' else go)
      ]

  -- `reports` of `becomeLeader`, the promises walked in node order.
  unfoldable pub promised_reports : Phase1 → List PValue
  promised_reports ph = all_reports ph.from_slot (
      map
        (λ a. (
          a,
          elim (lookup a ph.promises) [
            | none ↦ record { ballot = zero_ballot; accepted = []; commit_index = 0 }
            | some m ↦ m
          ],
        ))
        (sorted_keys ph.promises))

  -- `top`: the highest slot that a promise reports or the node knows to be chosen.
  unfoldable pub takeover_top : Node → Slot
  unfolding promised_reports
  takeover_top n = top_slot (map (λ e. e.0) n.chosen) (
      top_slot (map (λ pv. pv.slot) (promised_reports n.phase1))
        (u64 (n.phase1.from_slot + last_slot)))

  -- The fields that `becomeLeader` sets before it proposes.
  unfoldable pub as_leader : ℕ → Node → Node
  unfolding contacts_at takeover_top
  as_leader now n = record n {
    role = Role.leader;
    leader_hint = cfg.self;
    leader_ballot = n.ballot;
    leader_since = now;
    last_heartbeat = now;
    proposals = [];
    reads = [];
    contacts = contacts_at now (sorted_keys n.phase1.promises);
    events = n.events ++ Event.leader_changed cfg.self n.ballot true ∷ [];
    first_own_slot = u64 (takeover_top n + 1);
    next_slot = u64 (u64 (takeover_top n + 1) + 1);
  }

  -- The end of `becomeLeader`: the leadership no-op, then the queue.
  unfoldable pub mark_leadership : ℕ → Node → Node
  mark_leadership now n =
      let marked = propose now n.first_own_slot [] n in
      if n.failed || not (is_leader n.role)
      then n
      else if marked.failed || not (is_leader marked.role)
      then marked
      else drain_queue now marked

  -- What follows the takeover of the slots up to `top`. A loop up to the last slot passes over it to
  -- slot 0 and goes on; `endless` marks it there.
  unfoldable pub after_takeover : ℕ → Slot → Node → Node
  unfolding mark_leadership
  after_takeover now top n =
      let marked = mark_leadership now n in
      if top == last_slot && not n.failed && is_leader n.role
      then record n { endless = true }
      else marked

  unfoldable pub become_leader : ℕ → Node → Node
  unfolding as_leader after_takeover
  become_leader now n =
      let from = n.phase1.from_slot in
      after_takeover now (takeover_top n) (
        take_over now (promised_reports n.phase1) (slots_from (takeover_top n + 1 - from) from)
          (as_leader now n))

  unfoldable pub on_promise : ℕ → NodeId → Promise → Node → Node
  on_promise now from m n =
      if not (is_candidate n.role) || not (same_ballot m.ballot n.ballot)
      then n
      else (let n' = record n {
        phase1 = record (n.phase1) { promises = insert from m n.phase1.promises };
      } in
          if leb (quorum (length cfg.peers)) (length n'.phase1.promises)
          then become_leader now n'
          else n')

  -- The end of `onAccepted`, with the vote of `from` counted in `p`.
  unfoldable pub count_vote : ℕ → Slot → Proposal → Node → Node
  count_vote now s p n =
      if ltb (length p.accepts) (quorum (length cfg.peers))
      then n
      else (let e : Entry = record { slot = s; ballot = n.ballot; value = p.value } in
          let n' = learn now e n in
          if n'.failed then n' else broadcast cfg random send now (Message.learn e) false n')

  unfoldable pub on_accepted : ℕ → NodeId → Ballot → Slot → Node → Node
  unfolding count_vote
  on_accepted now from b s n =
      if not (is_leader n.role) || not (same_ballot b n.ballot)
      then n
      else elim (lookup s n.proposals) [
        | none ↦ n
        | some p ↦
            (let p' = record p { accepts = insert from tt p.accepts } in
              count_vote now s p' (record n { proposals = insert s p' n.proposals }))
      ]

  unfoldable pub on_nack : ℕ → Nack → Node → Node
  unfolding raise_to
  on_nack now m n =
      if is_follower n.role || not (same_ballot m.ballot n.ballot)
      then n
      else if not (less n.ballot m.promised)
      then n
      else (let n' = record n { core = raise_to m.promised.round n.core } in
          if n'.failed
          then n'
          else step_down cfg random now m.promised.node m.promised m.lease_remaining n')

  -- One round of the loop of `onHeartbeatAck`.
  unfoldable pub ack_read : NodeId → ℕ → ℕ → Node → Node
  ack_read from up_to seq n = elim (lookup seq n.reads) [
    | none ↦ n
    | some r ↦
        (let r' = record r { acks = insert from tt r.acks } in
          if ltb up_to seq
          then n
          else if leb (quorum (length cfg.peers)) (length r'.acks)
          then emit (Event.read_ready seq r'.index) (record n { reads = erase seq n.reads })
          else record n { reads = insert seq r' n.reads })
  ]

  unfoldable pub on_heartbeat_ack : ℕ → NodeId → HeartbeatAck → Node → Node
  unfolding raise_to
  on_heartbeat_ack now from m n =
      if is_follower n.role
      then n
      else if less n.ballot m.promised
      then (let n' = record n { core = raise_to m.promised.round n.core } in
          if n'.failed then n' else step_down cfg random now m.promised.node m.promised 0 n')
      else if not (is_leader n.role) || not (same_ballot m.ballot n.ballot)
      then n
      else (let heard = record n { contacts = insert from now n.contacts } in
          if not (same_ballot m.promised n.ballot)
          then heard
          else for_each (sorted_keys heard.reads) (ack_read from m.read_seq) heard)
