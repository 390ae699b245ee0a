-- ===== src/Replog/Refinement/Leaders.antt =====
-- The candidate's and the leader's handlers are steps of the machine.
use paxos_arena.Prelude.{
  if_ind, ℕ, zero, suc, ◌+◌, ◌≡◌, Bool, true, false, not, ◌&&◌, ◌||◌, Option, none, some, List, [],
  ◌∷◌, if◌then◌else◌, lookup, length, ltb, leb, ◌==◌, insert, arith,
}
use paxos_arena.Paxos.{
  NodeId, Slot, Value, Ballot, PValue, less, same_ballot, quorum, choose, value_equal,
}
use paxos_arena.Replog.Message.{Message, Promise, Nack, HeartbeatAck, Entry, Event}
use paxos_arena.Replog.Durable.{Core, u64}
use paxos_arena.Replog.State.{Config, Node, Proposal, is_leader, is_candidate, is_follower}
use paxos_arena.Replog.Plumbing.{Send, raise_to, sorted_keys, erase, emit, step_down}
use paxos_arena.Replog.Acceptor.{put_chosen}
use paxos_arena.Replog.Leader.{
  propose, drain, drain_queue, learn, on_learn, take_over, as_leader, mark_leadership,
  after_takeover, last_slot, become_leader, on_promise, count_vote, on_accepted, on_nack, ack_read,
  on_heartbeat_ack, reports_for,
}
use paxos_arena.Replog.Machine.{CoreSteps, next, learn_entry}
use paxos_arena.Replog.Refinement.Base.{From, Keeps, raise_to-Steps, for_each-From, broadcast-From}

module _ (cfg : Config) (random : ℕ → ℕ → ℕ) (c : Core) (send : Send) (keep : Keeps c send) where
  pub propose-From :
      (now : ℕ) (s : Slot) (v : Value) (n : Node)
      → From c n
      → From c (propose cfg random send now s v n)
  unfolding propose
  propose-From now s v n h =
      broadcast-From cfg random c send keep now (Message.accept n.ballot s v) true
        (record n {
          proposals = insert s (record { value = v; accepts = []; last_sent = now }) n.proposals;
        })
        h

  drain-From : (fuel now : ℕ) (n : Node) → From c n → From c (drain cfg random send fuel now n)
  unfolding drain
  drain-From zero now n h = h
  drain-From (suc fuel) now n h = go n.queue (drain-From fuel now)
    where
      open_slot : Bool
      open_slot = ltb (length n.proposals) cfg.window && is_leader n.role && not n.failed

      go :
          (vs : List Value)
          → ((m : Node) → From c m → From c (drain cfg random send fuel now m))
          → From c (elim vs [
            | [] ↦ n
            | v ∷ vs ↦
                (let go = drain cfg random send fuel now (
                    let n' = propose cfg random send now n.next_slot v (record n { queue = vs }) in
                    record n' { next_slot = u64 (n'.next_slot + 1) }) in
                  if open_slot then go else n)
          ])
      go [] ih = h
      go (v ∷ vs) ih =
          let n' = propose cfg random send now n.next_slot v (record n { queue = vs }) in
          if_ind (From c) open_slot
            (λ _.
              ih (record n' { next_slot = u64 (n'.next_slot + 1) })
                (propose-From now n.next_slot v (record n { queue = vs }) h))
            (λ _. h)

  drain_queue-From : (now : ℕ) (n : Node) → From c n → From c (drain_queue cfg random send now n)
  unfolding drain_queue
  drain_queue-From now n h = drain-From (length n.queue) now n h

  learn-From :
      (now : ℕ) (e : Entry) (n : Node)
      → n.failed ≡ false
      → From c n
      → From c (learn cfg random send now e n)
  unfolding learn
  learn-From now e n ok h =
      let h' : CoreSteps c (put_chosen e n.core) = next h (learn_entry e ok) in
      let n' = record n { core = put_chosen e n.core; proposals = erase e.slot n.proposals } in
      if_ind (From c) (put_chosen e n.core).failed (λ _. h')
        (λ _. if_ind (From c) (is_leader n.role) (λ _. drain_queue-From now n' h') (λ _. h'))

  pub on_learn-From :
      (now : ℕ) (e : Entry) (n : Node)
      → n.failed ≡ false
      → From c n
      → From c (on_learn cfg random send now e n)
  unfolding on_learn emit
  on_learn-From now e n ok h =
      if_ind (From c) (e.slot == 0) (λ _. h) (λ _. go (lookup e.slot n.chosen))
    where
      go :
          (o : Option Entry)
          → From c (elim o [
            | none ↦ learn cfg random send now e n
            | some have ↦
                if not (value_equal have.value e.value)
                then emit (Event.learn_conflict e.slot have e) n
                else n
          ])
      go none = learn-From now e n ok h
      go (some have) = if_ind (From c) (not (value_equal have.value e.value)) (λ _. h) (λ _. h)

  take_over-From :
      (now : ℕ) (reports : List PValue) (ss : List Slot) (n : Node)
      → From c n
      → From c (take_over cfg random send now reports ss n)
  unfolding take_over
  take_over-From now reports [] n h = h
  take_over-From now reports (s ∷ ss) n h = go (lookup s n.chosen) (take_over-From now reports ss)
    where
      v : Value
      v = if cfg.unsafe.ignore_phase1_reports then [] else choose (reports_for s reports) []

      n' : Node
      n' = propose cfg random send now s v n

      h' : From c n'
      h' = propose-From now s v n h

      go :
          (o : Option Entry)
          → ((m : Node) → From c m → From c (take_over cfg random send now reports ss m))
          → From c (elim o [
            | some _ ↦ take_over cfg random send now reports ss n
            | none ↦
                (let go = take_over cfg random send now reports ss n' in
                  if n'.failed || not (is_leader n'.role) then n' else go)
          ])
      go (some _) ih = ih n h
      go none ih = if_ind (From c) (n'.failed || not (is_leader n'.role)) (λ _. h') (λ _. ih n' h')

  mark_leadership-From :
      (now : ℕ) (n : Node) → From c n → From c (mark_leadership cfg random send now n)
  unfolding mark_leadership
  mark_leadership-From now n h =
      let marked = propose cfg random send now n.first_own_slot [] n in
      let h' = propose-From now n.first_own_slot [] n h in
      if_ind (From c) (n.failed || not (is_leader n.role)) (λ _. h)
        (λ _.
          if_ind (From c) (marked.failed || not (is_leader marked.role)) (λ _. h')
            (λ _. drain_queue-From now marked h'))

  after_takeover-From :
      (now : ℕ) (top : Slot) (n : Node)
      → From c n
      → From c (after_takeover cfg random send now top n)
  unfolding after_takeover
  after_takeover-From now top n h =
      if_ind (From c) (top == last_slot && not n.failed && is_leader n.role) (λ _. h)
        (λ _. mark_leadership-From now n h)

  become_leader-From :
      (now : ℕ) (n : Node) → From c n → From c (become_leader cfg random send now n)
  unfolding become_leader as_leader
  become_leader-From now n h =
      after_takeover-From now _ _ (take_over-From now _ _ (as_leader cfg random send now n) h)

  pub on_promise-From :
      (now : ℕ) (from : NodeId) (m : Promise) (n : Node)
      → From c n
      → From c (on_promise cfg random send now from m n)
  unfolding on_promise
  on_promise-From now from m n h =
      let ph = record (n.phase1) { promises = insert from m n.phase1.promises } in
      let n' = record n { phase1 = ph } in
      if_ind (From c) (not (is_candidate n.role) || not (same_ballot m.ballot n.ballot)) (λ _. h)
        (λ _.
          if_ind (From c) (leb (quorum (length cfg.peers)) (length ph.promises))
            (λ _. become_leader-From now n' h) (λ _. h))

  count_vote-From :
      (now : ℕ) (s : Slot) (p : Proposal) (n : Node)
      → n.failed ≡ false
      → From c n
      → From c (count_vote cfg random send now s p n)
  unfolding count_vote
  count_vote-From now s p n ok h =
      let e : Entry = record { slot = s; ballot = n.ballot; value = p.value } in
      let n' = learn cfg random send now e n in
      let h' = learn-From now e n ok h in
      if_ind (From c) (ltb (length p.accepts) (quorum (length cfg.peers))) (λ _. h)
        (λ _.
          if_ind (From c) n'.failed (λ _. h')
            (λ _. broadcast-From cfg random c send keep now (Message.learn e) false n' h'))

  pub on_accepted-From :
      (now : ℕ) (from : NodeId) (b : Ballot) (s : Slot) (n : Node)
      → n.failed ≡ false
      → From c n
      → From c (on_accepted cfg random send now from b s n)
  unfolding on_accepted
  on_accepted-From now from b s n ok h =
      if_ind (From c) (not (is_leader n.role) || not (same_ballot b n.ballot)) (λ _. h)
        (λ _. go (lookup s n.proposals))
    where
      go :
          (o : Option Proposal)
          → From c (elim o [
            | none ↦ n
            | some p ↦
                (let p' = record p { accepts = insert from tt p.accepts } in
                  count_vote cfg random send now s p'
                    (record n { proposals = insert s p' n.proposals }))
          ])
      go none = h
      go (some p) =
          let p' = record p { accepts = insert from tt p.accepts } in
          count_vote-From now s p' (record n { proposals = insert s p' n.proposals }) ok h

  stepped-From :
      (now : ℕ) (r : ℕ) (b : Ballot) (wait : ℕ) (n : Node)
      → n.failed ≡ false
      → From c n
      → let n' = record n { core = raise_to r n.core } in
        From c (if n'.failed then n' else step_down cfg random now b.node b wait n')
  unfolding step_down
  stepped-From now r b wait n ok h =
      let h' = raise_to-Steps c r n.core ok h in
      if_ind (From c) (raise_to r n.core).failed (λ _. h') (λ _. h')

  pub on_nack-From :
      (now : ℕ) (m : Nack) (n : Node)
      → n.failed ≡ false
      → From c n
      → From c (on_nack cfg random send now m n)
  unfolding on_nack
  on_nack-From now m n ok h =
      if_ind (From c) (is_follower n.role || not (same_ballot m.ballot n.ballot)) (λ _. h)
        (λ _.
          if_ind (From c) (not (less n.ballot m.promised)) (λ _. h)
            (λ _. stepped-From now m.promised.round m.promised m.lease_remaining n ok h))

  ack_read-core :
      (from : NodeId) (up_to seq : ℕ) (n : Node)
      → (ack_read cfg random send from up_to seq n).core ≡ n.core
  unfolding ack_read emit
  ack_read-core from up_to seq n = ground arith

  pub on_heartbeat_ack-From :
      (now : ℕ) (from : NodeId) (m : HeartbeatAck) (n : Node)
      → n.failed ≡ false
      → From c n
      → From c (on_heartbeat_ack cfg random send now from m n)
  unfolding on_heartbeat_ack
  on_heartbeat_ack-From now from m n ok h =
      let heard = record n { contacts = insert from now n.contacts } in
      if_ind (From c) (is_follower n.role) (λ _. h)
        (λ _.
          if_ind (From c) (less n.ballot m.promised)
            (λ _. stepped-From now m.promised.round m.promised 0 n ok h)
            (λ _.
              if_ind (From c) (not (is_leader n.role) || not (same_ballot m.ballot n.ballot))
                (λ _. h)
                (λ _.
                  if_ind (From c) (not (same_ballot m.promised n.ballot)) (λ _. h)
                    (λ _.
                      for_each-From c (sorted_keys heard.reads)
                        (ack_read cfg random send from m.read_seq)
                        (λ seq k k_ok. rw (ack_read-core from m.read_seq seq k) k_ok) heard h))))
