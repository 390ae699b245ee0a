-- ===== src/Replog/Fuel/Leaders.antt =====
-- The leader's handlers send themselves less than they were sent, or take values off the queue.
use paxos_arena.Prelude.{
  ℕ, zero, suc, ◌+◌, ◌-◌, ◌≤◌, ◌<◌, Bool, true, not, ◌&&◌, ◌||◌, Option, none, some, List, [], ◌∷◌,
  length, if_ind, if◌then◌else◌, lookup, insert, ltb, leb, ◌==◌, arith,
}
use paxos_arena.Paxos.{
  NodeId, Slot, Value, Ballot, PValue, less, same_ballot, quorum, choose, value_equal,
}
use paxos_arena.Replog.Message.{Message, Promise, Nack, HeartbeatAck, Entry, Event}
use paxos_arena.Replog.Durable.{u64}
use paxos_arena.Replog.State.{Config, Node, Proposal, is_leader, is_candidate, is_follower}
use paxos_arena.Replog.Plumbing.{Send, raise_to, sorted_keys, erase, emit, step_down}
use paxos_arena.Replog.Acceptor.{put_chosen}
use paxos_arena.Replog.Leader.{
  propose, drain, drain_queue, learn, on_learn, take_over, as_leader, mark_leadership,
  after_takeover, last_slot, takeover_top, promised_reports, slots_from, become_leader, on_promise,
  count_vote, on_accepted, on_nack, ack_read, on_heartbeat_ack, reports_for,
}
use paxos_arena.Replog.Fuel.Base.{
  Fits, Calm, Far, for_each-Fits, broadcast-Fits, broadcast_others-Fits, step_down-Fits,
}

-- Proposals can be sent while fewer than `q` values are queued.
abbrev pub CalmBelow : ℕ → Send → Type 0
CalmBelow q send = (p : ℕ) → p < q → Calm 2 p send

module _ (cfg : Config) (random : ℕ → ℕ → ℕ) (send : Send) where
  pub propose-Fits :
      (q : ℕ)
      → Calm 2 q send
      → (now : ℕ) (s : Slot) (v : Value) (n : Node) → Fits q n
      → Fits q (propose cfg random send now s v n)
  unfolding propose
  propose-Fits q calm now s v n h =
      broadcast-Fits cfg random q 2 send calm now (Message.accept n.ballot s v) true
        (record n {
          proposals = insert s (record { value = v; accepts = []; last_sent = now }) n.proposals;
        })
        (omega arith) h

  drain-Fits :
      (q : ℕ)
      → CalmBelow q send
      → (fuel now : ℕ) (n : Node) → Fits q n
      → Fits q (drain cfg random send fuel now n)
  unfolding drain
  drain-Fits q calm zero now n h = h
  drain-Fits q calm (suc fuel) now n h = go n.queue h.1 (drain-Fits q calm fuel now)
    where
      open_slot : Bool
      open_slot = ltb (length n.proposals) cfg.window && is_leader n.role && not n.failed

      go :
          (vs : List Value)
          → length vs ≤ q
          → ((m : Node) → Fits q m → Fits q (drain cfg random send fuel now m))
          → Fits q (elim vs [
            | [] ↦ n
            | v ∷ vs ↦
                (let go = drain cfg random send fuel now (
                    let n' = propose cfg random send now n.next_slot v (record n { queue = vs }) in
                    record n' { next_slot = u64 (n'.next_slot + 1) }) in
                  if open_slot then go else n)
          ])
      go [] le ih = h
      go (v ∷ vs) le ih =
          let n' = propose cfg random send now n.next_slot v (record n { queue = vs }) in
          let k =
            propose-Fits (length vs) (calm (length vs) (omega arith)) now n.next_slot v
              (record n { queue = vs }) (h.0, omega arith) in
          if_ind (Fits q) open_slot
            (λ _. ih (record n' { next_slot = u64 (n'.next_slot + 1) }) (k.0, omega (arith, k.1)))
            (λ _. h)

  drain_queue-Fits :
      (q : ℕ)
      → CalmBelow q send
      → (now : ℕ) (n : Node) → Fits q n
      → Fits q (drain_queue cfg random send now n)
  unfolding drain_queue
  drain_queue-Fits q calm now n h = drain-Fits q calm (length n.queue) now n h

  learn-Fits :
      (q : ℕ)
      → CalmBelow q send
      → (now : ℕ) (e : Entry) (n : Node) → Fits q n
      → Fits q (learn cfg random send now e n)
  unfolding learn
  learn-Fits q calm now e n h =
      let n' = record n { core = put_chosen e n.core; proposals = erase e.slot n.proposals } in
      if_ind (Fits q) (put_chosen e n.core).failed (λ _. h)
        (λ _. if_ind (Fits q) (is_leader n.role) (λ _. drain_queue-Fits q calm now n' h) (λ _. h))

  pub on_learn-Fits :
      (q : ℕ)
      → CalmBelow q send
      → (now : ℕ) (e : Entry) (n : Node) → Fits q n
      → Fits q (on_learn cfg random send now e n)
  unfolding on_learn emit
  on_learn-Fits q calm now e n h =
      if_ind (Fits q) (e.slot == 0) (λ _. h) (λ _. go (lookup e.slot n.chosen))
    where
      go :
          (o : Option Entry)
          → Fits q (elim o [
            | none ↦ learn cfg random send now e n
            | some have ↦
                if not (value_equal have.value e.value)
                then emit (Event.learn_conflict e.slot have e) n
                else n
          ])
      go none = learn-Fits q calm now e n h
      go (some have) = if_ind (Fits q) (not (value_equal have.value e.value)) (λ _. h) (λ _. h)

  take_over-Fits :
      (q : ℕ)
      → Calm 2 q send
      → (now : ℕ) (reports : List PValue) (ss : List Slot) (n : Node) → Fits q n
      → Fits q (take_over cfg random send now reports ss n)
  unfolding take_over
  take_over-Fits q calm now reports [] n h = h
  take_over-Fits q calm now reports (s ∷ ss) n h =
      go (lookup s n.chosen) (take_over-Fits q calm now reports ss)
    where
      v : Value
      v = if cfg.unsafe.ignore_phase1_reports then [] else choose (reports_for s reports) []

      n' : Node
      n' = propose cfg random send now s v n

      h' : Fits q n'
      h' = propose-Fits q calm now s v n h

      go :
          (o : Option Entry)
          → ((m : Node) → Fits q m → Fits q (take_over cfg random send now reports ss m))
          → Fits q (elim o [
            | some _ ↦ take_over cfg random send now reports ss n
            | none ↦
                (let go = take_over cfg random send now reports ss n' in
                  if n'.failed || not (is_leader n'.role) then n' else go)
          ])
      go (some _) ih = ih n h
      go none ih = if_ind (Fits q) (n'.failed || not (is_leader n'.role)) (λ _. h') (λ _. ih n' h')

  mark_leadership-Fits :
      (q : ℕ)
      → Calm 2 q send
      → CalmBelow q send
      → (now : ℕ) (n : Node) → Fits q n
      → Fits q (mark_leadership cfg random send now n)
  unfolding mark_leadership
  mark_leadership-Fits q calm below now n h =
      let n' = propose cfg random send now n.first_own_slot [] n in
      let h' = propose-Fits q calm now n.first_own_slot [] n h in
      if_ind (Fits q) (n.failed || not (is_leader n.role)) (λ _. h)
        (λ _.
          if_ind (Fits q) (n'.failed || not (is_leader n'.role)) (λ _. h')
            (λ _. drain_queue-Fits q below now n' h'))

  after_takeover-Fits :
      (q : ℕ)
      → Calm 2 q send
      → CalmBelow q send
      → (now : ℕ) (top : Slot) (n : Node) → Fits q n
      → Fits q (after_takeover cfg random send now top n)
  unfolding after_takeover
  after_takeover-Fits q calm below now top n h =
      if_ind (Fits q) (top == last_slot && not n.failed && is_leader n.role) (λ _. h)
        (λ _. mark_leadership-Fits q calm below now n h)

  become_leader-Fits :
      (q : ℕ)
      → Calm 2 q send
      → CalmBelow q send
      → (now : ℕ) (n : Node) → Fits q n
      → Fits q (become_leader cfg random send now n)
  unfolding become_leader as_leader
  become_leader-Fits q calm below now n h =
      let from = n.phase1.from_slot in
      let top = takeover_top cfg random send n in
      let reports = promised_reports cfg random send n.phase1 in
      let slots = slots_from (top + 1 - from) from in
      let led = take_over cfg random send now reports slots (as_leader cfg random send now n) in
      after_takeover-Fits q calm below now top led
        (take_over-Fits q calm now reports slots (as_leader cfg random send now n) h)

  pub on_promise-Fits :
      (q : ℕ)
      → Calm 2 q send
      → CalmBelow q send
      → (now : ℕ) (from : NodeId) (m : Promise) (n : Node) → Fits q n
      → Fits q (on_promise cfg random send now from m n)
  unfolding on_promise
  on_promise-Fits q calm below now from m n h =
      let ph = record (n.phase1) { promises = insert from m n.phase1.promises } in
      let n' = record n { phase1 = ph } in
      if_ind (Fits q) (not (is_candidate n.role) || not (same_ballot m.ballot n.ballot)) (λ _. h)
        (λ _.
          if_ind (Fits q) (leb (quorum (length cfg.peers)) (length ph.promises))
            (λ _. become_leader-Fits q calm below now n' h) (λ _. h))

  count_vote-Fits :
      (q : ℕ)
      → CalmBelow q send
      → Far cfg.self q send
      → (now : ℕ) (s : Slot) (p : Proposal) (n : Node) → Fits q n
      → Fits q (count_vote cfg random send now s p n)
  unfolding count_vote
  count_vote-Fits q below far now s p n h =
      let e : Entry = record { slot = s; ballot = n.ballot; value = p.value } in
      let n' = learn cfg random send now e n in
      let h' = learn-Fits q below now e n h in
      if_ind (Fits q) (ltb (length p.accepts) (quorum (length cfg.peers))) (λ _. h)
        (λ _.
          if_ind (Fits q) n'.failed (λ _. h')
            (λ _. broadcast_others-Fits cfg random q send far now (Message.learn e) n' h'))

  pub on_accepted-Fits :
      (q : ℕ)
      → CalmBelow q send
      → Far cfg.self q send
      → (now : ℕ) (from : NodeId) (b : Ballot) (s : Slot) (n : Node) → Fits q n
      → Fits q (on_accepted cfg random send now from b s n)
  unfolding on_accepted
  on_accepted-Fits q below far now from b s n h =
      if_ind (Fits q) (not (is_leader n.role) || not (same_ballot b n.ballot)) (λ _. h)
        (λ _. go (lookup s n.proposals))
    where
      go :
          (o : Option Proposal)
          → Fits q (elim o [
            | none ↦ n
            | some p ↦
                (let p' = record p { accepts = insert from tt p.accepts } in
                  count_vote cfg random send now s p'
                    (record n { proposals = insert s p' n.proposals }))
          ])
      go none = h
      go (some p) =
          let p' = record p { accepts = insert from tt p.accepts } in
          count_vote-Fits q below far now s p' (record n { proposals = insert s p' n.proposals }) h

  stepped-Fits :
      (q now r : ℕ) (b : Ballot) (wait : ℕ) (n : Node)
      → Fits q n
      → let n' = record n { core = raise_to r n.core } in
        Fits q (if n'.failed then n' else step_down cfg random now b.node b wait n')
  stepped-Fits q now r b wait n h =
      if_ind (Fits q) (raise_to r n.core).failed (λ _. h)
        (λ _.
          step_down-Fits cfg random q now b.node b wait (record n { core = raise_to r n.core }) h)

  pub on_nack-Fits :
      (q now : ℕ) (m : Nack) (n : Node) → Fits q n → Fits q (on_nack cfg random send now m n)
  unfolding on_nack
  on_nack-Fits q now m n h =
      if_ind (Fits q) (is_follower n.role || not (same_ballot m.ballot n.ballot)) (λ _. h)
        (λ _.
          if_ind (Fits q) (not (less n.ballot m.promised)) (λ _. h)
            (λ _. stepped-Fits q now m.promised.round m.promised m.lease_remaining n h))

  ack_read-Fits :
      (q : ℕ) (from : NodeId) (up_to seq : ℕ) (n : Node)
      → Fits q n
      → Fits q (ack_read cfg random send from up_to seq n)
  unfolding ack_read emit
  ack_read-Fits q from up_to seq n h = ground arith

  pub on_heartbeat_ack-Fits :
      (q now : ℕ) (from : NodeId) (m : HeartbeatAck) (n : Node)
      → Fits q n
      → Fits q (on_heartbeat_ack cfg random send now from m n)
  unfolding on_heartbeat_ack
  on_heartbeat_ack-Fits q now from m n h =
      let heard = record n { contacts = insert from now n.contacts } in
      if_ind (Fits q) (is_follower n.role) (λ _. h)
        (λ _.
          if_ind (Fits q) (less n.ballot m.promised)
            (λ _. stepped-Fits q now m.promised.round m.promised 0 n h)
            (λ _.
              if_ind (Fits q) (not (is_leader n.role) || not (same_ballot m.ballot n.ballot))
                (λ _. h)
                (λ _.
                  if_ind (Fits q) (not (same_ballot m.promised n.ballot)) (λ _. h)
                    (λ _.
                      for_each-Fits q (sorted_keys heard.reads)
                        (ack_read cfg random send from m.read_seq)
                        (λ seq k k_ok. ack_read-Fits q from m.read_seq seq k k_ok) heard h))))
