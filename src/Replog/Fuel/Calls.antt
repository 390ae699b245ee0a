-- ===== src/Replog/Fuel/Calls.antt =====
-- No call of the host runs out of fuel.
use paxos_arena.Prelude.{
  ℕ, ◌+◌, ◌-◌, ◌*◌, ◌≡◌, true, false, not, ◌&&◌, ◌||◌, Option, none, some, List, [], ◌∷◌, ◌++◌,
  length, if_ind, if◌then◌else◌, lookup, insert, has_key, ltb, leb, ◌==◌, arith,
}
use paxos_arena.Paxos.{Slot, Value, zero_ballot}
use paxos_arena.Replog.Message.{Message, Envelope}
use paxos_arena.Replog.Durable.{u64, save, save_max_round}
use paxos_arena.Replog.State.{Config, Node, Role, Proposal, is_leader}
use paxos_arena.Replog.Plumbing.{begin, broadcast, member, sorted_keys}
use paxos_arena.Replog.Leader.{propose}
use paxos_arena.Replog.Handle.{handle, send}
use paxos_arena.Replog.Calls.{
  Refusal, finish, beat, check_contact, answer, start_election, retry_prepare, tick_candidate,
  resend, tick_leader, tick_as, quorum_contact, step, tick, propose_call, read_index, take_events,
  ready, max_value_bytes,
}
use paxos_arena.Replog.Fuel.Base.{Fits, for_each-Fits, broadcast-Fits, step_down-Fits}
use paxos_arena.Replog.Fuel.Leaders.{propose-Fits}
use paxos_arena.Replog.Run.{Run, fresh, stepped, ticked, proposed, asked, drained}
use paxos_arena.Replog.Fuel.Handle.{rank_bounds, handle-Fits, send-Calm}

module _ (cfg : Config) (random : ℕ → ℕ → ℕ) where
  begin-Fits : (q now : ℕ) (n : Node) → Fits q n → Fits q (begin cfg random now n)
  unfolding begin
  begin-Fits q now n h = if_ind (Fits q) (not n.started) (λ _. h) (λ _. h)

  finish-Fits : (q : ℕ) (n : Node) → Fits q n → Fits q (finish n).0
  unfolding finish
  finish-Fits q n h =
      if_ind {A = Node × List Envelope} (λ r. Fits q (r.0)) n.failed (λ _. h) (λ _. h)

  start_election-Fits : (q now : ℕ) (n : Node) → Fits q n → Fits q (start_election cfg random now n)
  unfolding start_election
  start_election-Fits q now n h =
      let r = u64 (n.max_round + 1) in
      let d = save (save_max_round r) (record (n.core) { max_round = r }) in
      if_ind (Fits q) d.failed (λ _. h)
        (λ _.
          broadcast-Fits cfg random q 4 (send cfg random) (send-Calm cfg random q) now _ true _
            (omega arith) h)

  retry_prepare-Fits : (q now : ℕ) (n : Node) → Fits q n → Fits q (retry_prepare cfg random now n)
  unfolding retry_prepare
  retry_prepare-Fits q now n h =
      for_each-Fits q cfg.peers _
        (λ p k k_ok.
          if_ind (Fits q) (p == cfg.self || has_key p k.phase1.promises) (λ _. k_ok)
            (λ _.
              send-Calm cfg random q now p (Message.prepare k.ballot k.phase1.from_slot) k
                (omega arith) k_ok))
        (record n { phase1 = record (n.phase1) { last_sent = now } }) h

  tick_candidate-Fits : (q now : ℕ) (n : Node) → Fits q n → Fits q (tick_candidate cfg random now n)
  unfolding tick_candidate
  tick_candidate-Fits q now n h =
      if_ind (Fits q) (leb n.phase1.deadline now) (λ _. h)
        (λ _.
          if_ind (Fits q) (leb (n.phase1.last_sent + cfg.heartbeat_interval) now)
            (λ _. retry_prepare-Fits q now n h) (λ _. h))

  resend-Fits : (q now : ℕ) (s : Slot) (n : Node) → Fits q n → Fits q (resend cfg random now s n)
  unfolding resend
  resend-Fits q now s n h =
      if_ind (Fits q) (not (is_leader n.role)) (λ _. h) (λ _. go (lookup s n.proposals))
    where
      go :
          (o : Option Proposal)
          → Fits q (elim o [
            | none ↦ n
            | some p ↦
                if leb (p.last_sent + cfg.heartbeat_interval) now
                then broadcast cfg random
                    (send cfg random)
                    now
                    (Message.accept n.ballot s p.value)
                    false
                    (record n { proposals = insert s (record p { last_sent = now }) n.proposals })
                else n
          ])
      go none = h
      go (some p) =
          if_ind (Fits q) (leb (p.last_sent + cfg.heartbeat_interval) now)
            (λ _.
              broadcast-Fits cfg random q 4 (send cfg random) (send-Calm cfg random q) now
                (Message.accept n.ballot s p.value) false
                (record n { proposals = insert s (record p { last_sent = now }) n.proposals })
                (omega arith) h)
            (λ _. h)

  beat-Fits : (q now : ℕ) (n : Node) → Fits q n → Fits q (beat cfg random now n)
  unfolding beat
  beat-Fits q now n h =
      if_ind (Fits q) (leb (n.last_heartbeat + cfg.heartbeat_interval) now)
        (λ _.
          broadcast-Fits cfg random q 4 (send cfg random) (send-Calm cfg random q) now _ true
            (record n { last_heartbeat = now }) (omega arith) h)
        (λ _. h)

  check_contact-Fits : (q now : ℕ) (n : Node) → Fits q n → Fits q (check_contact cfg random now n)
  unfolding check_contact
  check_contact-Fits q now n h =
      if_ind (Fits q) (not (is_leader n.role)) (λ _. h)
        (λ _.
          if_ind (Fits q) (ltb cfg.election_timeout_max (now - quorum_contact cfg random now n))
            (λ _. step_down-Fits cfg random q now 0 zero_ballot 0 n h) (λ _. h))

  tick_leader-Fits : (q now : ℕ) (n : Node) → Fits q n → Fits q (tick_leader cfg random now n)
  unfolding tick_leader
  tick_leader-Fits q now n h =
      let beaten = beat cfg random now n in
      let h' = beat-Fits q now n h in
      if_ind (Fits q) (not (is_leader beaten.role)) (λ _. h')
        (λ _. check_contact-Fits q now _ (
          for_each-Fits q (sorted_keys beaten.proposals) (resend cfg random now) (resend-Fits q now)
            beaten h'))

  tick_as-Fits :
      (q : ℕ) (r : Role) (now : ℕ) (n : Node) → Fits q n → Fits q (tick_as cfg random r now n)
  unfolding tick_as
  tick_as-Fits q Role.follower now n h =
      if_ind (Fits q)
        (leb n.election_deadline now && (cfg.lease_duration == 0 || leb n.lease_until now))
        (λ _. start_election-Fits q now n h) (λ _. h)
  tick_as-Fits q Role.candidate now n h = tick_candidate-Fits q now n h
  tick_as-Fits q Role.leader now n h = tick_leader-Fits q now n h

  -- A call that starts with fuel left ends with fuel left.
  abbrev IsUnstuck : Node → Type 0
  IsUnstuck n = n.stuck ≡ false

  step-IsUnstuck :
      (now : ℕ) (env : Envelope) (n : Node) → IsUnstuck n → IsUnstuck (step cfg random now env n).0
  unfolding step
  step-IsUnstuck now env n h =
      let n' = begin cfg random now n in
      let q = length n'.queue in
      let h' : Fits q n' = ((begin-Fits (length n.queue) now n (h, omega arith)).0, omega arith) in
      let body =
        if env.receiver == cfg.self && member env.sender cfg.peers
        then handle cfg random (5 + 2 * q) now env n'
        else n' in
      let k : Fits q body =
        if_ind (Fits q) (env.receiver == cfg.self && member env.sender cfg.peers)
          (λ _.
            handle-Fits cfg random (5 + 2 * q) q now env n' (omega (arith, (rank_bounds env.msg).1))
              h')
          (λ _. h') in
      if_ind {A = Node × List Envelope} (λ r. IsUnstuck (r.0)) n.failed (λ _. h)
        (λ _. (finish-Fits q body k).0)

  tick-IsUnstuck : (now : ℕ) (n : Node) → IsUnstuck n → IsUnstuck (tick cfg random now n).0
  unfolding tick
  tick-IsUnstuck now n h =
      let n' = begin cfg random now n in
      let q = length n.queue in
      let k = tick_as-Fits q n'.role now n' (begin-Fits q now n (h, omega arith)) in
      if_ind {A = Node × List Envelope} (λ r. IsUnstuck (r.0)) n.failed (λ _. h)
        (λ _. (finish-Fits q (tick_as cfg random n'.role now n') k).0)

  propose_call-IsUnstuck :
      (now : ℕ) (v : Value) (n : Node) → IsUnstuck n → IsUnstuck (propose_call cfg random now v n).0
  unfolding propose_call answer
  propose_call-IsUnstuck now v n h =
      let n' = begin cfg random now n in
      let q = length n.queue in
      let h' = begin-Fits q now n (h, omega arith) in
      let P : Node × List Envelope × Option Refusal → Type 0 = λ r. IsUnstuck (r.0) in
      let p = propose cfg random (send cfg random) now n'.next_slot v n' in
      let k =
        propose-Fits cfg random (send cfg random) q
          (λ t to m x le y. send-Calm cfg random q t to m x (omega (arith, le)) y) now n'.next_slot
          v n' h' in
      if_ind P n.failed (λ _. h)
        (λ _.
          if_ind P (ltb max_value_bytes (length v)) (λ _. h'.0)
            (λ _.
              if_ind P (not (is_leader n'.role)) (λ _. h'.0)
                (λ _.
                  if_ind P (ltb (length n'.proposals) cfg.window)
                    (λ _. (finish-Fits q (record p { next_slot = u64 (p.next_slot + 1) }) k).0)
                    (λ _.
                      if_ind P (leb cfg.queue_limit (length n'.queue))
                        (λ _. (finish-Fits q n' h').0)
                        (λ _.
                          (finish-Fits (length (n'.queue ++ v ∷ []))
                            (record n' { queue = n'.queue ++ v ∷ [] }) (h'.0, omega arith)).0)))))

  read_index-IsUnstuck :
      (now : ℕ) (n : Node) → IsUnstuck n → IsUnstuck (read_index cfg random now n).0
  unfolding read_index
  read_index-IsUnstuck now n h =
      let n' = begin cfg random now n in
      let q = length n.queue in
      let h' = begin-Fits q now n (h, omega arith) in
      let P : Node × ℕ × List Envelope × Option Refusal → Type 0 = λ r. IsUnstuck (r.0) in
      if_ind P n.failed (λ _. h)
        (λ _.
          if_ind P (not (is_leader n'.role)) (λ _. h'.0)
            (λ _.
              if_ind P (not (ready cfg random n')) (λ _. h'.0)
                (λ _.
                  (finish-Fits q _ (
                    broadcast-Fits cfg random q 4 (send cfg random) (send-Calm cfg random q) now _
                      true _ (omega arith) h')).0)))

  -- In any run from a node that is not stuck, whatever its configuration and its messages, the fuel
  -- of no call runs out: the nesting of the messages that a node sends itself is at most 4, or 5 for
  -- Step, and two more for each value in the queue.
  pub Run-stuck : {a n : Node} → a.stuck ≡ false → Run cfg random a n → n.stuck ≡ false
  unfolding take_events
  Run-stuck h fresh = h
  Run-stuck h (stepped {n} now env r) = step-IsUnstuck now env n (Run-stuck h r)
  Run-stuck h (ticked {n} now room r) = tick-IsUnstuck now n (Run-stuck h r)
  Run-stuck h (proposed {n} now v r) = propose_call-IsUnstuck now v n (Run-stuck h r)
  Run-stuck h (asked {n} now r) = read_index-IsUnstuck now n (Run-stuck h r)
  Run-stuck h (drained r) = Run-stuck h r
