-- ===== src/Replog/Refinement/Calls.antt =====
-- Step, Tick, Propose and ReadIndex are steps of the machine.
use paxos_arena.Prelude.{
  if_ind, ℕ, zero, suc, ◌+◌, ◌-◌, ◌*◌, ◌^◌, ◌<◌, ◌≡◌, refl, true, false, not, ◌&&◌, ◌||◌, Option,
  none, some, List, [], ◌∷◌, ◌++◌, if◌then◌else◌, lookup, length, has_key, ltb, leb, ◌==◌, insert,
  arith,
}
use paxos_arena.Paxos.{NodeId, Slot, Value}
use paxos_arena.Replog.Message.{Message, Envelope}
use paxos_arena.Replog.Durable.{Core, u64, save, save_max_round}
use paxos_arena.Replog.State.{Config, Node, Role, Proposal, is_leader}
use paxos_arena.Replog.Plumbing.{Send, begin, broadcast, step_down, send_with, member, sorted_keys}
use paxos_arena.Replog.Leader.{propose}
use paxos_arena.Replog.Handle.{dispatch, handle, send}
use paxos_arena.Replog.Calls.{
  Refusal, finish, beat, check_contact, answer, start_election, retry_prepare, tick_candidate,
  resend, tick_leader, tick_as, quorum_contact, step, tick, propose_call, read_index, ready,
  max_value_bytes,
}
use paxos_arena.Replog.Machine.{CoreSteps, next, raise_round}
use paxos_arena.Replog.Refinement.Base.{From, Keeps, for_each-From, broadcast-From, send_with-From}
use paxos_arena.Replog.Refinement.Acceptors.{
  on_prepare-From, on_accept-From, on_heartbeat-From, on_learn_request-From,
}
use paxos_arena.Replog.Refinement.Leaders.{
  propose-From, on_learn-From, on_promise-From, on_accepted-From, on_nack-From,
  on_heartbeat_ack-From,
}

module _ (cfg : Config) (random : ℕ → ℕ → ℕ) (safe : cfg.unsafe.accept_below_promise ≡ false)
    (c : Core) where
  dispatch-From :
      (send : Send)
      → Keeps c send
      → (now : ℕ) (from : NodeId) (m : Message) (n : Node) → n.failed ≡ false
      → From c n
      → From c (dispatch cfg random send now from m n)
  unfolding dispatch
  dispatch-From send keep now from (Message.prepare b s) n ok h =
      on_prepare-From cfg random c send keep now from b s n ok h
  dispatch-From send keep now from (Message.promise m) n ok h =
      on_promise-From cfg random c send keep now from m n h
  dispatch-From send keep now from (Message.accept b s v) n ok h =
      on_accept-From cfg random c send keep now from b s v n safe ok h
  dispatch-From send keep now from (Message.accepted b s) n ok h =
      on_accepted-From cfg random c send keep now from b s n ok h
  dispatch-From send keep now from (Message.nack m) n ok h =
      on_nack-From cfg random c send keep now m n ok h
  dispatch-From send keep now from (Message.learn e) n ok h =
      on_learn-From cfg random c send keep now e n ok h
  dispatch-From send keep now from (Message.learn_request s k) n ok h =
      on_learn_request-From cfg random c send keep now from s k n h
  dispatch-From send keep now from (Message.heartbeat m) n ok h =
      on_heartbeat-From cfg random c send keep now from m n ok h
  dispatch-From send keep now from (Message.heartbeat_ack m) n ok h =
      on_heartbeat_ack-From cfg random c send keep now from m n ok h

  handle-From :
      (fuel now : ℕ) (env : Envelope) (n : Node)
      → From c n
      → From c (handle cfg random fuel now env n)
  unfolding handle
  handle-From zero now env n h = h
  handle-From (suc fuel) now env n h =
      let rest = send_with cfg random (handle cfg random fuel) in
      let keep = send_with-From cfg random c (handle cfg random fuel) (handle-From fuel) in
      if_ind (From c) n.failed (λ _. h)
        (λ ok. dispatch-From rest keep now env.sender env.msg n ok h)

  send-Keeps : Keeps c (send cfg random)
  unfolding send
  send-Keeps now to m n h =
      send_with-From cfg random c (handle cfg random (4 + 2 * length n.queue))
        (handle-From (4 + 2 * length n.queue)) now to m n h

  begin-From : (now : ℕ) (n : Node) → From c n → From c (begin cfg random now n)
  unfolding begin
  begin-From now n h = if_ind (From c) (not n.started) (λ _. h) (λ _. h)

  finish-From : (n : Node) → From c n → From c (finish n).0
  unfolding finish
  finish-From n h = if_ind {A = Node × List Envelope} (λ r. From c (r.0)) n.failed (λ _. h) (λ _. h)

  start_election-From :
      (now : ℕ) (n : Node)
      → n.max_round + 1 < 2 ^ 64
      → n.failed ≡ false
      → From c n
      → From c (start_election cfg random now n)
  unfolding start_election
  start_election-From now n room ok h =
      let r = u64 (n.max_round + 1) in
      let d = save (save_max_round r) (record (n.core) { max_round = r }) in
      let h' : CoreSteps c d = next h (raise_round r ok (omega arith)) in
      if_ind (From c) d.failed (λ _. h')
        (λ _. broadcast-From cfg random c (send cfg random) send-Keeps now _ true _ h')

  retry_prepare-From : (now : ℕ) (n : Node) → From c n → From c (retry_prepare cfg random now n)
  unfolding retry_prepare
  retry_prepare-From now n h =
      for_each-From c cfg.peers _
        (λ p k k_ok.
          if_ind (From c) (p == cfg.self || has_key p k.phase1.promises) (λ _. k_ok)
            (λ _. send-Keeps now p (Message.prepare k.ballot k.phase1.from_slot) k k_ok))
        (record n { phase1 = record (n.phase1) { last_sent = now } }) h

  tick_candidate-From : (now : ℕ) (n : Node) → From c n → From c (tick_candidate cfg random now n)
  unfolding tick_candidate
  tick_candidate-From now n h =
      if_ind (From c) (leb n.phase1.deadline now) (λ _. h)
        (λ _.
          if_ind (From c) (leb (n.phase1.last_sent + cfg.heartbeat_interval) now)
            (λ _. retry_prepare-From now n h) (λ _. h))

  resend-From : (now : ℕ) (s : Slot) (n : Node) → From c n → From c (resend cfg random now s n)
  unfolding resend
  resend-From now s n h =
      if_ind (From c) (not (is_leader n.role)) (λ _. h) (λ _. go (lookup s n.proposals))
    where
      go :
          (o : Option Proposal)
          → From c (elim o [
            | none ↦ n
            | some p ↦
                if leb (p.last_sent + cfg.heartbeat_interval) now
                then broadcast cfg random
                    (send cfg random)
                    now
                    (Message.accept n.ballot s p.value)
                    false
                    (record n { proposals = insert s (record p { last_sent = now }) n.proposals })
                else n
          ])
      go none = h
      go (some p) =
          if_ind (From c) (leb (p.last_sent + cfg.heartbeat_interval) now)
            (λ _.
              broadcast-From cfg random c (send cfg random) send-Keeps now
                (Message.accept n.ballot s p.value) false
                (record n { proposals = insert s (record p { last_sent = now }) n.proposals }) h)
            (λ _. h)

  beat-From : (now : ℕ) (n : Node) → From c n → From c (beat cfg random now n)
  unfolding beat
  beat-From now n h =
      if_ind (From c) (leb (n.last_heartbeat + cfg.heartbeat_interval) now)
        (λ _.
          broadcast-From cfg random c (send cfg random) send-Keeps now _ true
            (record n { last_heartbeat = now }) h)
        (λ _. h)

  check_contact-From : (now : ℕ) (n : Node) → From c n → From c (check_contact cfg random now n)
  unfolding check_contact step_down
  check_contact-From now n h =
      if_ind (From c) (not (is_leader n.role)) (λ _. h)
        (λ _.
          if_ind (From c) (ltb cfg.election_timeout_max (now - quorum_contact cfg random now n))
            (λ _. h) (λ _. h))

  tick_leader-From : (now : ℕ) (n : Node) → From c n → From c (tick_leader cfg random now n)
  unfolding tick_leader
  tick_leader-From now n h =
      let beaten = beat cfg random now n in
      let h' = beat-From now n h in
      if_ind (From c) (not (is_leader beaten.role)) (λ _. h')
        (λ _. check_contact-From now _ (
          for_each-From c (sorted_keys beaten.proposals) (resend cfg random now) (resend-From now)
            beaten h'))

  tick_as-From :
      (r : Role) (now : ℕ) (n : Node)
      → n.max_round + 1 < 2 ^ 64
      → n.failed ≡ false
      → From c n
      → From c (tick_as cfg random r now n)
  unfolding tick_as
  tick_as-From Role.follower now n room ok h =
      if_ind (From c)
        (leb n.election_deadline now && (cfg.lease_duration == 0 || leb n.lease_until now))
        (λ _. start_election-From now n room ok h) (λ _. h)
  tick_as-From Role.candidate now n room ok h = tick_candidate-From now n h
  tick_as-From Role.leader now n room ok h = tick_leader-From now n h

  begin-core : (now : ℕ) (n : Node) → (begin cfg random now n).core ≡ n.core
  unfolding begin
  begin-core now n =
      if_ind {A = Node} (λ m. m.core ≡ n.core) (not n.started) (λ _. refl) (λ _. refl)

  pub step-From :
      (now : ℕ) (env : Envelope) (n : Node) → From c n → From c (step cfg random now env n).0
  unfolding step
  step-From now env n h =
      let n' = begin cfg random now n in
      let h' = begin-From now n h in
      if_ind {A = Node × List Envelope} (λ r. From c (r.0)) n.failed (λ _. h)
        (λ _. finish-From _ (
          if_ind (From c) (env.receiver == cfg.self && member env.sender cfg.peers)
            (λ _. handle-From (5 + 2 * length n'.queue) now env n' h') (λ _. h')))

  pub tick-From :
      (now : ℕ) (n : Node) → n.max_round + 1 < 2 ^ 64 → From c n → From c (tick cfg random now n).0
  unfolding tick
  tick-From now n room h =
      let n' = begin cfg random now n in
      let same = begin-core now n in
      if_ind {A = Node × List Envelope} (λ r. From c (r.0)) n.failed (λ _. h)
        (λ ok.
          finish-From _
            (tick_as-From n'.role now n' (rw same room) (rw same ok) (begin-From now n h)))

  pub propose_call-From :
      (now : ℕ) (v : Value) (n : Node) → From c n → From c (propose_call cfg random now v n).0
  unfolding propose_call answer
  propose_call-From now v n h =
      let n' = begin cfg random now n in
      let h' = begin-From now n h in
      let P : Node × List Envelope × Option Refusal → Type 0 = λ r. From c (r.0) in
      let p = propose cfg random (send cfg random) now n'.next_slot v n' in
      let p_ok = propose-From cfg random c (send cfg random) send-Keeps now n'.next_slot v n' h' in
      if_ind P n.failed (λ _. h)
        (λ _.
          if_ind P (ltb max_value_bytes (length v)) (λ _. h')
            (λ _.
              if_ind P (not (is_leader n'.role)) (λ _. h')
                (λ _.
                  if_ind P (ltb (length n'.proposals) cfg.window)
                    (λ _. finish-From (record p { next_slot = u64 (p.next_slot + 1) }) p_ok)
                    (λ _.
                      if_ind P (leb cfg.queue_limit (length n'.queue)) (λ _. finish-From n' h')
                        (λ _. finish-From (record n' { queue = n'.queue ++ v ∷ [] }) h')))))

  pub read_index-From : (now : ℕ) (n : Node) → From c n → From c (read_index cfg random now n).0
  unfolding read_index
  read_index-From now n h =
      let n' = begin cfg random now n in
      let h' = begin-From now n h in
      let P : Node × ℕ × List Envelope × Option Refusal → Type 0 = λ r. From c (r.0) in
      if_ind P n.failed (λ _. h)
        (λ _.
          if_ind P (not (is_leader n'.role)) (λ _. h')
            (λ _.
              if_ind P (not (ready cfg random n')) (λ _. h')
                (λ _.
                  finish-From _
                    (broadcast-From cfg random c (send cfg random) send-Keeps now _ true _ h'))))
