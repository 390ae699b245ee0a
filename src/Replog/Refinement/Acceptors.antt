-- ===== src/Replog/Refinement/Acceptors.antt =====
-- The acceptor's and the learner's handlers are steps of the machine.
use paxos_arena.Prelude.{
  if_ind, ℕ, zero, suc, ◌+◌, ◌≡◌, ◌≢◌, sym, false, not, ◌||◌, Option, none, some, if◌then◌else◌,
  lookup, ltb, ◌==◌, arith,
}
use paxos_arena.Paxos.{
  NodeId, Slot, Value, Ballot, PValue, less, is_zero, same_ballot, may_promise, may_accept,
}
use paxos_arena.Paxos.Order.{less_both_false}
use paxos_arena.Replog.Message.{Message, Heartbeat, Entry}
use paxos_arena.Replog.Durable.{Core, u64}
use paxos_arena.Replog.State.{Config, Node}
use paxos_arena.Replog.Plumbing.{Send, set_promised, note_leader, refresh_lease}
use paxos_arena.Replog.Acceptor.{
  put_accepted, on_prepare, answer_prepare, leased, on_accept, take_accept, on_heartbeat, follow,
  ack_heartbeat, behind, catch_up, batch, on_learn_request, send_chosen,
}
use paxos_arena.Replog.Machine.{CoreSteps, next, accept_value}
use paxos_arena.Replog.Refinement.Base.{
  From, Keeps, note_leader-core, refresh_lease-core, set_promised-From, set_promised-promised,
}

module _ (cfg : Config) (random : ℕ → ℕ → ℕ) (c : Core) (send : Send) (keep : Keeps c send) where
  -- The lease, and the new leader unless it is the node itself.
  noted :
      (now : ℕ) (from : NodeId) (b : Ballot) (n : Node)
      → From c n
      → From c (
          if not (from == cfg.self)
          then note_leader cfg random now b (refresh_lease cfg random now b n)
          else refresh_lease cfg random now b n)
  noted now from b n h =
      let r = refresh_lease-core cfg random c now b n in
      if_ind (From c) (not (from == cfg.self))
        (λ _. rw (note_leader-core cfg random c now b (refresh_lease cfg random now b n), r) h)
        (λ _. rw r h)

  answer_prepare-From :
      (now : ℕ) (from : NodeId) (b : Ballot) (slot : Slot) (n : Node)
      → From c n
      → From c (answer_prepare cfg random send now from b slot n)
  unfolding answer_prepare
  answer_prepare-From now from b slot n h = keep now from _ _ (
      if_ind (From c) (not (from == cfg.self))
        (λ _.
          rw
            (
              note_leader-core cfg random c now b (refresh_lease cfg random now b n),
              refresh_lease-core cfg random c now b n,
            )
            h)
        (λ _. h))

  pub on_prepare-From :
      (now : ℕ) (from : NodeId) (b : Ballot) (slot : Slot) (n : Node)
      → n.failed ≡ false
      → From c n
      → From c (on_prepare cfg random send now from b slot n)
  unfolding on_prepare may_promise
  on_prepare-From now from b slot n ok h =
      if_ind (From c) (is_zero b) (λ _. h)
        (λ _.
          if_ind (From c) (same_ballot b n.promised) (λ _. answer_prepare-From now from b slot n h)
            (λ _.
              if_ind (From c) (not (may_promise n.promised b)) (λ _. keep now from _ n h)
                (λ up.
                  if_ind (From c) (leased cfg random send now b n) (λ _. keep now from _ n h)
                    (λ _.
                      let h' = set_promised-From cfg random c now b n ok (ground arith) h in
                      if_ind (From c) (set_promised cfg random now b n).failed (λ _. h')
                        (λ _. answer_prepare-From now from b slot _ h')))))

  take_accept-From :
      (now : ℕ) (from : NodeId) (pv : PValue) (n : Node)
      → n.failed ≡ false
      → is_zero pv.ballot ≡ false
      → pv.slot ≢ 0
      → pv.ballot ≡ n.promised
      → From c n
      → From c (take_accept cfg random send now from pv n)
  unfolding take_accept
  take_accept-From now from pv n ok nz sl same h =
      let h' : CoreSteps c (put_accepted pv n.core) = next h (accept_value pv ok nz sl same) in
      if_ind (From c) (put_accepted pv n.core).failed (λ _. h')
        (λ _.
          keep now from _ _
            (noted now from pv.ballot (record n { core = put_accepted pv n.core }) h'))

  pub on_accept-From :
      (now : ℕ) (from : NodeId) (b : Ballot) (slot : Slot) (v : Value) (n : Node)
      → cfg.unsafe.accept_below_promise ≡ false
      → n.failed ≡ false
      → From c n
      → From c (on_accept cfg random send now from b slot v n)
  unfolding on_accept may_accept
  on_accept-From now from b slot v n safe ok h =
      let pv : PValue = record { ballot = b; slot = slot; value = v } in
      if_ind (From c) (is_zero b || slot == 0) (λ _. h)
        (λ z.
          if_ind (From c) (not (may_accept n.promised b || cfg.unsafe.accept_below_promise))
            (λ _. keep now from _ n h)
            (λ allowed.
              if_ind (From c) (less n.promised b)
                (λ up.
                  let n' = set_promised cfg random now b n in
                  let h' = set_promised-From cfg random c now b n ok up h in
                  if_ind (From c) n'.failed (λ _. h')
                    (λ alive.
                      take_accept-From now from pv n' alive (ground arith) (ground arith)
                        (sym (set_promised-promised cfg random c now b n alive)) h'))
                (λ low.
                  take_accept-From now from pv n ok (ground arith) (ground arith)
                    (less_both_false b n.promised (ground arith) low) h)))

  ack_heartbeat-From :
      (now : ℕ) (from : NodeId) (m : Heartbeat) (n : Node)
      → From c n
      → From c (ack_heartbeat cfg random send now from m n)
  unfolding ack_heartbeat
  ack_heartbeat-From now from m n h =
      let r = refresh_lease cfg random now m.ballot n in
      let n' = if not (from == cfg.self) then note_leader cfg random now m.ballot r else r in
      keep now from _ n' (noted now from m.ballot n h)

  catch_up-From :
      (now : ℕ) (from : NodeId) (m : Heartbeat) (n : Node)
      → From c n
      → From c (catch_up cfg random send now from m n)
  unfolding catch_up
  catch_up-From now from m n h =
      if_ind (From c) (behind cfg random send now from m n)
        (λ _. keep now from _ (record n { learn_req_after = now + cfg.heartbeat_interval }) h)
        (λ _. h)

  follow-From :
      (now : ℕ) (from : NodeId) (m : Heartbeat) (n : Node)
      → From c n
      → From c (follow cfg random send now from m n)
  unfolding follow
  follow-From now from m n h =
      catch_up-From now from m (ack_heartbeat cfg random send now from m n)
        (ack_heartbeat-From now from m n h)

  pub on_heartbeat-From :
      (now : ℕ) (from : NodeId) (m : Heartbeat) (n : Node)
      → n.failed ≡ false
      → From c n
      → From c (on_heartbeat cfg random send now from m n)
  unfolding on_heartbeat
  on_heartbeat-From now from m n ok h =
      if_ind (From c) (is_zero m.ballot) (λ _. h)
        (λ _.
          if_ind (From c) (less m.ballot n.promised) (λ _. keep now from _ n h)
            (λ _.
              if_ind (From c) (less n.promised m.ballot)
                (λ up.
                  let h' = set_promised-From cfg random c now m.ballot n ok up h in
                  if_ind (From c) (set_promised cfg random now m.ballot n).failed (λ _. h')
                    (λ _. follow-From now from m _ h'))
                (λ _. follow-From now from m n h)))

  send_chosen-From :
      (now : ℕ) (to : NodeId) (count : ℕ) (s : Slot) (n : Node)
      → From c n
      → From c (send_chosen cfg random send now to count s n)
  unfolding send_chosen
  send_chosen-From now to zero s n h = h
  send_chosen-From now to (suc count) s n h =
      send_chosen-From now to count (s + 1) _ (answered (lookup s n.chosen))
    where
      answered :
          (o : Option Entry)
          → From c (elim o [
            | none ↦ n
            | some e ↦
                send now to
                  (Message.learn (record { slot = s; ballot = e.ballot; value = e.value }))
                  n
          ])
      answered none = h
      answered (some e) = keep now to _ n h

  pub on_learn_request-From :
      (now : ℕ) (from : NodeId) (s : Slot) (k : ℕ) (n : Node)
      → From c n
      → From c (on_learn_request cfg random send now from s k n)
  unfolding on_learn_request
  on_learn_request-From now from s k n h =
      if_ind (From c) (from == cfg.self || s == 0) (λ _. h)
        (λ _.
          if_ind (From c) (ltb s (u64 (s + batch cfg random send k)))
            (λ _. send_chosen-From now from (batch cfg random send k) s n h) (λ _. h))
