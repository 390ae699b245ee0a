-- ===== src/Replog/Fuel/Acceptors.antt =====
-- The acceptor's handlers send themselves less than they were sent.
use paxos_arena.Prelude.{
  ℕ, zero, suc, ◌+◌, not, ◌||◌, Option, none, some, if_ind, if◌then◌else◌, lookup, ltb, ◌==◌, arith,
}
use paxos_arena.Paxos.{
  NodeId, Slot, Value, Ballot, PValue, less, is_zero, same_ballot, may_promise, may_accept,
}
use paxos_arena.Replog.Message.{Message, Heartbeat, Entry}
use paxos_arena.Replog.Durable.{u64}
use paxos_arena.Replog.State.{Config, Node}
use paxos_arena.Replog.Plumbing.{Send, set_promised, note_leader, refresh_lease}
use paxos_arena.Replog.Acceptor.{
  put_accepted, on_prepare, answer_prepare, leased, on_accept, take_accept, on_heartbeat, follow,
  ack_heartbeat, behind, catch_up, batch, on_learn_request, send_chosen,
}
use paxos_arena.Replog.Fuel.Base.{
  Fits, Calm, note_leader-Fits, refresh_lease-Fits, set_promised-Fits,
}

module _ (cfg : Config) (random : ℕ → ℕ → ℕ) (q : ℕ) (send : Send) where
  noted :
      (now : ℕ) (from : NodeId) (b : Ballot) (n : Node)
      → Fits q n
      → Fits q (
          if not (from == cfg.self)
          then note_leader cfg random now b (refresh_lease cfg random now b n)
          else refresh_lease cfg random now b n)
  noted now from b n h =
      let l = refresh_lease cfg random now b n in
      let k = refresh_lease-Fits cfg random q now b n h in
      if_ind (Fits q) (not (from == cfg.self)) (λ _. note_leader-Fits cfg random q now b l k)
        (λ _. k)

  answer_prepare-Fits :
      Calm 3 q send
      → (now : ℕ) (from : NodeId) (b : Ballot) (slot : Slot) (n : Node) → Fits q n
      → Fits q (answer_prepare cfg random send now from b slot n)
  unfolding answer_prepare
  answer_prepare-Fits calm now from b slot n h = calm now from _ _ (omega arith) (
      if_ind (Fits q) (not (from == cfg.self))
        (λ _.
          note_leader-Fits cfg random q now b (refresh_lease cfg random now b n)
            (refresh_lease-Fits cfg random q now b n h))
        (λ _. h))

  pub on_prepare-Fits :
      Calm 3 q send
      → (now : ℕ) (from : NodeId) (b : Ballot) (slot : Slot) (n : Node) → Fits q n
      → Fits q (on_prepare cfg random send now from b slot n)
  unfolding on_prepare
  on_prepare-Fits calm now from b slot n h =
      if_ind (Fits q) (is_zero b) (λ _. h)
        (λ _.
          if_ind (Fits q) (same_ballot b n.promised)
            (λ _. answer_prepare-Fits calm now from b slot n h)
            (λ _.
              if_ind (Fits q) (not (may_promise n.promised b))
                (λ _. calm now from _ n (omega arith) h)
                (λ _.
                  if_ind (Fits q) (leased cfg random send now b n)
                    (λ _. calm now from _ n (omega arith) h)
                    (λ _.
                      let h' = set_promised-Fits cfg random q now b n h in
                      if_ind (Fits q) (set_promised cfg random now b n).failed (λ _. h')
                        (λ _. answer_prepare-Fits calm now from b slot _ h')))))

  take_accept-Fits :
      Calm 1 q send
      → (now : ℕ) (from : NodeId) (pv : PValue) (n : Node) → Fits q n
      → Fits q (take_accept cfg random send now from pv n)
  unfolding take_accept
  take_accept-Fits calm now from pv n h =
      if_ind (Fits q) (put_accepted pv n.core).failed (λ _. h)
        (λ _.
          calm now from _ _ (omega arith)
            (noted now from pv.ballot (record n { core = put_accepted pv n.core }) h))

  pub on_accept-Fits :
      Calm 1 q send
      → (now : ℕ) (from : NodeId) (b : Ballot) (slot : Slot) (v : Value) (n : Node) → Fits q n
      → Fits q (on_accept cfg random send now from b slot v n)
  unfolding on_accept
  on_accept-Fits calm now from b slot v n h =
      let pv : PValue = record { ballot = b; slot = slot; value = v } in
      if_ind (Fits q) (is_zero b || slot == 0) (λ _. h)
        (λ _.
          if_ind (Fits q) (not (may_accept n.promised b || cfg.unsafe.accept_below_promise))
            (λ _. calm now from _ n (omega arith) h)
            (λ _.
              if_ind (Fits q) (less n.promised b)
                (λ _.
                  let n' = set_promised cfg random now b n in
                  let h' = set_promised-Fits cfg random q now b n h in
                  if_ind (Fits q) n'.failed (λ _. h')
                    (λ _. take_accept-Fits calm now from pv n' h'))
                (λ _. take_accept-Fits calm now from pv n h)))

  ack_heartbeat-Fits :
      Calm 2 q send
      → (now : ℕ) (from : NodeId) (m : Heartbeat) (n : Node) → Fits q n
      → Fits q (ack_heartbeat cfg random send now from m n)
  unfolding ack_heartbeat
  ack_heartbeat-Fits calm now from m n h =
      let r = refresh_lease cfg random now m.ballot n in
      let n' = if not (from == cfg.self) then note_leader cfg random now m.ballot r else r in
      calm now from _ n' (omega arith) (noted now from m.ballot n h)

  catch_up-Fits :
      Calm 2 q send
      → (now : ℕ) (from : NodeId) (m : Heartbeat) (n : Node) → Fits q n
      → Fits q (catch_up cfg random send now from m n)
  unfolding catch_up
  catch_up-Fits calm now from m n h =
      if_ind (Fits q) (behind cfg random send now from m n)
        (λ _.
          calm now from _ (record n { learn_req_after = now + cfg.heartbeat_interval })
            (omega arith) h)
        (λ _. h)

  follow-Fits :
      Calm 2 q send
      → (now : ℕ) (from : NodeId) (m : Heartbeat) (n : Node) → Fits q n
      → Fits q (follow cfg random send now from m n)
  unfolding follow
  follow-Fits calm now from m n h =
      catch_up-Fits calm now from m (ack_heartbeat cfg random send now from m n)
        (ack_heartbeat-Fits calm now from m n h)

  pub on_heartbeat-Fits :
      Calm 2 q send
      → (now : ℕ) (from : NodeId) (m : Heartbeat) (n : Node) → Fits q n
      → Fits q (on_heartbeat cfg random send now from m n)
  unfolding on_heartbeat
  on_heartbeat-Fits calm now from m n h =
      if_ind (Fits q) (is_zero m.ballot) (λ _. h)
        (λ _.
          if_ind (Fits q) (less m.ballot n.promised) (λ _. calm now from _ n (omega arith) h)
            (λ _.
              if_ind (Fits q) (less n.promised m.ballot)
                (λ _.
                  let h' = set_promised-Fits cfg random q now m.ballot n h in
                  if_ind (Fits q) (set_promised cfg random now m.ballot n).failed (λ _. h')
                    (λ _. follow-Fits calm now from m _ h'))
                (λ _. follow-Fits calm now from m n h)))

  send_chosen-Fits :
      Calm 1 q send
      → (now : ℕ) (to : NodeId) (count : ℕ) (s : Slot) (n : Node) → Fits q n
      → Fits q (send_chosen cfg random send now to count s n)
  unfolding send_chosen
  send_chosen-Fits calm now to zero s n h = h
  send_chosen-Fits calm now to (suc count) s n h =
      send_chosen-Fits calm now to count (s + 1) _ (answered (lookup s n.chosen))
    where
      answered :
          (o : Option Entry)
          → Fits q (elim o [
            | none ↦ n
            | some e ↦
                send now to
                  (Message.learn (record { slot = s; ballot = e.ballot; value = e.value }))
                  n
          ])
      answered none = h
      answered (some e) = calm now to _ n (omega arith) h

  pub on_learn_request-Fits :
      Calm 1 q send
      → (now : ℕ) (from : NodeId) (s : Slot) (k : ℕ) (n : Node) → Fits q n
      → Fits q (on_learn_request cfg random send now from s k n)
  unfolding on_learn_request
  on_learn_request-Fits calm now from s k n h =
      if_ind (Fits q) (from == cfg.self || s == 0) (λ _. h)
        (λ _.
          if_ind (Fits q) (ltb s (u64 (s + batch cfg random send k)))
            (λ _. send_chosen-Fits calm now from (batch cfg random send k) s n h) (λ _. h))
