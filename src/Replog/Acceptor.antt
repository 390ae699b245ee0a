-- ===== src/Replog/Acceptor.antt =====
-- internal/replog/node.go, "acceptor and learner rules". A handler is given `send`.
use paxos_arena.Prelude.{
  ℕ, zero, suc, ◌+◌, ◌-◌, Bool, not, ◌&&◌, ◌||◌, none, some, List, [], ◌∷◌, if◌then◌else◌, lookup,
  insert, ltb, leb, ◌==◌,
}
use paxos_arena.Paxos.{
  NodeId, Slot, Value, Ballot, PValue, less, is_zero, same_ballot, may_promise, may_accept,
}
use paxos_arena.Replog.Message.{Entry, Message, Heartbeat}
use paxos_arena.Replog.Durable.{Core, u64, save, save_accepted, save_chosen, advance_commit}
use paxos_arena.Replog.State.{Config, Node}
use paxos_arena.Replog.Plumbing.{Send, sort_by, set_promised, refresh_lease, note_leader}

-- The values of a map whose key is not below `from`.
unfoldable pub values_from : {V : Type 0} → ℕ → List (ℕ × V) → List V
values_from from [] = []
values_from from ((s, v) ∷ m) = if leb from s then v ∷ values_from from m else values_from from m

unfoldable pub accepted_from : Slot → Node → List PValue
unfolding values_from
accepted_from from n = sort_by (λ pv. pv.slot) (values_from from n.accepted)

-- The writes of `onAccept`: the store first, then the map.
unfoldable pub put_accepted : PValue → Core → Core
put_accepted pv c =
    let c' = save (save_accepted pv) c in
    if c'.failed then c' else record c' { accepted = insert pv.slot pv c'.accepted }

-- The writes of `learn`: the store, the map and the commit index.
unfoldable pub put_chosen : Entry → Core → Core
put_chosen e c =
    let c' = save (save_chosen e) c in
    if c'.failed then c' else advance_commit (record c' { chosen = insert e.slot e c'.chosen })

module _ (cfg : Config) (random : ℕ → ℕ → ℕ) (send : Send) where
  -- The end of `onPrepare`, once the promise is `b`.
  unfoldable pub answer_prepare : ℕ → NodeId → Ballot → Slot → Node → Node
  answer_prepare now from b slot n =
      let n' =
        if not (from == cfg.self)
        then note_leader cfg random now b (refresh_lease cfg random now b n)
        else n in
      send now from
        (Message.promise
          (record { ballot = b; accepted = accepted_from slot n'; commit_index = n'.commit_index }))
        n'

  unfoldable pub leased : ℕ → Ballot → Node → Bool
  leased now b n =
      ltb 0 cfg.lease_duration && ltb now n.lease_until && not (b.node == n.lease_holder)

  abbrev pub refuse : Ballot → Slot → ℕ → Node → Message
  refuse b slot wait n =
      Message.nack
        (record { ballot = b; promised = n.promised; slot = slot; lease_remaining = wait })

  unfoldable pub on_prepare : ℕ → NodeId → Ballot → Slot → Node → Node
  unfolding answer_prepare leased
  on_prepare now from b slot n =
      if is_zero b
      then n
      else if same_ballot b n.promised
      then answer_prepare now from b slot n
      else if not (may_promise n.promised b)
      then send now from (refuse b 0 0 n) n
      else if leased now b n
      then send now from (refuse b 0 (n.lease_until - now) n) n
      else (let n' = set_promised cfg random now b n in
          if n'.failed then n' else answer_prepare now from b slot n')

  -- The end of `onAccept`, once the promise is not below `b`.
  unfoldable pub take_accept : ℕ → NodeId → PValue → Node → Node
  take_accept now from pv n =
      let n' = record n { core = put_accepted pv n.core } in
      if n'.failed
      then n'
      else (let leased_to = refresh_lease cfg random now pv.ballot n' in
          send now from (Message.accepted pv.ballot pv.slot) (
            if not (from == cfg.self)
            then note_leader cfg random now pv.ballot leased_to
            else leased_to))

  unfoldable pub on_accept : ℕ → NodeId → Ballot → Slot → Value → Node → Node
  unfolding take_accept
  on_accept now from b slot v n =
      let pv : PValue = record { ballot = b; slot = slot; value = v } in
      if is_zero b || slot == 0
      then n
      else if not (may_accept n.promised b || cfg.unsafe.accept_below_promise)
      then send now from (refuse b slot 0 n) n
      else if less n.promised b
      then (let n' = set_promised cfg random now b n in
          if n'.failed then n' else take_accept now from pv n')
      else take_accept now from pv n

  abbrev acknowledge : Heartbeat → Node → Message
  acknowledge m n = Message.heartbeat_ack (record {
    ballot = m.ballot;
    promised = n.promised;
    commit_index = n.commit_index;
    read_seq = m.read_seq;
  })

  -- The end of `onHeartbeat`: the acknowledgement, and a request for what is missing.
  unfoldable pub ack_heartbeat : ℕ → NodeId → Heartbeat → Node → Node
  ack_heartbeat now from m n =
      let leased_to = refresh_lease cfg random now m.ballot n in
      let n' =
        if not (from == cfg.self)
        then note_leader cfg random now m.ballot leased_to
        else leased_to in
      send now from (acknowledge m n') n'

  unfoldable pub behind : ℕ → NodeId → Heartbeat → Node → Bool
  behind now from m n =
      not (from == cfg.self) && ltb n.commit_index m.commit_index && leb n.learn_req_after now

  unfoldable pub catch_up : ℕ → NodeId → Heartbeat → Node → Node
  unfolding behind
  catch_up now from m n =
      if behind now from m n
      then send now from (Message.learn_request (u64 (n.commit_index + 1)) cfg.learn_batch)
          (record n { learn_req_after = now + cfg.heartbeat_interval })
      else n

  unfoldable pub follow : ℕ → NodeId → Heartbeat → Node → Node
  unfolding ack_heartbeat catch_up
  follow now from m n = catch_up now from m (ack_heartbeat now from m n)

  unfoldable pub on_heartbeat : ℕ → NodeId → Heartbeat → Node → Node
  unfolding follow
  on_heartbeat now from m n =
      if is_zero m.ballot
      then n
      else if less m.ballot n.promised
      then send now from (acknowledge m n) n
      else if less n.promised m.ballot
      then (let n' = set_promised cfg random now m.ballot n in
          if n'.failed then n' else follow now from m n')
      else follow now from m n

  -- The loop of `onLearnRequest` over `count` slots from `s` on.
  unfoldable pub send_chosen : ℕ → NodeId → ℕ → Slot → Node → Node
  send_chosen now to zero s n = n
  send_chosen now to (suc count) s n = send_chosen now to count (s + 1) (elim (lookup s n.chosen) [
    | none ↦ n
    | some e ↦
        send now to (Message.learn (record { slot = s; ballot = e.ballot; value = e.value })) n
  ])

  unfoldable pub batch : ℕ → ℕ
  batch max_count =
      if ltb max_count 1 || ltb cfg.learn_batch max_count then cfg.learn_batch else max_count

  -- `s < FromSlot + count` never holds where the sum wraps.
  unfoldable pub on_learn_request : ℕ → NodeId → Slot → ℕ → Node → Node
  unfolding send_chosen batch
  on_learn_request now from from_slot max_count n =
      let count = batch max_count in
      if from == cfg.self || from_slot == 0
      then n
      else if ltb from_slot (u64 (from_slot + count))
      then send_chosen now from count from_slot n
      else n
