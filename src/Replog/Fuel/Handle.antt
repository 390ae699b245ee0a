-- ===== src/Replog/Fuel/Handle.antt =====
-- The nesting of messages to the node itself under `handle` and `send`.
use paxos_arena.Prelude.{ℕ, zero, suc, ◌+◌, ◌*◌, ◌≤◌, length, if_ind, ◌==◌, arith}
use paxos_arena.Paxos.{NodeId}
use paxos_arena.Replog.Message.{Message, Envelope}
use paxos_arena.Replog.State.{Config, Node}
use paxos_arena.Replog.Plumbing.{Send, send_with}
use paxos_arena.Replog.Handle.{dispatch, handle, send}
use paxos_arena.Replog.Fuel.Base.{rank, Fits, Calm, Far, send_with-Far}
use paxos_arena.Replog.Fuel.Acceptors.{
  on_prepare-Fits, on_accept-Fits, on_heartbeat-Fits, on_learn_request-Fits,
}
use paxos_arena.Replog.Fuel.Leaders.{
  on_learn-Fits, on_promise-Fits, on_accepted-Fits, on_nack-Fits, on_heartbeat_ack-Fits,
}

pub rank_bounds : (m : Message) → (1 ≤ rank m) × (rank m ≤ 4)
rank_bounds (Message.prepare b s) = (omega arith, omega arith)
rank_bounds (Message.promise m) = (omega arith, omega arith)
rank_bounds (Message.accept b s v) = (omega arith, omega arith)
rank_bounds (Message.accepted b s) = (omega arith, omega arith)
rank_bounds (Message.nack m) = (omega arith, omega arith)
rank_bounds (Message.learn e) = (omega arith, omega arith)
rank_bounds (Message.learn_request s k) = (omega arith, omega arith)
rank_bounds (Message.heartbeat m) = (omega arith, omega arith)
rank_bounds (Message.heartbeat_ack m) = (omega arith, omega arith)

module _ (cfg : Config) (random : ℕ → ℕ → ℕ) where
  dispatch-Fits :
      (fuel q : ℕ) (send : Send)
      → ((r p : ℕ) → r + 2 * p ≤ fuel → Calm r p send)
      → Far cfg.self q send
      → (now : ℕ) (from : NodeId) (m : Message) (n : Node) → rank m + 2 * q ≤ suc fuel
      → Fits q n
      → Fits q (dispatch cfg random send now from m n)
  unfolding dispatch
  dispatch-Fits fuel q send calm far now from (Message.prepare b s) n le h =
      on_prepare-Fits cfg random q send (calm 3 q (omega arith)) now from b s n h
  dispatch-Fits fuel q send calm far now from (Message.promise m) n le h =
      on_promise-Fits cfg random send q (calm 2 q (omega arith)) (λ p lt. calm 2 p (omega arith))
        now from m n h
  dispatch-Fits fuel q send calm far now from (Message.accept b s v) n le h =
      on_accept-Fits cfg random q send (calm 1 q (omega arith)) now from b s v n h
  dispatch-Fits fuel q send calm far now from (Message.accepted b s) n le h =
      on_accepted-Fits cfg random send q (λ p lt. calm 2 p (omega arith)) far now from b s n h
  dispatch-Fits fuel q send calm far now from (Message.nack m) n le h =
      on_nack-Fits cfg random send q now m n h
  dispatch-Fits fuel q send calm far now from (Message.learn e) n le h =
      on_learn-Fits cfg random send q (λ p lt. calm 2 p (omega arith)) now e n h
  dispatch-Fits fuel q send calm far now from (Message.learn_request s k) n le h =
      on_learn_request-Fits cfg random q send (calm 1 q (omega arith)) now from s k n h
  dispatch-Fits fuel q send calm far now from (Message.heartbeat m) n le h =
      on_heartbeat-Fits cfg random q send (calm 2 q (omega arith)) now from m n h
  dispatch-Fits fuel q send calm far now from (Message.heartbeat_ack m) n le h =
      on_heartbeat_ack-Fits cfg random send q now from m n h

  send_with-Calm :
      (fuel : ℕ) (rec : ℕ → Envelope → Node → Node)
      → ((p now : ℕ) (env : Envelope) (n : Node)
          → rank env.msg + 2 * p ≤ fuel
          → Fits p n
          → Fits p (rec now env n))
      → (r p : ℕ) → r + 2 * p ≤ fuel
      → Calm r p (send_with cfg random rec)
  unfolding send_with
  send_with-Calm fuel rec keep r p room now to m n le h =
      if_ind (Fits p) n.failed (λ _. h)
        (λ _. if_ind (Fits p) (to == cfg.self) (λ _. keep p now _ n (omega (arith, le)) h) (λ _. h))

  -- Fuel for the rank of a message and two more for each queued value is enough.
  pub handle-Fits :
      (fuel q now : ℕ) (env : Envelope) (n : Node)
      → rank env.msg + 2 * q ≤ fuel
      → Fits q n
      → Fits q (handle cfg random fuel now env n)
  unfolding handle
  handle-Fits zero q now env n le h =
      absurd (none_left (rank env.msg) (2 * q) (rank_bounds env.msg).0 le)
    where
      none_left : (a b : ℕ) → 1 ≤ a → a + b ≤ 0 → ⊥
      none_left a b x y = omega arith
  handle-Fits (suc fuel) q now env n le h =
      let calm = send_with-Calm fuel (handle cfg random fuel) (handle-Fits fuel) in
      let far = send_with-Far cfg random q (handle cfg random fuel) in
      if_ind (Fits q) n.failed (λ _. h)
        (λ _.
          dispatch-Fits fuel q (send_with cfg random (handle cfg random fuel)) calm far now
            env.sender env.msg n le h)

  pub send-Calm : (q : ℕ) → Calm 4 q (send cfg random)
  unfolding send
  send-Calm q now to m n le h =
      let f = 4 + 2 * length n.queue in
      let k =
        send_with-Calm f (handle cfg random f) (handle-Fits f) 4 (length n.queue) (omega arith) now
          to m n le (h.0, omega arith) in
      (k.0, omega (arith, k.1, h.1))
