-- ===== src/Replog/Handle.antt =====
-- internal/replog/node.go: `handle`, which calls itself through messages to the node itself.
use paxos_arena.Prelude.{ℕ, zero, suc, ◌+◌, ◌*◌, true, if◌then◌else◌, length}
use paxos_arena.Paxos.{NodeId}
use paxos_arena.Replog.Message.{Message, Envelope}
use paxos_arena.Replog.State.{Config, Node}
use paxos_arena.Replog.Plumbing.{Send, send_with}
use paxos_arena.Replog.Acceptor.{on_prepare, on_accept, on_heartbeat, on_learn_request}
use paxos_arena.Replog.Leader.{on_promise, on_accepted, on_nack, on_learn, on_heartbeat_ack}

module _ (cfg : Config) (random : ℕ → ℕ → ℕ) where
  unfoldable pub dispatch : Send → ℕ → NodeId → Message → Node → Node
  dispatch send now from (Message.prepare b s) n = on_prepare cfg random send now from b s n
  dispatch send now from (Message.promise m) n = on_promise cfg random send now from m n
  dispatch send now from (Message.accept b s v) n = on_accept cfg random send now from b s v n
  dispatch send now from (Message.accepted b s) n = on_accepted cfg random send now from b s n
  dispatch send now from (Message.nack m) n = on_nack cfg random send now m n
  dispatch send now from (Message.learn e) n = on_learn cfg random send now e n
  dispatch send now from (Message.learn_request s k) n =
      on_learn_request cfg random send now from s k n
  dispatch send now from (Message.heartbeat m) n = on_heartbeat cfg random send now from m n
  dispatch send now from (Message.heartbeat_ack m) n = on_heartbeat_ack cfg random send now from m n

  -- `fuel` bounds how deep messages to the node itself are nested.
  unfoldable pub handle : ℕ → ℕ → Envelope → Node → Node
  unfolding dispatch
  handle zero now env n = record n { stuck = true }
  handle (suc fuel) now env n =
      let rest = dispatch (send_with cfg random (handle fuel)) now env.sender env.msg n in
      if n.failed then n else rest

  -- The nesting is deepest where every accepted proposal of the node lets it take the next value
  -- off its queue: two messages for each, and four before the first.
  unfoldable pub send : Send
  unfolding handle send_with
  send now to m n = send_with cfg random (handle (4 + 2 * length n.queue)) now to m n
