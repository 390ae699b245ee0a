-- ===== src/Replog/Run.antt =====
-- The calls that a host makes on a node between `New` and the end of the process.
pub mod Safety
use paxos_arena.Prelude.{ℕ, ◌+◌, ◌^◌, ◌<◌}
use paxos_arena.Paxos.{Value}
use paxos_arena.Replog.Message.{Envelope}
use paxos_arena.Replog.State.{Config, Node}
use paxos_arena.Replog.Calls.{step, tick, propose_call, read_index, take_events}

-- A tick needs room for one more round, so that `maxRound + 1` does not wrap.
pub data Run (cfg : Config) (random : ℕ → ℕ → ℕ) (start : Node) : Node → Type 0 where
  fresh : Run cfg random start start
  stepped :
      {n : Node} (now : ℕ) (env : Envelope)
      → Run cfg random start n
      → Run cfg random start (step cfg random now env n).0
  ticked :
      {n : Node} (now : ℕ)
      → n.max_round + 1 < 2 ^ 64
      → Run cfg random start n
      → Run cfg random start (tick cfg random now n).0
  proposed :
      {n : Node} (now : ℕ) (v : Value)
      → Run cfg random start n
      → Run cfg random start (propose_call cfg random now v n).0
  asked :
      {n : Node} (now : ℕ)
      → Run cfg random start n
      → Run cfg random start (read_index cfg random now n).0
  drained : {n : Node} → Run cfg random start n → Run cfg random start (take_events n).0
