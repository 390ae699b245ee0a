-- ===== src/Replog/Machine.antt =====
-- The abstract specification of a node's durable side: an acceptor and learner that saves every
-- change before anything follows from it. internal/replog/node.go and store.go implement it.
pub mod Saves
pub mod Invariant
pub mod Growth
pub mod Restart
use paxos_arena.Prelude.{ℕ, ◌≤◌, ◌<◌, ◌≡◌, ◌≢◌, Bool, true, false}
use paxos_arena.Paxos.{Ballot, PValue, less, is_zero}
use paxos_arena.Replog.Message.{Entry}
use paxos_arena.Replog.Durable.{Core, save, save_promised, save_max_round}
use paxos_arena.Replog.Acceptor.{put_accepted, put_chosen}

-- What a core that has not failed may do next; the Save call that goes with it may fail.
pub data CoreStep (c : Core) : Core → Type 0 where
  raise_round :
      (r : ℕ)
      → c.failed ≡ false
      → c.max_round < r
      → CoreStep c (save (save_max_round r) (record c { max_round = r }))
  promise_ballot :
      (b : Ballot)
      → c.failed ≡ false
      → less c.promised b ≡ true
      → b.round ≤ c.max_round
      → CoreStep c (save (save_promised b) (record c { promised = b }))
  accept_value :
      (pv : PValue)
      → c.failed ≡ false
      → is_zero pv.ballot ≡ false
      → pv.slot ≢ 0
      → pv.ballot ≡ c.promised
      → CoreStep c (put_accepted pv c)
  learn_entry : (e : Entry) → c.failed ≡ false → CoreStep c (put_chosen e c)

pub data CoreSteps (c : Core) : Core → Type 0 where
  here : CoreSteps c c
  next : {d e : Core} → CoreSteps c d → CoreStep d e → CoreSteps c e
