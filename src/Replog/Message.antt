-- ===== src/Replog/Message.antt =====
-- internal/replog/message.go: entries, the nine protocol messages, envelopes and events.
use paxos_arena.Prelude.{ℕ, Bool, List}
use paxos_arena.Paxos.{NodeId, Slot, Value, Ballot, PValue}

pub record Entry : Type 0 where
  pub slot : Slot
  pub ballot : Ballot
  pub value : Value

pub record Promise : Type 0 where
  pub ballot : Ballot
  pub accepted : List PValue
  pub commit_index : Slot

pub record Nack : Type 0 where
  pub ballot : Ballot
  pub promised : Ballot
  pub slot : Slot
  pub lease_remaining : ℕ

pub record Heartbeat : Type 0 where
  pub ballot : Ballot
  pub commit_index : Slot
  pub read_seq : ℕ

pub record HeartbeatAck : Type 0 where
  pub ballot : Ballot
  pub promised : Ballot
  pub commit_index : Slot
  pub read_seq : ℕ

-- `prepare b from_slot`, `accept b slot value`, `accepted b slot`, `learn entry` and
-- `learn_request from_slot max_count` carry the fields of their struct. A `MaxCount` below 1 is 0.
pub data Message : Type 0 where
  prepare : Ballot → Slot → Message
  promise : Promise → Message
  accept : Ballot → Slot → Value → Message
  accepted : Ballot → Slot → Message
  nack : Nack → Message
  learn : Entry → Message
  learn_request : Slot → ℕ → Message
  heartbeat : Heartbeat → Message
  heartbeat_ack : HeartbeatAck → Message

pub record Envelope : Type 0 where
  pub sender : NodeId
  pub receiver : NodeId
  pub msg : Message

-- `ReadFailed` carries a `NotLeaderError` with the leader that is named here.
pub data Event : Type 0 where
  leader_changed : NodeId → Ballot → Bool → Event
  read_ready : ℕ → Slot → Event
  read_failed : ℕ → NodeId → Event
  learn_conflict : Slot → Entry → Entry → Event
