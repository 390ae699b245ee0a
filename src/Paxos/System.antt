-- ===== src/Paxos/System.antt =====
-- internal/paxos/acceptor.go and proposer.go at work: acceptors and proposers that exchange
-- messages over a network that loses, delays, repeats and reorders them. Nothing is taken out of
-- the network, so a message may be delivered any number of times or never. Proposers may crash.
pub mod Invariant
pub mod Growth
pub mod Votes
pub mod Attempts
pub mod Safety
pub mod Proposing
pub mod Agreement
use paxos_arena.Prelude.{
  ℕ, ◌<◌, ◌≡◌, Bool, true, false, Option, none, some, List, [], ◌∷◌, ◌==◌, if◌then◌else◌, Elem,
  length,
}
use paxos_arena.Paxos.{NodeId, Ballot, Value}
use paxos_arena.Paxos.Acceptor.{Acceptor, Promise, Nack, zero_acceptor, on_prepare, on_accept}
use paxos_arena.Paxos.Proposer.{
  Proposer, new_proposer, start, on_promise, on_nack, propose, on_accepted,
}

-- The messages sent so far. `wanted` records the values that callers handed to `Propose`.
pub record Network : Type 0 where
  pub prepares : List Ballot
  pub promises : List (NodeId × Promise)
  pub nacks : List Nack
  pub accepts : List (Ballot × Value)
  pub accepteds : List (NodeId × Ballot)
  pub wanted : List Value

pub record System : Type 0 where
  pub acceptor : NodeId → Acceptor
  pub proposer : NodeId → Proposer
  pub net : Network

abbrev pub update {ℓ} : {A : Type ℓ} → (NodeId → A) → NodeId → A → NodeId → A
update f i a j = if i == j then a else f j

-- Before any step; every node that proposes knows the number of acceptors.
abbrev pub init : List NodeId → System
init peers = record {
  acceptor = λ _. zero_acceptor;
  proposer = λ p. new_proposer p (length peers);
  net = record {
    prepares = [];
    promises = [];
    nacks = [];
    accepts = [];
    accepteds = [];
    wanted = [];
  };
}

-- An Accept is sent if `Propose` returned one.
abbrev pub after_propose : Network → Value → Option (Ballot × Value) → Network
after_propose net want none = record net { wanted = want ∷ net.wanted }
after_propose net want (some bv) = record net {
  accepts = bv ∷ net.accepts;
  wanted = want ∷ net.wanted;
}

module _ (s : System) where
  -- Proposer `p` starts an attempt and sends Prepare.
  abbrev pub started_by : NodeId → ℕ → System
  started_by p r =
      let (q, b) = start (s.proposer p) r in
      record s {
        proposer = update s.proposer p q;
        net = record (s.net) { prepares = b ∷ s.net.prepares };
      }

  -- Acceptor `a` answers a Prepare.
  abbrev pub prepared_at : NodeId → Ballot → System
  prepared_at a b =
      let (x, m, k, granted) = on_prepare (s.acceptor a) b in
      record s {
        acceptor = update s.acceptor a x;
        net =
            if granted
            then record (s.net) { promises = (a, m) ∷ s.net.promises }
            else record (s.net) { nacks = k ∷ s.net.nacks };
      }

  -- Proposer `p` takes the promise of `a`.
  abbrev pub promised_to : NodeId → NodeId → Promise → System
  promised_to p a m = record s { proposer = update s.proposer p (on_promise (s.proposer p) a m).0 }

  abbrev pub nacked : NodeId → Nack → System
  nacked p k = record s { proposer = update s.proposer p (on_nack (s.proposer p) k) }

  -- Proposer `p` is asked to propose `want`, and sends Accept if it may.
  abbrev pub proposed_by : NodeId → Value → System
  proposed_by p want =
      let (q, sent) = propose (s.proposer p) want in
      record s { proposer = update s.proposer p q; net = after_propose s.net want sent }

  -- Acceptor `a` answers an Accept.
  abbrev pub accepted_at : NodeId → Ballot → Value → System
  accepted_at a b v =
      let (x, k, taken) = on_accept (s.acceptor a) b v in
      record s {
        acceptor = update s.acceptor a x;
        net =
            if taken
            then record (s.net) { accepteds = (a, b) ∷ s.net.accepteds }
            else record (s.net) { nacks = k ∷ s.net.nacks };
      }

  -- Proposer `p` counts the vote of `a`.
  abbrev pub counted_by : NodeId → NodeId → Ballot → System
  counted_by p a b = record s { proposer = update s.proposer p (on_accepted (s.proposer p) a b).0 }

  -- Proposer `p` crashes and loses its state. An acceptor's state is durable.
  abbrev pub restarted : List NodeId → NodeId → System
  restarted peers p = record s { proposer = update s.proposer p (new_proposer p (length peers)) }

-- A ballot is used for one attempt: `Start` is called with a round that the node has not used.
pub data Step (peers : List NodeId) (s : System) : System → Type 0 where
  start_attempt :
      (p : NodeId) (r : ℕ)
      → 0 < r
      → ¬ Elem (record { round = r; node = p }) s.net.prepares
      → Step peers s (started_by s p r)
  deliver_prepare :
      (a : NodeId) (b : Ballot)
      → Elem a peers
      → Elem b s.net.prepares
      → Step peers s (prepared_at s a b)
  deliver_promise :
      (p a : NodeId) (m : Promise) → Elem (a, m) s.net.promises → Step peers s (promised_to s p a m)
  deliver_nack : (p : NodeId) (k : Nack) → Elem k s.net.nacks → Step peers s (nacked s p k)
  propose_value : (p : NodeId) (want : Value) → Step peers s (proposed_by s p want)
  deliver_accept :
      (a : NodeId) (b : Ballot) (v : Value)
      → Elem a peers
      → Elem (b, v) s.net.accepts
      → Step peers s (accepted_at s a b v)
  deliver_accepted :
      (p a : NodeId) (b : Ballot) → Elem (a, b) s.net.accepteds → Step peers s (counted_by s p a b)
  crash : (p : NodeId) → Step peers s (restarted s peers p)

pub data Steps (peers : List NodeId) (s : System) : System → Type 0 where
  here : Steps peers s s
  next : {t u : System} → Steps peers s t → Step peers t u → Steps peers s u

-- Proposer `p` sees its value `v` chosen when the vote of `a` at `b` reaches it.
pub data Learns (s : System) (v : Value) : Type 0 where
  learns :
      (p a : NodeId) (b : Ballot)
      → Elem (a, b) s.net.accepteds
      → (on_accepted (s.proposer p) a b).1 ≡ true
      → v ≡ (s.proposer p).value
      → Learns s v
