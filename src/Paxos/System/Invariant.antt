-- ===== src/Paxos/System/Invariant.antt =====
-- What holds of the acceptors, the proposers and the messages in every reachable state.
use paxos_arena.Prelude.{◌≤◌, ◌≡◌, ◌⊎◌, Bool, true, false, List, Elem, All, IsMap, length, count}
use paxos_arena.Paxos.{NodeId, Ballot, Value, less, is_zero, quorum, zero_ballot}
use paxos_arena.Paxos.Acceptor.{Acceptor, Promise}
use paxos_arena.Paxos.Proposer.{Proposer, collected, is_nil}
use paxos_arena.Paxos.System.{Network, System}

-- An acceptor has voted for nothing above what it reports, and reports a proposal that was sent.
pub record AcceptorOk (net : Network) (a : NodeId) (x : Acceptor) : Type 0 where
  pub valid : less x.promised x.accepted ≡ false
  pub votes : (b : Ballot) → Elem (a, b) net.accepteds → less x.accepted b ≡ false
  pub reported : (is_zero x.accepted ≡ true) ⊎ Elem (x.accepted, x.value) net.accepts

-- A promise binds its acceptor, and reports its last vote below the promised ballot.
pub record PromiseOk (peers : List NodeId) (s : System) (a : NodeId) (m : Promise) : Type 0 where
  pub peer : Elem a peers
  pub bound : less (s.acceptor a).promised m.ballot ≡ false
  pub sent : (is_zero m.accepted ≡ true) ⊎ Elem (m.accepted, m.value) s.net.accepts
  pub gap :
      (b : Ballot)
      → less m.accepted b ≡ true
      → less b m.ballot ≡ true
      → ¬ Elem (a, b) s.net.accepteds

pub record ProposerOk (peers : List NodeId) (net : Network) (p : NodeId) (q : Proposer)
    : Type 0 where
  pub self : q.self ≡ p
  pub size : q.n ≡ length peers
  pub promise_map : IsMap (collected q.promises)
  pub promise_all : All (λ e. Elem e net.promises × (e.1.ballot ≡ q.ballot)) (collected q.promises)
  pub accept_map : IsMap q.accepts
  pub accept_all : All (λ e. Elem (e.0, q.ballot) net.accepteds) q.accepts
  pub attempt :
      ((q.ballot ≡ zero_ballot) × (is_nil q.promises ≡ true))
      ⊎ (Elem q.ballot net.prepares × (q.ballot.node ≡ p))
  pub unproposed : q.proposed ≡ false → (v : Value) → ¬ Elem (q.ballot, v) net.accepts
  pub proposed : q.proposed ≡ true → Elem (q.ballot, q.value) net.accepts

-- No value other than `v` is or will ever be chosen at a ballot below `b`: at each of them a
-- majority has promised more, and whoever of it voted there voted for `v`.
abbrev pub Safe : List NodeId → System → Ballot → Value → Type 0
Safe peers s b v =
    (b' : Ballot)
    → is_zero b' ≡ false
    → less b' b ≡ true
    → (f : NodeId → Bool) × (quorum (length peers) ≤ count f peers)
      × ((a : NodeId)
          → f a ≡ true
          → (less b' (s.acceptor a).promised ≡ true)
            × (Elem (a, b') s.net.accepteds → Elem (b', v) s.net.accepts))

pub record ProposalsOk (net : Network) : Type 0 where
  pub nonzero : (b : Ballot) → Elem b net.prepares → is_zero b ≡ false
  pub prepared : (b : Ballot) (v : Value) → Elem (b, v) net.accepts → Elem b net.prepares
  pub unique :
      (b : Ballot) (v w : Value) → Elem (b, v) net.accepts → Elem (b, w) net.accepts → v ≡ w
  pub asked : (b : Ballot) (v : Value) → Elem (b, v) net.accepts → Elem v net.wanted
  pub voters :
      (a : NodeId) (b : Ballot) → Elem (a, b) net.accepteds → (v : Value) × Elem (b, v) net.accepts

pub record Inv (peers : List NodeId) (s : System) : Type 0 where
  pub acceptors : (a : NodeId) → AcceptorOk s.net a (s.acceptor a)
  pub proposers : (p : NodeId) → ProposerOk peers s.net p (s.proposer p)
  pub promises : (a : NodeId) (m : Promise) → Elem (a, m) s.net.promises → PromiseOk peers s a m
  pub proposals : ProposalsOk s.net
  pub safe : (b : Ballot) (v : Value) → Elem (b, v) s.net.accepts → Safe peers s b v
  pub electorate : (a : NodeId) (b : Ballot) → Elem (a, b) s.net.accepteds → Elem a peers
