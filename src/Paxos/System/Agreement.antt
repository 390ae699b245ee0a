-- ===== src/Paxos/System/Agreement.antt =====
-- Agreement and validity of single-decree Paxos, over every interleaving of the steps.
use mathlib.Core.Path.{subst}
use native.Mathlib.Nat.{le_trans}
use paxos_arena.Prelude.{
  ◌≤◌, ◌≡◌, refl, sym, inl, inr, Bool, true, not, ◌||◌, List, Elem, All, All-Elem, All-insert,
  insert, insert-IsMap, Bool-cases, Option, none, some, arith, length, count, count_overlap,
  has_key, has_key-Elem, length-le-count,
}
use paxos_arena.Paxos.{NodeId, Ballot, Value, less, is_zero, quorum, same_ballot}
use paxos_arena.Paxos.Order.{less_total, same_ballot_iff}
use paxos_arena.Paxos.Proposer.{Proposer, new_proposer, propose, on_accepted}
use paxos_arena.Paxos.Acceptor.{on_prepare, on_accept}
use paxos_arena.Paxos.System.{
  Network, System, init, after_propose, Step, start_attempt, deliver_prepare, deliver_promise,
  deliver_nack, propose_value, deliver_accept, deliver_accepted, crash, Steps, here, next, Learns,
  learns,
}
use paxos_arena.Paxos.System.Invariant.{Inv}
use paxos_arena.Paxos.System.Safety.{All-of}
use paxos_arena.Paxos.System.Votes.{prepared_at-Inv, accepted_at-Inv}
use paxos_arena.Paxos.System.Attempts.{
  started_by-Inv, promised_to-Inv, nacked-Inv, counted_by-Inv, restarted-Inv,
}
use paxos_arena.Paxos.System.Proposing.{proposed_by-Inv}

-- Every step keeps the invariant.
pub Step-Inv : {peers : List NodeId} {s t : System} → Step peers s t → Inv peers s → Inv peers t
Step-Inv (start_attempt p r pos fresh) inv = started_by-Inv inv p r pos fresh
Step-Inv (deliver_prepare a b peer e) inv = prepared_at-Inv inv a b peer
Step-Inv (deliver_promise p a m e) inv = promised_to-Inv inv p a m e
Step-Inv (deliver_nack p k e) inv = nacked-Inv inv p k
Step-Inv (propose_value p want) inv = proposed_by-Inv inv p want
Step-Inv (deliver_accept a b v peer e) inv = accepted_at-Inv inv a b v peer e
Step-Inv (deliver_accepted p a b e) inv = counted_by-Inv inv p a b e
Step-Inv (crash p) inv = restarted-Inv inv p

pub init-Inv : (peers : List NodeId) → Inv peers (init peers)
unfolding new_proposer less is_zero
init-Inv peers = record {
  acceptors = λ a. record { valid = refl; votes = λ b e. absurd e; reported = inl refl };
  proposers = λ p. record {
    self = refl;
    size = refl;
    promise_map = tt;
    promise_all = tt;
    accept_map = tt;
    accept_all = tt;
    attempt = inl (refl, refl);
    unproposed = λ e v o. o;
    proposed = λ e. cc;
  };
  promises = λ a m e. absurd e;
  proposals = record {
    nonzero = λ b e. absurd e;
    prepared = λ b v e. absurd e;
    unique = λ b v w e k. absurd e;
    asked = λ b v e. absurd e;
    voters = λ a b e. absurd e;
  };
  safe = λ b v e. absurd e;
  electorate = λ a b e. absurd e;
}

pub Steps-Inv : {peers : List NodeId} {s t : System} → Inv peers s → Steps peers s t → Inv peers t
Steps-Inv inv here = inv
Steps-Inv inv (next r st) = Step-Inv st (Steps-Inv inv r)

-- A majority has voted for `v` at `b`.
pub record IsChosen (peers : List NodeId) (s : System) (b : Ballot) (v : Value) : Type 0 where
  pub sent : Elem (b, v) s.net.accepts
  pub voter : NodeId → Bool
  pub most : quorum (length peers) ≤ count voter peers
  pub voted : (a : NodeId) → voter a ≡ true → Elem (a, b) s.net.accepteds

module _ {peers : List NodeId} {s : System} (inv : Inv peers s) where
  -- Two majorities share a voter, so a proposal above a chosen one carries its value.
  chosen_below :
      {b : Ballot} (c : Ballot) {v : Value} (w : Value)
      → IsChosen peers s b v
      → Elem (c, w) s.net.accepts
      → less b c ≡ true
      → v ≡ w
  chosen_below {b} c {v} w k sent lt =
      let nz = inv.proposals.nonzero b (inv.proposals.prepared b v k.sent) in
      let (f, q, safe) = inv.safe c w sent b nz lt in
      let (a, in_f, votes) = count_overlap f k.voter peers (omega (arith, q, k.most)) in
      inv.proposals.unique b v w k.sent ((safe a in_f).1 (k.voted a votes))

  pub IsChosen-unique :
      {b c : Ballot} {v w : Value} → IsChosen peers s b v → IsChosen peers s c w → v ≡ w
  IsChosen-unique {b} {c} {v} {w} k l = elim (less_total b c) [
    | inl lt ↦ chosen_below c w k l.sent lt
    | inr (inl same) ↦
        inv.proposals.unique c v w (subst (λ x. Elem (x, v) s.net.accepts) same k.sent) l.sent
    | inr (inr gt) ↦ sym (chosen_below b v l k.sent gt)
  ]

  -- The votes that a proposer has counted, with one more, are votes of members.
  counted :
      (p a : NodeId)
      → Elem (a, (s.proposer p).ballot) s.net.accepteds
      → (s.proposer p).proposed ≡ true
      → quorum (length peers) ≤ length (insert a tt (s.proposer p).accepts)
      → IsChosen peers s (s.proposer p).ballot (s.proposer p).value
  counted p a e did most = record {
    sent = (inv.proposers p).proposed did;
    voter = λ c. has_key c m;
    most = le_trans most (
        length-le-count m peers (insert-IsMap a tt q.accepts (inv.proposers p).accept_map) (
          All-of (λ e. Elem e.0 peers) m
            (λ e k. inv.electorate e.0 q.ballot (All-Elem P e m votes k))));
    voted = λ c h. let (u, k) = has_key-Elem c m h in All-Elem P (c, u) m votes k;
  }
    where
      q : Proposer
      q = s.proposer p

      m : List (NodeId × Unit {0})
      m = insert a tt q.accepts

      P : NodeId × Unit {0} → Type 0
      P e = Elem (e.0, q.ballot) s.net.accepteds

      votes : All P m
      votes = All-insert P a tt q.accepts (inv.proposers p).accept_all e

  pub Learns-IsChosen : {v : Value} → Learns s v → (b : Ballot) × IsChosen peers s b v
  unfolding on_accepted
  Learns-IsChosen (learns p a b e done same) =
      elim (Bool-cases (q.abandoned || not q.proposed || not (same_ballot b q.ballot))) [
        | inl dropped ↦ absurd (ground arith)
        | inr taken ↦ (
          q.ballot,
          rw same (
              counted p a (rw (← (same_ballot_iff b q.ballot).0 (ground arith)) e) (ground arith)
                (ground (arith, (inv.proposers p).size))),
        )
      ]
    where
      q : Proposer
      q = s.proposer p

after_propose-keeps :
    (net : Network) (want : Value) (o : Option (Ballot × Value))
    → ((e : Ballot × Value) → Elem e net.accepts → Elem e (after_propose net want o).accepts)
      × ((e : NodeId × Ballot) → Elem e net.accepteds → Elem e (after_propose net want o).accepteds)
after_propose-keeps net want none = (λ e h. h, λ e h. h)
after_propose-keeps net want (some bv) = (λ e h. inr h, λ e h. h)

-- Votes and proposals stay in the network.
Step-keeps :
    {peers : List NodeId} {s t : System}
    → Step peers s t
    → ((e : Ballot × Value) → Elem e s.net.accepts → Elem e t.net.accepts)
      × ((e : NodeId × Ballot) → Elem e s.net.accepteds → Elem e t.net.accepteds)
Step-keeps (start_attempt p r pos fresh) = (λ e h. h, λ e h. h)
Step-keeps {s} (deliver_prepare a b peer e) = elim (Bool-cases (on_prepare (s.acceptor a) b).3) [
  | inl c ↦ rw c (λ e h. h, λ e h. h)
  | inr c ↦ rw c (λ e h. h, λ e h. h)
]
Step-keeps (deliver_promise p a m e) = (λ e h. h, λ e h. h)
Step-keeps (deliver_nack p k e) = (λ e h. h, λ e h. h)
Step-keeps {s} (propose_value p want) =
    after_propose-keeps s.net want (propose (s.proposer p) want).1
Step-keeps {s} (deliver_accept a b v peer e) = elim (Bool-cases (on_accept (s.acceptor a) b v).2) [
  | inl c ↦ rw c (λ e h. h, λ e h. inr h)
  | inr c ↦ rw c (λ e h. h, λ e h. h)
]
Step-keeps (deliver_accepted p a b e) = (λ e h. h, λ e h. h)
Step-keeps (crash p) = (λ e h. h, λ e h. h)

IsChosen-Step :
    {peers : List NodeId} {s t : System} {b : Ballot} {v : Value}
    → Step peers s t
    → IsChosen peers s b v
    → IsChosen peers t b v
IsChosen-Step {b} {v} st k = record {
  sent = (Step-keeps st).0 (b, v) k.sent;
  voter = k.voter;
  most = k.most;
  voted = λ a h. (Step-keeps st).1 (a, b) (k.voted a h);
}

IsChosen-Steps :
    {peers : List NodeId} {s t : System} {b : Ballot} {v : Value}
    → Steps peers s t
    → IsChosen peers s b v
    → IsChosen peers t b v
IsChosen-Steps here k = k
IsChosen-Steps (next r st) k = IsChosen-Step st (IsChosen-Steps r k)

-- Agreement: in any run from the start, with messages lost, repeated and reordered and proposers
-- crashing, if one proposer learns that `v` is chosen and then or later any proposer learns that
-- `w` is chosen, then `v` and `w` are equal.
pub agreement :
    (peers : List NodeId) {s t : System} {v w : Value}
    → Steps peers (init peers) s
    → Steps peers s t
    → Learns s v
    → Learns t w
    → v ≡ w
agreement peers r r' l l' =
    let inv = Steps-Inv (init-Inv peers) r in
    let later = Steps-Inv inv r' in
    IsChosen-unique later (IsChosen-Steps r' (Learns-IsChosen inv l).1) (Learns-IsChosen later l').1

-- Validity: in any run from the start, a value that a proposer learns to be chosen was handed to
-- `Propose` by some caller.
pub validity :
    (peers : List NodeId) {s : System} {v : Value}
    → Steps peers (init peers) s
    → Learns s v
    → Elem v s.net.wanted
validity peers {s} {v} r l =
    let inv = Steps-Inv (init-Inv peers) r in
    let (b, k) = Learns-IsChosen inv l in inv.proposals.asked b v k.sent
