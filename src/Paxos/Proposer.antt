-- ===== src/Paxos/Proposer.antt =====
-- internal/paxos/proposer.go: the reference single-decree proposer.
use paxos_arena.Prelude.{
  ℕ, Bool, true, false, not, ◌&&◌, ◌||◌, Option, none, some, List, [], ◌∷◌, if◌then◌else◌, leb,
  length, insert,
}
use paxos_arena.Paxos.{
  NodeId, Ballot, Value, PValue, zero_ballot, is_zero, same_ballot, quorum, choose,
}
use paxos_arena.Paxos.Acceptor.{Promise, Nack}

-- `promises` is none for the nil map. `accepts` is a set of nodes.
pub record Proposer : Type 0 where
  pub self : NodeId
  pub n : ℕ
  pub ballot : Ballot
  pub promises : Option (List (NodeId × Promise))
  pub accepts : List (NodeId × Unit {0})
  pub abandoned : Bool
  pub proposed : Bool
  pub value : Value

unfoldable pub new_proposer : NodeId → ℕ → Proposer
new_proposer self n = record {
  self = self;
  n = n;
  ballot = zero_ballot;
  promises = none;
  accepts = [];
  abandoned = false;
  proposed = false;
  value = [];
}

unfoldable pub start : Proposer → ℕ → Proposer × Ballot
start p round = (
  record p {
    ballot = record { round = round; node = p.self };
    promises = some [];
    accepts = [];
    abandoned = false;
    proposed = false;
    value = [];
  },
  record { round = round; node = p.self },
)

abbrev pub collected : Option (List (NodeId × Promise)) → List (NodeId × Promise)
collected none = []
collected (some m) = m

abbrev pub is_nil : Option (List (NodeId × Promise)) → Bool
is_nil none = true
is_nil (some _) = false

unfoldable pub ready : Proposer → Bool
ready p =
    not p.abandoned && not (is_nil p.promises) && leb (quorum p.n) (length (collected p.promises))

unfoldable pub on_promise : Proposer → NodeId → Promise → Proposer × Bool
unfolding ready same_ballot
on_promise p from m =
    if p.abandoned || p.proposed || not (same_ballot m.ballot p.ballot) || is_nil p.promises
    then (p, ready p)
    else (let p' = record p { promises = some (insert from m (collected p.promises)) } in
        (p', ready p'))

unfoldable pub on_nack : Proposer → Nack → Proposer
unfolding same_ballot
on_nack p m = if same_ballot m.ballot p.ballot then record p { abandoned = true } else p

-- The reports that `Propose` gathers, in the order in which the map is walked.
unfoldable pub reports : List (NodeId × Promise) → List PValue
reports [] = []
reports ((from, m) ∷ ms) =
    if not (is_zero m.accepted)
    then record { ballot = m.accepted; slot = 0; value = m.value } ∷ reports ms
    else reports ms

-- `none` is `ErrNoQuorum`.
unfoldable pub propose : Proposer → Value → Proposer × Option (Ballot × Value)
unfolding ready reports
propose p want =
    if not (ready p)
    then (p, none)
    else if p.proposed
    then (p, some (p.ballot, p.value))
    else (let v = choose (reports (collected p.promises)) want in
        (record p { value = v; proposed = true }, some (p.ballot, v)))

unfoldable pub on_accepted : Proposer → NodeId → Ballot → Proposer × Bool
unfolding same_ballot
on_accepted p from b =
    if p.abandoned || not p.proposed || not (same_ballot b p.ballot)
    then (p, false)
    else (let p' = record p { accepts = insert from tt p.accepts } in
        (p', leb (quorum p.n) (length p'.accepts)))
