-- ===== src/Paxos.antt =====
-- internal/paxos/paxos.go: identifiers, ballots and the rules of the protocol as pure functions.
pub mod Order
pub mod Choice
pub mod Acceptor
pub mod Proposer
pub mod System
mod Tests
use paxos_arena.Prelude.{
  ℕ, ◌+◌, ◌/◌, Bool, true, false, not, ◌&&◌, List, [], ◌∷◌, Ordering, ltb, ◌==◌, if◌then◌else◌,
}

-- `NodeID` is a uint32 and `Slot` a uint64; the rules only compare them.
abbrev pub NodeId : Type 0
NodeId = ℕ

abbrev pub Slot : Type 0
Slot = ℕ

-- A value is its bytes; the nil slice and the empty one are both the no-op.
abbrev pub Value : Type 0
Value = List ℕ

pub record Ballot : Type 0 where
  pub round : ℕ
  pub node : NodeId

abbrev pub zero_ballot : Ballot
zero_ballot = record { round = 0; node = 0 }

-- `Compare`, whose -1, 0 and 1 are `lt`, `eq` and `gt`.
unfoldable pub compare_ballots : Ballot → Ballot → Ordering
compare_ballots b o =
    if ltb b.round o.round
    then Ordering.lt
    else if ltb o.round b.round
    then Ordering.gt
    else if ltb b.node o.node
    then Ordering.lt
    else if ltb o.node b.node
    then Ordering.gt
    else Ordering.eq

unfoldable pub less : Ballot → Ballot → Bool
unfolding compare_ballots
less b o = elim (compare_ballots b o) [ Ordering.lt ↦ true | _ ↦ false ]

unfoldable pub is_zero : Ballot → Bool
is_zero b = b.round == 0 && b.node == 0

-- `==` of Go on two ballots.
unfoldable pub same_ballot : Ballot → Ballot → Bool
same_ballot b o = b.round == o.round && b.node == o.node

pub record PValue : Type 0 where
  pub ballot : Ballot
  pub slot : Slot
  pub value : Value

abbrev pub quorum : ℕ → ℕ
quorum n = n / 2 + 1

unfoldable pub may_promise : Ballot → Ballot → Bool
may_promise promised b = less promised b

unfoldable pub may_accept : Ballot → Ballot → Bool
may_accept promised b = not (less b promised)

-- The loop of `Choose`: `best` and `found` are its variables.
unfoldable pub choose_from : List PValue → PValue → Bool → PValue × Bool
choose_from [] best found = (best, found)
choose_from (r ∷ rs) best found =
    let take = not (is_zero r.ballot) && not (found && not (less best.ballot r.ballot)) in
    choose_from rs (if take then r else best) (if take then true else found)

abbrev zero_pvalue : PValue
zero_pvalue = record { ballot = zero_ballot; slot = 0; value = [] }

unfoldable pub choose : List PValue → Value → Value
unfolding choose_from
choose reports fallback =
    let (best, found) = choose_from reports zero_pvalue false in
    if not found then fallback else best.value

-- `ValueEqual`: byte for byte.
unfoldable pub value_equal : Value → Value → Bool
value_equal [] [] = true
value_equal (a ∷ as') (b ∷ bs) = a == b && value_equal as' bs
value_equal _ _ = false
