-- ===== src/Paxos/Order.antt =====
-- Ballots are totally ordered by round, then by node.
use paxos_arena.Prelude.{◌≡◌, ◌⊎◌, ◌↔◌, true, false, arith}
use paxos_arena.Paxos.{Ballot, less, is_zero, same_ballot, zero_ballot}

pub less_trans : (a b c : Ballot) → less a b ≡ true → less b c ≡ true → less a c ≡ true
unfolding less
less_trans a b c p q = ground arith

pub not_less-less : (a b c : Ballot) → less b a ≡ false → less b c ≡ true → less a c ≡ true
unfolding less
not_less-less a b c p q = ground arith

pub less_not_less : (a b c : Ballot) → less a b ≡ true → less c b ≡ false → less a c ≡ true
unfolding less
less_not_less a b c p q = ground arith

pub not_less_trans : (a b c : Ballot) → less b a ≡ false → less c b ≡ false → less c a ≡ false
unfolding less
not_less_trans a b c p q = ground arith

pub less_asymm : (a b : Ballot) → less a b ≡ true → less b a ≡ false
unfolding less
less_asymm a b p = ground arith

pub less_irrefl : (a : Ballot) → less a a ≡ false
unfolding less
less_irrefl a = ground arith

pub less_total : (a b : Ballot) → (less a b ≡ true) ⊎ (a ≡ b) ⊎ (less b a ≡ true)
unfolding less
less_total a b = ground arith

pub same_ballot_iff : (a b : Ballot) → (same_ballot a b ≡ true) ↔ (a ≡ b)
unfolding same_ballot
same_ballot_iff a b = ground arith

pub zero_least : (a : Ballot) → less a zero_ballot ≡ false
unfolding less
zero_least a = ground arith

pub pos_of_not_zero : (a : Ballot) → is_zero a ≡ false → less zero_ballot a ≡ true
unfolding less is_zero
pos_of_not_zero a h = ground arith

pub less-is_zero : (a z : Ballot) → is_zero z ≡ true → less a z ≡ false
unfolding less is_zero
less-is_zero a z h = ground arith

pub is_zero-less : (z a : Ballot) → is_zero z ≡ true → is_zero a ≡ false → less z a ≡ true
unfolding less is_zero
is_zero-less z a h k = ground arith

pub less_both_false : (a b : Ballot) → less a b ≡ false → less b a ≡ false → a ≡ b
unfolding less
less_both_false a b p q = ground arith
