-- ===== src/Paxos/Acceptor.antt =====
-- internal/paxos/acceptor.go: the reference single-decree acceptor.
pub mod Laws
use paxos_arena.Prelude.{Bool, true, false, not, [], if◌then◌else◌}
use paxos_arena.Paxos.{Ballot, Value, zero_ballot, less, may_promise, may_accept}

pub record Acceptor : Type 0 where
  pub promised : Ballot
  pub accepted : Ballot
  pub value : Value

pub record Promise : Type 0 where
  pub ballot : Ballot
  pub accepted : Ballot
  pub value : Value

pub record Nack : Type 0 where
  pub ballot : Ballot
  pub promised : Ballot

abbrev pub zero_promise : Promise
zero_promise = record { ballot = zero_ballot; accepted = zero_ballot; value = [] }

abbrev pub zero_nack : Nack
zero_nack = record { ballot = zero_ballot; promised = zero_ballot }

-- A fresh acceptor is the zero value of the struct.
abbrev pub zero_acceptor : Acceptor
zero_acceptor = record { promised = zero_ballot; accepted = zero_ballot; value = [] }

unfoldable pub on_prepare : Acceptor → Ballot → Acceptor × Promise × Nack × Bool
unfolding may_promise
on_prepare a b =
    if not (may_promise a.promised b)
    then (a, zero_promise, record { ballot = b; promised = a.promised }, false)
    else (
      record a { promised = b },
      record { ballot = b; accepted = a.accepted; value = a.value },
      zero_nack,
      true,
    )

unfoldable pub on_accept : Acceptor → Ballot → Value → Acceptor × Nack × Bool
unfolding may_accept
on_accept a b v =
    if not (may_accept a.promised b)
    then (a, record { ballot = b; promised = a.promised }, false)
    else (
      record { promised = if less a.promised b then b else a.promised; accepted = b; value = v },
      zero_nack,
      true,
    )
