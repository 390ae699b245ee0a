-- ===== src/Paxos/Acceptor/Laws.antt =====
-- What one acceptor guarantees over any list of requests.
use paxos_arena.Prelude.{◌≡◌, true, false, List, [], ◌∷◌, arith}
use paxos_arena.Paxos.{Ballot, Value, less}
use paxos_arena.Paxos.Order.{less_asymm, less_irrefl, not_less_trans, less_not_less}
use paxos_arena.Paxos.Acceptor.{Acceptor, on_prepare, on_accept}

pub data Request : Type 0 where
  prepare : Ballot → Request
  accept : Ballot → Value → Request

-- The acceptor after one request.
unfoldable pub serve : Acceptor → Request → Acceptor
serve a (prepare b) = (on_prepare a b).0
serve a (accept b v) = (on_accept a b v).0

unfoldable pub serve_all : Acceptor → List Request → Acceptor
serve_all a [] = a
serve_all a (r ∷ rs) = serve_all (serve a r) rs

-- Nothing is accepted above the promise.
abbrev pub IsValid : Acceptor → Type 0
IsValid a = less a.promised a.accepted ≡ false

serve-IsValid : (a : Acceptor) (r : Request) → IsValid a → IsValid (serve a r)
unfolding serve on_prepare on_accept less
serve-IsValid a (prepare b) h = ground arith
serve-IsValid a (accept b v) h = ground arith

serve-rises : (a : Acceptor) (r : Request) → less (serve a r).promised a.promised ≡ false
unfolding serve on_prepare on_accept less
serve-rises a (prepare b) = ground arith
serve-rises a (accept b v) = ground arith

-- From a fresh acceptor on, no list of requests leaves an accepted ballot above the promise.
pub serve_all-IsValid : (a : Acceptor) (rs : List Request) → IsValid a → IsValid (serve_all a rs)
unfolding serve_all
serve_all-IsValid a [] h = h
serve_all-IsValid a (r ∷ rs) h = serve_all-IsValid (serve a r) rs (serve-IsValid a r h)

serve_all-rises :
    (a : Acceptor) (rs : List Request) → less (serve_all a rs).promised a.promised ≡ false
unfolding serve_all
serve_all-rises a [] = less_irrefl a.promised
serve_all-rises a (r ∷ rs) =
    not_less_trans a.promised (serve a r).promised (serve_all (serve a r) rs).promised
      (serve-rises a r) (serve_all-rises (serve a r) rs)

on_prepare-promised :
    (a : Acceptor) (b : Ballot) → (on_prepare a b).3 ≡ true → (on_prepare a b).0.promised ≡ b
unfolding on_prepare
on_prepare-promised a b h = ground arith

refuses_below :
    (a : Acceptor) (c : Ballot) (v : Value)
    → less c a.promised ≡ true
    → (on_accept a c v ≡ (a, record { ballot = c; promised = a.promised }, false))
      × ((on_prepare a c).0 ≡ a)
      × ((on_prepare a c).3 ≡ false)
unfolding on_prepare on_accept
refuses_below a c v h = (rw h, rw (less_asymm c a.promised h), rw (less_asymm c a.promised h))

-- Once an acceptor has granted ballot `b`, then after any further requests its promise is at least
-- `b`, and it answers an Accept below `b` with a Nack that names its promise, refuses a Prepare
-- below `b`, and changes nothing on either.
pub promise_binds :
    (a : Acceptor) (b c : Ballot) (v : Value) (rs : List Request)
    → (on_prepare a b).3 ≡ true
    → less c b ≡ true
    → let a' = serve_all (on_prepare a b).0 rs in
      (less a'.promised b ≡ false)
      × (on_accept a' c v ≡ (a', record { ballot = c; promised = a'.promised }, false))
      × ((on_prepare a' c).0 ≡ a')
      × ((on_prepare a' c).3 ≡ false)
promise_binds a b c v rs h lt =
    let a' = serve_all (on_prepare a b).0 rs in
    let high : less a'.promised b ≡ false =
      rw (on_prepare-promised a b h) at (serve_all-rises (on_prepare a b).0 rs) in
    let (r0, r1, r2) = refuses_below a' c v (less_not_less c b a'.promised lt high) in
    (high, r0, r1, r2)
