-- ===== src/Paxos/System/Safety.antt =====
-- The value that `Propose` picks from a majority of promises is safe.
use mathlib.Core.Path.{subst}
use paxos_arena.Prelude.{
  ◌≤◌, ◌≡◌, ap, refl, inl, inr, Bool, true, false, List, [], ◌∷◌, Elem, All, All-Elem, Bool-cases,
  arith, length, count, has_key, has_key-Elem, length-le-count,
}
use paxos_arena.Paxos.{NodeId, Ballot, Value, PValue, less, is_zero, quorum, choose}
use paxos_arena.Paxos.Order.{less_not_less, not_less-less, less_total, is_zero-less, less-is_zero}
use paxos_arena.Paxos.Choice.{IsTop, Chosen, free, bound, choose-Chosen}
use paxos_arena.Paxos.Acceptor.{Promise}
use paxos_arena.Paxos.Proposer.{Proposer, collected, ready, reports}
use paxos_arena.Paxos.System.{System}
use paxos_arena.Paxos.System.Invariant.{PromiseOk, Safe, Inv}

abbrev report : Promise → PValue
report m = record { ballot = m.accepted; slot = 0; value = m.value }

Elem-reports :
    (a : NodeId) (m : Promise) (ms : List (NodeId × Promise))
    → Elem (a, m) ms
    → is_zero m.accepted ≡ false
    → Elem (report m) (reports ms)
unfolding reports
Elem-reports a m [] e nz = absurd e
Elem-reports a m ((c, k) ∷ ms) (inl e) nz =
    let same = ap (λ t. t.1) e in rw (same, nz, reports) (inl refl)
Elem-reports a m ((c, k) ∷ ms) (inr e) nz = elim (Bool-cases (is_zero k.accepted)) [
  | inl z ↦ rw (z, reports) (Elem-reports a m ms e nz)
  | inr k_nz ↦ rw (k_nz, reports) (inr (Elem-reports a m ms e nz))
]

reports-Elem :
    (r : PValue) (ms : List (NodeId × Promise))
    → Elem r (reports ms)
    → (a : NodeId) × (m : Promise) × Elem (a, m) ms × (report m ≡ r)
unfolding reports
reports-Elem r [] e = absurd e
reports-Elem r ((c, k) ∷ ms) e = elim (Bool-cases (is_zero k.accepted)) [
  | inl z ↦ let (a, m, e', same) = reports-Elem r ms (rw (z, reports) at e) in (a, m, inr e', same)
  | inr nz ↦ elim (let o : Elem r (report k ∷ reports ms) = rw (nz, reports) at e in o) [
    | inl same ↦ (c, k, inl refl, same)
    | inr old ↦ let (a, m, e', same) = reports-Elem r ms old in (a, m, inr e', same)
  ]
]

pub All-of : {A : Type 0} (P : A → Type 0) (xs : List A) → ((a : A) → Elem a xs → P a) → All P xs
All-of P [] h = tt
All-of P (x ∷ xs) h = (h x (inl refl), All-of P xs (λ a e. h a (inr e)))

module _ {peers : List NodeId} {s : System} (inv : Inv peers s) (p : NodeId) where
  abbrev q : Proposer
  q = s.proposer p

  abbrev ms : List (NodeId × Promise)
  ms = collected q.promises

  promise_of :
      (a : NodeId) (m : Promise) → Elem (a, m) ms → PromiseOk peers s a m × (m.ballot ≡ q.ballot)
  promise_of a m e =
      let o =
        All-Elem (λ e. Elem e s.net.promises × (e.1.ballot ≡ q.ballot)) (a, m) ms
          (inv.proposers p).promise_all e in
      (inv.promises a m o.0, o.1)

  majority : ready q ≡ true → quorum (length peers) ≤ count (λ a. has_key a ms) peers
  unfolding ready
  majority ok =
      let most =
        length-le-count ms peers (inv.proposers p).promise_map
          (All-of (λ e. Elem e.0 peers) ms (λ e m. (promise_of e.0 e.1 m).0.peer)) in
      ground (arith, most, (inv.proposers p).size)

  -- A majority that has promised the ballot of the attempt, where whoever voted at `b'` meets `P`.
  by_promises :
      (v : Value) (b' : Ballot)
      → ready q ≡ true
      → less b' q.ballot ≡ true
      → ((a : NodeId) (m : Promise)
          → Elem (a, m) ms
          → Elem (a, b') s.net.accepteds
          → Elem (b', v) s.net.accepts)
      → (f : NodeId → Bool) × (quorum (length peers) ≤ count f peers)
        × ((a : NodeId)
            → f a ≡ true
            → (less b' (s.acceptor a).promised ≡ true)
              × (Elem (a, b') s.net.accepteds → Elem (b', v) s.net.accepts))
  by_promises v b' ok lt why = (
    λ a. has_key a ms,
    majority ok,
    λ a h.
        (let (m, e) = has_key-Elem a ms h in
          let (o, same) = promise_of a m e in
          (less_not_less b' q.ballot (s.acceptor a).promised lt (rw same at o.bound), why a m e)),
  )

  unreported :
      All (λ r. is_zero r.ballot ≡ true) (reports ms)
      → (a : NodeId) (m : Promise) → Elem (a, m) ms
      → is_zero m.accepted ≡ true
  unreported zs a m e = elim (Bool-cases (is_zero m.accepted)) [
    | inl z ↦ z
    | inr nz ↦
        All-Elem (λ r. is_zero r.ballot ≡ true) (report m) (reports ms) zs
          (Elem-reports a m ms e nz)
  ]

  below_top :
      (b : Ballot)
      → IsTop b (reports ms)
      → (a : NodeId) (m : Promise) → Elem (a, m) ms
      → less b m.accepted ≡ false
  below_top b top a m e = elim (Bool-cases (is_zero m.accepted)) [
    | inl z ↦ less-is_zero b m.accepted z
    | inr nz ↦
        All-Elem (λ r. less b r.ballot ≡ false) (report m) (reports ms) top
          (Elem-reports a m ms e nz)
  ]

  -- A reported proposal was sent.
  pub report_sent :
      (r : PValue)
      → Elem r (reports ms)
      → is_zero r.ballot ≡ false
      → Elem (r.ballot, r.value) s.net.accepts
  report_sent r e nz =
      let (a, m, e', same) = reports-Elem r ms e in
      elim (promise_of a m e').0.sent [
        | inl z ↦ cc
        | inr sent ↦ subst (λ t. Elem (t.ballot, t.value) s.net.accepts) same sent
      ]

  Chosen-Safe :
      (want v : Value) → ready q ≡ true → Chosen (reports ms) want v → Safe peers s q.ballot v
  Chosen-Safe want v ok (free zs e) b' nz lt = by_promises v b' ok lt (λ a m e' vote. absurd (
      (promise_of a m e').0.gap b' (is_zero-less m.accepted b' (unreported zs a m e') nz)
        (rw ((promise_of a m e').1) lt) vote))
  Chosen-Safe want v ok (bound r m r_nz top e) b' nz lt =
      let sent = rw (← e) at (report_sent r m r_nz) in
      elim (less_total b' r.ballot) [
        | inl below ↦ inv.safe r.ballot v sent b' nz below
        | inr (inl same) ↦ by_promises v b' ok lt (λ a k e' vote. rw same sent)
        | inr (inr above) ↦ by_promises v b' ok lt (λ a k e' vote. absurd (
            (promise_of a k e').0.gap b'
              (not_less-less k.accepted r.ballot b' (below_top r.ballot top a k e') above)
              (rw ((promise_of a k e').1) lt) vote))
      ]

  pub choose-Safe :
      (want : Value) → ready q ≡ true → Safe peers s q.ballot (choose (reports ms) want)
  choose-Safe want ok = Chosen-Safe want _ ok (choose-Chosen (reports ms) want)
