-- ===== src/Paxos/System/Growth.antt =====
-- What a step adds to the network, and why the invariant of the others survives it.
use mathlib.Core.Path.{subst}
use paxos_arena.Prelude.{
  ◌≡◌, refl, ◌≢◌, ◌⊎◌, inl, inr, true, false, List, [], ◌∷◌, ◌==◌, ==_iff, Elem, All, Bool-cases,
}
use paxos_arena.Paxos.{NodeId, Ballot, Value, less}
use paxos_arena.Paxos.Order.{less_not_less, not_less_trans}
use paxos_arena.Paxos.Acceptor.{Acceptor, Promise}
use paxos_arena.Paxos.Proposer.{Proposer, collected}
use paxos_arena.Paxos.System.{Network, System, update}
use paxos_arena.Paxos.System.Invariant.{AcceptorOk, PromiseOk, ProposerOk, Safe}

pub update_ind :
    {A : Type 0} (P : NodeId → A → Type 0) (f : NodeId → A) (i : NodeId) (x : A)
    → P i x
    → ((j : NodeId) → i ≢ j → P j (f j))
    → (j : NodeId) → P j (update f i x j)
update_ind P f i x new old j = elim (Bool-cases (i == j)) [
  | inl e ↦ rw e (subst (λ k. P k x) ((==_iff i j).0 e) new)
  | inr e ↦ rw e (old j (λ h. cc ((==_iff i j).1 h)))
]

pub update_self : {A : Type 0} (f : NodeId → A) (i : NodeId) (x : A) → update f i x i ≡ x
update_self f i x = rw ((==_iff i i).1 refl)

-- No message is lost from the network.
pub record NetGrows (n m : Network) : Type 0 where
  pub prepares : (b : Ballot) → Elem b n.prepares → Elem b m.prepares
  pub promises : (e : NodeId × Promise) → Elem e n.promises → Elem e m.promises
  pub accepts : (e : Ballot × Value) → Elem e n.accepts → Elem e m.accepts
  pub accepteds : (e : NodeId × Ballot) → Elem e n.accepteds → Elem e m.accepteds

-- A step of the system: promises only rise, and a new vote is not below its voter's promise.
pub record Grows (s t : System) : Type 0 where
  pub net : NetGrows s.net t.net
  pub promised : (a : NodeId) → less (t.acceptor a).promised (s.acceptor a).promised ≡ false
  pub votes :
      (a : NodeId) (b : Ballot)
      → Elem (a, b) t.net.accepteds
      → Elem (a, b) s.net.accepteds ⊎ (less b (s.acceptor a).promised ≡ false)

module _ {s t : System} (g : Grows s t) where
  kept_promise :
      (a : NodeId) (b : Ballot)
      → less b (s.acceptor a).promised ≡ true
      → less b (t.acceptor a).promised ≡ true
  kept_promise a b h =
      less_not_less b (s.acceptor a).promised (t.acceptor a).promised h (g.promised a)

  pub Safe-Grows :
      (peers : List NodeId) (b : Ballot) (v : Value) → Safe peers s b v → Safe peers t b v
  Safe-Grows peers b v h b' nz lt =
      let (f, q, old) = h b' nz lt in
      (
        f,
        q,
        λ a m. (
          kept_promise a b' (old a m).0,
          λ vote. elim (g.votes a b' vote) [
            | inl before ↦ g.net.accepts (b', v) ((old a m).1 before)
            | inr late ↦ cc ((old a m).0)
          ],
        ),
      )

  pub PromiseOk-Grows :
      (peers : List NodeId) (a : NodeId) (m : Promise)
      → PromiseOk peers s a m
      → PromiseOk peers t a m
  PromiseOk-Grows peers a m h = record {
    peer = h.peer;
    bound =
        not_less_trans m.ballot (s.acceptor a).promised (t.acceptor a).promised h.bound
          (g.promised a);
    sent = elim h.sent [ inl z ↦ inl z | inr e ↦ inr (g.net.accepts _ e) ];
    gap = λ b lo hi vote. elim (g.votes a b vote) [
      | inl before ↦ h.gap b lo hi before
      | inr late ↦ cc (less_not_less b m.ballot (s.acceptor a).promised hi h.bound)
    ];
  }

All-mono :
    {A : Type 0} (P Q : A → Type 0) (xs : List A) → ((a : A) → P a → Q a) → All P xs → All Q xs
All-mono P Q [] h all = tt
All-mono P Q (x ∷ xs) h all = (h x all.0, All-mono P Q xs h all.1)

module _ {n m : Network} (g : NetGrows n m) where
  pub ProposerOk-NetGrows :
      (peers : List NodeId) (p : NodeId) (q : Proposer)
      → ((e : Ballot × Value) → Elem e m.accepts → Elem e n.accepts)
      → ProposerOk peers n p q
      → ProposerOk peers m p q
  ProposerOk-NetGrows peers p q back h = record {
    self = h.self;
    size = h.size;
    promise_map = h.promise_map;
    promise_all =
        All-mono (λ e. Elem e n.promises × (e.1.ballot ≡ q.ballot))
          (λ e. Elem e m.promises × (e.1.ballot ≡ q.ballot)) (collected q.promises)
          (λ e o. (g.promises e o.0, o.1)) h.promise_all;
    accept_map = h.accept_map;
    accept_all =
        All-mono (λ e. Elem (e.0, q.ballot) n.accepteds) (λ e. Elem (e.0, q.ballot) m.accepteds)
          q.accepts (λ e. g.accepteds (e.0, q.ballot)) h.accept_all;
    attempt = elim h.attempt [ inl z ↦ inl z | inr o ↦ inr (g.prepares q.ballot o.0, o.1) ];
    unproposed = λ e v o. h.unproposed e v (back (q.ballot, v) o);
    proposed = λ e. g.accepts (q.ballot, q.value) (h.proposed e);
  }

  -- An acceptor whose votes are the old ones.
  pub AcceptorOk-NetGrows :
      (a : NodeId) (x : Acceptor)
      → ((b : Ballot) → Elem (a, b) m.accepteds → Elem (a, b) n.accepteds)
      → AcceptorOk n a x
      → AcceptorOk m a x
  AcceptorOk-NetGrows a x back h = record {
    valid = h.valid;
    votes = λ b o. h.votes b (back b o);
    reported = elim h.reported [ inl z ↦ inl z | inr o ↦ inr (g.accepts _ o) ];
  }
