-- ===== src/Paxos/System/Attempts.antt =====
-- The steps of a proposer that send no Accept keep the invariant.
use mathlib.Core.Path.{subst}
use paxos_arena.Prelude.{
  ℕ, ◌<◌, ◌≡◌, refl, inl, inr, false, not, ◌||◌, List, Elem, insert-IsMap, All-insert, Bool-cases,
  arith,
}
use paxos_arena.Paxos.{NodeId, Ballot, is_zero, zero_ballot, same_ballot}
use paxos_arena.Paxos.Order.{less_irrefl, same_ballot_iff}
use paxos_arena.Paxos.Acceptor.{Promise, Nack}
use paxos_arena.Paxos.Proposer.{
  Proposer, collected, is_nil, new_proposer, start, on_promise, on_nack, on_accepted,
}
use paxos_arena.Paxos.System.{
  Network, System, update, started_by, promised_to, nacked, counted_by, restarted,
}
use paxos_arena.Paxos.System.Invariant.{ProposerOk, Inv}
use paxos_arena.Paxos.System.Growth.{
  update_ind, NetGrows, Grows, Safe-Grows, PromiseOk-Grows, ProposerOk-NetGrows,
  AcceptorOk-NetGrows,
}

module _ {peers : List NodeId} {net : Network} {p : NodeId} (q : Proposer) where
  on_promise-ProposerOk :
      (a : NodeId) (m : Promise)
      → Elem (a, m) net.promises
      → ProposerOk peers net p q
      → ProposerOk peers net p (on_promise q a m).0
  unfolding on_promise
  on_promise-ProposerOk a m e h =
      elim (Bool-cases
        (q.abandoned || q.proposed || not (same_ballot m.ballot q.ballot) || is_nil q.promises)) [
          | inl dropped ↦ rw dropped h
          | inr taken ↦ rw taken (record {
            self = h.self;
            size = h.size;
            promise_map = insert-IsMap a m (collected q.promises) h.promise_map;
            promise_all =
                All-insert (λ e. Elem e net.promises × (e.1.ballot ≡ q.ballot)) a m
                  (collected q.promises) h.promise_all
                  (e, (same_ballot_iff m.ballot q.ballot).0 (ground arith));
            accept_map = h.accept_map;
            accept_all = h.accept_all;
            attempt = elim h.attempt [ inl z ↦ absurd (ground arith) | inr o ↦ inr o ];
            unproposed = h.unproposed;
            proposed = h.proposed;
          })
        ]

  on_nack-ProposerOk : (k : Nack) → ProposerOk peers net p q → ProposerOk peers net p (on_nack q k)
  unfolding on_nack
  on_nack-ProposerOk k h = elim (Bool-cases (same_ballot k.ballot q.ballot)) [
    | inl hit ↦ rw hit (record {
      self = h.self;
      size = h.size;
      promise_map = h.promise_map;
      promise_all = h.promise_all;
      accept_map = h.accept_map;
      accept_all = h.accept_all;
      attempt = h.attempt;
      unproposed = h.unproposed;
      proposed = h.proposed;
    })
    | inr miss ↦ rw miss h
  ]

  on_accepted-ProposerOk :
      (a : NodeId) (b : Ballot)
      → Elem (a, b) net.accepteds
      → ProposerOk peers net p q
      → ProposerOk peers net p (on_accepted q a b).0
  unfolding on_accepted
  on_accepted-ProposerOk a b e h =
      elim (Bool-cases (q.abandoned || not q.proposed || not (same_ballot b q.ballot))) [
        | inl dropped ↦ rw dropped h
        | inr taken ↦ rw taken (record {
          self = h.self;
          size = h.size;
          promise_map = h.promise_map;
          promise_all = h.promise_all;
          accept_map = insert-IsMap a tt q.accepts h.accept_map;
          accept_all =
              All-insert (λ e. Elem (e.0, q.ballot) net.accepteds) a tt q.accepts h.accept_all
                (subst (λ c. Elem (a, c) net.accepteds)
                  ((same_ballot_iff b q.ballot).0 (ground arith)) e);
          attempt = h.attempt;
          unproposed = h.unproposed;
          proposed = h.proposed;
        })
      ]

module _ {peers : List NodeId} {s : System} (inv : Inv peers s) (p : NodeId) where
  abbrev with : Proposer → List Ballot → System
  with q bs = record s { proposer = update s.proposer p q; net = record (s.net) { prepares = bs } }

  -- A step of proposer `p` that may add to the Prepares, and sends nothing else.
  turn :
      (q : Proposer) (bs : List Ballot)
      → ((b : Ballot) → Elem b s.net.prepares → Elem b bs)
      → ((b : Ballot) → Elem b bs → is_zero b ≡ false)
      → ProposerOk peers (record (s.net) { prepares = bs }) p q
      → Inv peers (with q bs)
  turn q bs more nz own = record {
    acceptors = λ a. AcceptorOk-NetGrows g a (s.acceptor a) (λ b e. e) (inv.acceptors a);
    proposers =
        update_ind (λ j r. ProposerOk peers (record (s.net) { prepares = bs }) j r) s.proposer p q
          own (λ j _. ProposerOk-NetGrows g peers j (s.proposer j) (λ e h. h) (inv.proposers j));
    promises = λ a m e. PromiseOk-Grows grown peers a m (inv.promises a m e);
    proposals = record {
      nonzero = nz;
      prepared = λ b v e. more b (prepared b v e);
      unique = unique;
      asked = asked;
      voters = voters;
    };
    safe = λ b v e. Safe-Grows grown peers b v (inv.safe b v e);
    electorate = inv.electorate;
  }
    where
      open inv.proposals use {prepared, unique, asked, voters}

      g : NetGrows s.net (record (s.net) { prepares = bs })
      g = record { prepares = more; promises = λ e h. h; accepts = λ e h. h; accepteds = λ e h. h }

      grown : Grows s (with q bs)
      grown = record {
        net = g;
        promised = λ a. less_irrefl (s.acceptor a).promised;
        votes = λ a b e. inl e;
      }

  -- A step of proposer `p` that sends nothing.
  quiet :
      (q : Proposer)
      → ProposerOk peers s.net p q
      → Inv peers (record s { proposer = update s.proposer p q })
  quiet q own = turn q s.net.prepares (λ b e. e) inv.proposals.nonzero own

  pub started_by-Inv :
      (r : ℕ)
      → 0 < r
      → ¬ Elem (record { round = r; node = p }) s.net.prepares
      → Inv peers (started_by s p r)
  unfolding start is_zero
  started_by-Inv r pos fresh =
      turn _ _ (λ b e. inr e)
        (λ b e. elim e [
          | inl new ↦ rw (← new) (ground arith)
          | inr old ↦ inv.proposals.nonzero b old
        ])
        (record {
          self = self;
          size = size;
          promise_map = tt;
          promise_all = tt;
          accept_map = tt;
          accept_all = tt;
          attempt = inr (inl refl, self);
          unproposed = λ _ v e. fresh (
              subst (λ n. Elem (record { round = r; node = n }) s.net.prepares) self
                (inv.proposals.prepared _ v e));
          proposed = λ h. cc;
        })
    where
      open (inv.proposers p) use {self, size}

  pub promised_to-Inv :
      (a : NodeId) (m : Promise) → Elem (a, m) s.net.promises → Inv peers (promised_to s p a m)
  promised_to-Inv a m e = quiet _ (on_promise-ProposerOk (s.proposer p) a m e (inv.proposers p))

  pub nacked-Inv : (k : Nack) → Inv peers (nacked s p k)
  nacked-Inv k = quiet _ (on_nack-ProposerOk (s.proposer p) k (inv.proposers p))

  pub counted_by-Inv :
      (a : NodeId) (b : Ballot) → Elem (a, b) s.net.accepteds → Inv peers (counted_by s p a b)
  counted_by-Inv a b e = quiet _ (on_accepted-ProposerOk (s.proposer p) a b e (inv.proposers p))

  pub restarted-Inv : Inv peers (restarted s peers p)
  unfolding new_proposer is_zero
  restarted-Inv = quiet _ (record {
    self = refl;
    size = refl;
    promise_map = tt;
    promise_all = tt;
    accept_map = tt;
    accept_all = tt;
    attempt = inl (refl, refl);
    unproposed =
        λ _ v e. cc (inv.proposals.nonzero zero_ballot (inv.proposals.prepared zero_ballot v e));
    proposed = λ h. cc;
  })
