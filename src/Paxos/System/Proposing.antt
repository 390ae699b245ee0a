-- ===== src/Paxos/System/Proposing.antt =====
-- `Propose` keeps the invariant: the Accept that it sends is the only one of its ballot, and safe.
use mathlib.Core.Path.{subst}
use paxos_arena.Prelude.{
  ◌≡◌, refl, ap, sym, ◌∙◌, ◌≢◌, inl, inr, true, false, List, ◌∷◌, Elem, Bool-cases, arith,
}
use paxos_arena.Paxos.{NodeId, Ballot, Value, is_zero, zero_ballot, choose}
use paxos_arena.Paxos.Order.{less_irrefl}
use paxos_arena.Paxos.Choice.{Chosen, free, bound, choose-Chosen}
use paxos_arena.Paxos.Proposer.{Proposer, collected, ready, reports, propose}
use paxos_arena.Paxos.System.{Network, System, update, proposed_by}
use paxos_arena.Paxos.System.Invariant.{ProposerOk, Safe, Inv}
use paxos_arena.Paxos.System.Growth.{
  update_ind, NetGrows, Grows, Safe-Grows, PromiseOk-Grows, ProposerOk-NetGrows,
  AcceptorOk-NetGrows,
}
use paxos_arena.Paxos.System.Safety.{choose-Safe, report_sent}

zero_bad : is_zero zero_ballot ≢ false
unfolding is_zero
zero_bad h = cc

module _ {peers : List NodeId} {s : System} (inv : Inv peers s) (p : NodeId) where
  open inv.proposals use {nonzero, prepared, unique, asked, voters}

  abbrev q : Proposer
  q = s.proposer p

  abbrev asked_net : Value → Network
  asked_net want = record (s.net) { wanted = want ∷ s.net.wanted }

  abbrev sent_net : Value → Value → Network
  sent_net want v = record (s.net) {
    accepts = (q.ballot, v) ∷ s.net.accepts;
    wanted = want ∷ s.net.wanted;
  }

  -- What the proposal of `v` owes.
  record Proposal (want v : Value) (q' : Proposer) : Type 0 where
    own : ProposerOk peers (sent_net want v) p q'
    only : (w : Value) → Elem (q.ballot, w) s.net.accepts → w ≡ v
    live : Elem q.ballot s.net.prepares × (q.ballot.node ≡ p)
    known : Elem v (want ∷ s.net.wanted)
    harmless : Safe peers s q.ballot v

  sent_net-grows : (want v : Value) → NetGrows s.net (sent_net want v)
  sent_net-grows want v = record {
    prepares = λ b e. e;
    promises = λ e h. h;
    accepts = λ e h. inr h;
    accepteds = λ e h. h;
  }

  -- Another proposer has another ballot.
  other_ballot :
      (j : NodeId)
      → p ≢ j
      → Elem q.ballot s.net.prepares × (q.ballot.node ≡ p)
      → q.ballot ≢ (s.proposer j).ballot
  other_ballot j ne live e = elim (inv.proposers j).attempt [
    | inl z ↦ bad (nonzero q.ballot live.0) (e ∙ z.0)
    | inr o ↦ ne (sym (live.1) ∙ ap (λ b. b.node) e ∙ o.1)
  ]
    where
      bad : is_zero q.ballot ≡ false → q.ballot ≡ zero_ballot → ⊥
      bad h k = zero_bad (rw k at h)

  others-Ok :
      (want v : Value) (j : NodeId)
      → p ≢ j
      → Elem q.ballot s.net.prepares × (q.ballot.node ≡ p)
      → ProposerOk peers (sent_net want v) j (s.proposer j)
  others-Ok want v j ne live = record {
    self = self;
    size = size;
    promise_map = promise_map;
    promise_all = promise_all;
    accept_map = accept_map;
    accept_all = accept_all;
    attempt = attempt;
    unproposed = λ e w o. elim o [
      | inl new ↦ other_ballot j ne live (ap (λ t. t.0) new)
      | inr old ↦ unproposed e w old
    ];
    proposed = λ e. inr (proposed e);
  }
    where
      open (inv.proposers j) use {
        self, size, promise_map, promise_all, accept_map, accept_all, attempt, unproposed, proposed,
      }

  Proposal-Inv :
      {want v : Value} {q' : Proposer}
      → Proposal want v q'
      → Inv peers (record s { proposer = update s.proposer p q'; net = sent_net want v })
  Proposal-Inv {want} {v} {q'} o = record {
    acceptors = λ a. AcceptorOk-NetGrows g a (s.acceptor a) (λ b e. e) (inv.acceptors a);
    proposers =
        update_ind (λ j r. ProposerOk peers (sent_net want v) j r) s.proposer p q' o.own
          (λ j ne. others-Ok want v j ne o.live);
    promises = λ a m e. PromiseOk-Grows grown peers a m (inv.promises a m e);
    proposals = record {
      nonzero = nonzero;
      prepared = λ b w e. elim e [
        | inl new ↦ rw (← ap (λ t. t.0) new) (o.live.0)
        | inr old ↦ prepared b w old
      ];
      unique = sole;
      asked = λ b w e. elim e [
        | inl new ↦ subst (λ x. Elem x (want ∷ s.net.wanted)) (ap (λ t. t.1) new) o.known
        | inr old ↦ inr (asked b w old)
      ];
      voters = λ a b e. let (w, m) = voters a b e in (w, inr m);
    };
    safe = λ b w e. elim e [
      | inl new ↦
          subst
            (λ t.
              Safe peers (record s { proposer = update s.proposer p q'; net = sent_net want v }) t.0
                t.1)
            new (Safe-Grows grown peers q.ballot v o.harmless)
      | inr old ↦ Safe-Grows grown peers b w (inv.safe b w old)
    ];
    electorate = inv.electorate;
  }
    where
      g : NetGrows s.net (sent_net want v)
      g = sent_net-grows want v

      grown : Grows s (record s { proposer = update s.proposer p q'; net = sent_net want v })
      grown = record {
        net = g;
        promised = λ a. less_irrefl (s.acceptor a).promised;
        votes = λ a b e. inl e;
      }

      sole :
          (b : Ballot) (w x : Value)
          → Elem (b, w) (sent_net want v).accepts
          → Elem (b, x) (sent_net want v).accepts
          → w ≡ x
      sole b w x (inl e) (inl k) = sym (ap (λ t. t.1) e) ∙ ap (λ t. t.1) k
      sole b w x (inl e) (inr k) = sym (ap (λ t. t.1) e) ∙ sym (o.only x (rw (ap (λ t. t.0) e) k))
      sole b w x (inr e) (inl k) = o.only w (rw (ap (λ t. t.0) k) e) ∙ ap (λ t. t.1) k
      sole b w x (inr e) (inr k) = unique b w x e k

  asked_net-Inv :
      (want : Value)
      → Inv peers (record s { proposer = update s.proposer p q; net = asked_net want })
  asked_net-Inv want = record {
    acceptors = λ a. AcceptorOk-NetGrows g a (s.acceptor a) (λ b e. e) (inv.acceptors a);
    proposers =
        update_ind (λ j r. ProposerOk peers (asked_net want) j r) s.proposer p q (ok p)
          (λ j _. ok j);
    promises = λ a m e. PromiseOk-Grows grown peers a m (inv.promises a m e);
    proposals = record {
      nonzero = nonzero;
      prepared = prepared;
      unique = unique;
      asked = λ b w e. inr (asked b w e);
      voters = voters;
    };
    safe = λ b v e. Safe-Grows grown peers b v (inv.safe b v e);
    electorate = inv.electorate;
  }
    where
      g : NetGrows s.net (asked_net want)
      g = record {
        prepares = λ b e. e;
        promises = λ e h. h;
        accepts = λ e h. h;
        accepteds = λ e h. h;
      }

      grown : Grows s (record s { proposer = update s.proposer p q; net = asked_net want })
      grown = record {
        net = g;
        promised = λ a. less_irrefl (s.acceptor a).promised;
        votes = λ a b e. inl e;
      }

      ok : (j : NodeId) → ProposerOk peers (asked_net want) j (s.proposer j)
      ok j = ProposerOk-NetGrows g peers j (s.proposer j) (λ e h. h) (inv.proposers j)

  ready-live : ready q ≡ true → Elem q.ballot s.net.prepares × (q.ballot.node ≡ p)
  unfolding ready
  ready-live ok = elim (inv.proposers p).attempt [ inl z ↦ absurd (ground arith) | inr o ↦ o ]

  again : (want : Value) → ready q ≡ true → q.proposed ≡ true → Proposal want q.value q
  again want ok done = record {
    own = record {
      self = self;
      size = size;
      promise_map = promise_map;
      promise_all = promise_all;
      accept_map = accept_map;
      accept_all = accept_all;
      attempt = attempt;
      unproposed = λ e. cc;
      proposed = λ e. inl refl;
    };
    only = λ w e. unique q.ballot w q.value e (proposed done);
    live = ready-live ok;
    known = inr (asked q.ballot q.value (proposed done));
    harmless = inv.safe q.ballot q.value (proposed done);
  }
    where
      open (inv.proposers p) use {
        self, size, promise_map, promise_all, accept_map, accept_all, attempt, unproposed, proposed,
      }

  Chosen-wanted :
      (want v : Value)
      → Chosen (reports (collected q.promises)) want v
      → Elem v (want ∷ s.net.wanted)
  Chosen-wanted want v (free zs e) = inl (sym e)
  Chosen-wanted want v (bound r m nz top e) =
      inr (
        subst (λ x. Elem x s.net.wanted) (sym e)
          (asked r.ballot r.value (report_sent inv p r m nz)))

  first :
      (want : Value)
      → ready q ≡ true
      → q.proposed ≡ false
      → let v = choose (reports (collected q.promises)) want in
        Proposal want v (record q { value = v; proposed = true })
  first want ok new = record {
    own = record {
      self = self;
      size = size;
      promise_map = promise_map;
      promise_all = promise_all;
      accept_map = accept_map;
      accept_all = accept_all;
      attempt = attempt;
      unproposed = λ e. cc;
      proposed = λ e. inl refl;
    };
    only = λ w e. absurd (unproposed new w e);
    live = ready-live ok;
    known = Chosen-wanted want _ (choose-Chosen (reports (collected q.promises)) want);
    harmless = choose-Safe inv p want ok;
  }
    where
      open (inv.proposers p) use {
        self, size, promise_map, promise_all, accept_map, accept_all, attempt, unproposed, proposed,
      }

  pub proposed_by-Inv : (want : Value) → Inv peers (proposed_by s p want)
  unfolding propose
  proposed_by-Inv want = elim (Bool-cases (ready q)) [
    | inl ok ↦ elim (Bool-cases q.proposed) [
      | inl done ↦ simp (ok, done) (Proposal-Inv (again want ok done))
      | inr new ↦ simp (ok, new) (Proposal-Inv (first want ok new))
    ]
    | inr early ↦ simp early (asked_net-Inv want)
  ]
