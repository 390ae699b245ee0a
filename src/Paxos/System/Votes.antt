-- ===== src/Paxos/System/Votes.antt =====
-- The steps of an acceptor keep the invariant.
use mathlib.Core.Path.{subst}
use paxos_arena.Prelude.{
  ap, ◌≢◌, ◌≡◌, sym, ◌⊎◌, inl, inr, true, false, List, ◌∷◌, if◌then◌else◌, Elem, Bool-cases,
}
use paxos_arena.Paxos.{NodeId, Ballot, Value, less}
use paxos_arena.Paxos.Order.{less_irrefl, less_asymm, not_less_trans, not_less-less}
use paxos_arena.Paxos.Acceptor.{Acceptor, Promise, Nack, on_prepare, on_accept}
use paxos_arena.Paxos.System.{Network, System, update, prepared_at, accepted_at}
use paxos_arena.Paxos.System.Invariant.{AcceptorOk, PromiseOk, ProposalsOk, Inv}
use paxos_arena.Paxos.System.Growth.{
  update_ind, update_self, NetGrows, Grows, Safe-Grows, PromiseOk-Grows, ProposerOk-NetGrows,
}

module _ {peers : List NodeId} {s : System} (inv : Inv peers s) (a : NodeId) where
  abbrev at : Acceptor → Network → System
  at x net = record s { acceptor = update s.acceptor a x; net = net }

  -- What a step of acceptor `a` owes.
  record Move (x : Acceptor) (net : Network) : Type 0 where
    grows : NetGrows s.net net
    raised : less x.promised (s.acceptor a).promised ≡ false
    same : (e : Ballot × Value) → Elem e net.accepts → Elem e s.net.accepts
    votes :
        (j : NodeId) (b : Ballot)
        → Elem (j, b) net.accepteds
        → Elem (j, b) s.net.accepteds ⊎ ((j ≡ a) × (less b (s.acceptor a).promised ≡ false))
    own : AcceptorOk net a x
    others : (j : NodeId) → a ≢ j → AcceptorOk net j (s.acceptor j)
    promises :
        (j : NodeId) (m : Promise)
        → Elem (j, m) net.promises
        → Elem (j, m) s.net.promises ⊎ PromiseOk peers (at x net) j m
    proposals : ProposalsOk net
    peer : Elem a peers

  Move-Grows : {x : Acceptor} {net : Network} → Move x net → Grows s (at x net)
  Move-Grows {x} m = record {
    net = m.grows;
    promised =
        update_ind (λ j y. less y.promised (s.acceptor j).promised ≡ false) s.acceptor a x m.raised
          (λ j _. less_irrefl (s.acceptor j).promised);
    votes = λ j b e. elim (m.votes j b e) [ inl o ↦ inl o | inr o ↦ inr (rw (o.0) (o.1)) ];
  }

  Move-Inv : {x : Acceptor} {net : Network} → Move x net → Inv peers (at x net)
  Move-Inv {x} {net} m = record {
    acceptors = update_ind (λ j y. AcceptorOk net j y) s.acceptor a x m.own m.others;
    proposers = λ p. ProposerOk-NetGrows m.grows peers p (s.proposer p) m.same (inv.proposers p);
    promises = λ j k e. elim (m.promises j k e) [
      | inl o ↦ PromiseOk-Grows (Move-Grows m) peers j k (inv.promises j k o)
      | inr o ↦ o
    ];
    proposals = m.proposals;
    safe = λ b v e. Safe-Grows (Move-Grows m) peers b v (inv.safe b v (m.same (b, v) e));
    electorate =
        λ j b e. elim (m.votes j b e) [ inl o ↦ inv.electorate j b o | inr o ↦ rw (o.0) m.peer ];
  }

  open inv.proposals use {nonzero, prepared, unique, asked, voters}

  refused :
      Elem a peers → (k : Nack) → Move (s.acceptor a) (record (s.net) { nacks = k ∷ s.net.nacks })
  refused peer k = record {
    grows = record {
      prepares = λ b e. e;
      promises = λ e h. h;
      accepts = λ e h. h;
      accepteds = λ e h. h;
    };
    raised = less_irrefl (s.acceptor a).promised;
    same = λ e h. h;
    votes = λ j b e. inl e;
    own = record {
      valid = (inv.acceptors a).valid;
      votes = (inv.acceptors a).votes;
      reported = (inv.acceptors a).reported;
    };
    others = λ j _. record {
      valid = (inv.acceptors j).valid;
      votes = (inv.acceptors j).votes;
      reported = (inv.acceptors j).reported;
    };
    promises = λ j m e. inl e;
    proposals = record {
      nonzero = nonzero;
      prepared = prepared;
      unique = unique;
      asked = asked;
      voters = voters;
    };
    peer = peer;
  }

  promised-Move :
      (b : Ballot)
      → Elem a peers
      → less (s.acceptor a).promised b ≡ true
      → let x = s.acceptor a in
        Move
          (record x { promised = b })
          (record (s.net) {
            promises =
                (a, record { ballot = b; accepted = x.accepted; value = x.value }) ∷ s.net.promises;
          })
  promised-Move b peer up = record {
    grows = record {
      prepares = λ e h. h;
      promises = λ e h. inr h;
      accepts = λ e h. h;
      accepteds = λ e h. h;
    };
    raised = less_asymm (s.acceptor a).promised b up;
    same = λ e h. h;
    votes = λ j c e. inl e;
    own = record {
      valid =
          less_asymm (s.acceptor a).accepted b
            (not_less-less (s.acceptor a).accepted (s.acceptor a).promised b valid up);
      votes = votes;
      reported = reported;
    };
    others = λ j _. record {
      valid = (inv.acceptors j).valid;
      votes = (inv.acceptors j).votes;
      reported = (inv.acceptors j).reported;
    };
    promises = λ j m e. elim e [
      | inl new ↦ inr (
          subst
            (λ t.
              PromiseOk peers (at x (record (s.net) { promises = (a, m₀) ∷ s.net.promises })) t.0
                t.1)
            new made)
      | inr old ↦ inl old
    ];
    proposals = record {
      nonzero = nonzero;
      prepared = prepared;
      unique = unique;
      asked = asked;
      voters = voters;
    };
    peer = peer;
  }
    where
      open (inv.acceptors a) use {valid, votes, reported}

      x : Acceptor
      x = record (s.acceptor a) { promised = b }

      m₀ : Promise
      m₀ = record { ballot = b; accepted = (s.acceptor a).accepted; value = (s.acceptor a).value }

      made : PromiseOk peers (at x (record (s.net) { promises = (a, m₀) ∷ s.net.promises })) a m₀
      made = record {
        peer = peer;
        bound = rw (update_self s.acceptor a x) (less_irrefl b);
        sent = reported;
        gap = λ c lo hi e. cc (votes c e);
      }

  accepted-Move :
      (b : Ballot) (v : Value)
      → Elem a peers
      → Elem (b, v) s.net.accepts
      → less b (s.acceptor a).promised ≡ false
      → Move
          (record {
            promised = if less (s.acceptor a).promised b then b else (s.acceptor a).promised;
            accepted = b;
            value = v;
          })
          (record (s.net) { accepteds = (a, b) ∷ s.net.accepteds })
  accepted-Move b v peer sent ok = record {
    grows = record {
      prepares = λ e h. h;
      promises = λ e h. h;
      accepts = λ e h. h;
      accepteds = λ e h. inr h;
    };
    raised = elim (Bool-cases (less (s.acceptor a).promised b)) [
      | inl up ↦ rw up ok
      | inr low ↦ rw low (less_irrefl (s.acceptor a).promised)
    ];
    same = λ e h. h;
    votes = λ j c e. elim e [
      | inl new ↦ inr (sym (ap (λ t. t.0) new), rw (← ap (λ t. t.1) new) ok)
      | inr old ↦ inl old
    ];
    own = record {
      valid = elim (Bool-cases (less (s.acceptor a).promised b)) [
        | inl up ↦ rw up (less_irrefl b)
        | inr low ↦ rw low low
      ];
      votes = λ c e. elim e [
        | inl new ↦ rw (← ap (λ t. t.1) new) (less_irrefl b)
        | inr old ↦
            not_less_trans c (s.acceptor a).promised b
              (not_less_trans c (s.acceptor a).accepted (s.acceptor a).promised (votes c old) valid)
              ok
      ];
      reported = inr sent;
    };
    others = λ j ne. record {
      valid = (inv.acceptors j).valid;
      votes = λ c e. elim e [
        | inl new ↦ absurd (ne (ap (λ t. t.0) new))
        | inr old ↦ (inv.acceptors j).votes c old
      ];
      reported = (inv.acceptors j).reported;
    };
    promises = λ j m e. inl e;
    proposals = record {
      nonzero = nonzero;
      prepared = prepared;
      unique = unique;
      asked = asked;
      voters = λ j c e. elim e [
        | inl new ↦ (v, rw (← ap (λ t. t.1) new) sent)
        | inr old ↦ voters j c old
      ];
    };
    peer = peer;
  }
    where
      open (inv.acceptors a) use {valid, votes, reported}

  pub prepared_at-Inv : (b : Ballot) → Elem a peers → Inv peers (prepared_at s a b)
  unfolding on_prepare
  prepared_at-Inv b peer = elim (Bool-cases (less (s.acceptor a).promised b)) [
    | inl up ↦ rw up (Move-Inv (promised-Move b peer up))
    | inr low ↦ rw low (Move-Inv (refused peer _))
  ]

  pub accepted_at-Inv :
      (b : Ballot) (v : Value)
      → Elem a peers
      → Elem (b, v) s.net.accepts
      → Inv peers (accepted_at s a b v)
  unfolding on_accept
  accepted_at-Inv b v peer sent = elim (Bool-cases (less b (s.acceptor a).promised)) [
    | inl low ↦ rw low (Move-Inv (refused peer _))
    | inr ok ↦ rw ok (Move-Inv (accepted-Move b v peer sent ok))
  ]
