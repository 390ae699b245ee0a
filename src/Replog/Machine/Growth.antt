-- ===== src/Replog/Machine/Growth.antt =====
-- What never goes back while a core takes steps.
use paxos_arena.Prelude.{
  if_ind, ◌∙◌, ◌≤◌, ◌≡◌, refl, true, false, some, List, lookup, insert, lookup-insert, lookup-Elem,
  has_key, has_key-insert, All-Elem, ◌==◌, Bool-cases, inl, inr, arith,
}
use paxos_arena.Paxos.{Slot, PValue, less}
use paxos_arena.Paxos.Order.{less_irrefl, less_asymm, not_less_trans}
use paxos_arena.Replog.Durable.{
  Core, save, save_promised, save_max_round, save_accepted, save_chosen, advance_commit,
}
use paxos_arena.Replog.Acceptor.{put_accepted, put_chosen}
use paxos_arena.Replog.Machine.{
  CoreStep, raise_round, promise_ballot, accept_value, learn_entry, CoreSteps, here, next,
}
use paxos_arena.Replog.Machine.Saves.{save_fields}
use paxos_arena.Replog.Machine.Invariant.{CoreOk, CoreSteps-CoreOk}

-- A slot with a vote keeps one, at a ballot that is not lower.
abbrev pub VotesGrow : List (Slot × PValue) → List (Slot × PValue) → Type 0
VotesGrow m k =
    (s : Slot) (v : PValue)
    → lookup s m ≡ some v
    → (w : PValue) × (lookup s k ≡ some w) × (less w.ballot v.ballot ≡ false)

-- The promise, the round, the votes and the log of `d` are not behind those of `c`.
pub record Grows (c d : Core) : Type 0 where
  pub promise : less d.promised c.promised ≡ false
  pub round : c.max_round ≤ d.max_round
  pub votes : VotesGrow c.accepted d.accepted
  pub log : (s : Slot) → has_key s c.chosen ≡ true → has_key s d.chosen ≡ true

VotesGrow-refl : (m : List (Slot × PValue)) → VotesGrow m m
VotesGrow-refl m s v e = (v, e, less_irrefl v.ballot)

pub Grows-refl : (c : Core) → Grows c c
Grows-refl c = record {
  promise = less_irrefl c.promised;
  round = omega arith;
  votes = VotesGrow-refl c.accepted;
  log = λ s h. h;
}

pub Grows-trans : (c d e : Core) → Grows c d → Grows d e → Grows c e
Grows-trans c d e g h = record {
  promise = not_less_trans c.promised d.promised e.promised g.promise h.promise;
  round = omega (arith, g.round, h.round);
  votes = λ s v p.
      let (w, q, up) = g.votes s v p in
      let (x, r, up') = h.votes s w q in (x, r, not_less_trans v.ballot w.ballot x.ballot up up');
  log = λ s p. h.log s (g.log s p);
}

accept-VotesGrow :
    (c : Core) (pv : PValue)
    → pv.ballot ≡ c.promised
    → CoreOk c
    → VotesGrow c.accepted (insert pv.slot pv c.accepted)
accept-VotesGrow c pv same h s v e = elim (Bool-cases (pv.slot == s)) [
  | inl hit ↦ (
    pv,
    lookup-insert pv.slot s pv c.accepted ∙ rw hit refl,
    rw same (All-Elem _ (s, v) c.accepted h.votes (lookup-Elem s v c.accepted e)).0,
  )
  | inr miss ↦ (v, lookup-insert pv.slot s pv c.accepted ∙ rw miss e, less_irrefl v.ballot)
]

-- A step never lowers the promise or the round, and keeps every vote and every chosen slot.
CoreStep-Grows : {c d : Core} → CoreStep c d → CoreOk c → Grows c d
unfolding put_accepted put_chosen advance_commit
CoreStep-Grows {c} (raise_round r ok up) h =
    let (e1, e2, e3, e4, _) = save_fields (save_max_round r) (record c { max_round = r }) in
    record {
      promise = rw e1 (less_irrefl c.promised);
      round = rw e2 (omega arith);
      votes = rw e3 (VotesGrow-refl c.accepted);
      log = λ s p. rw e4 p;
    }
CoreStep-Grows {c} (promise_ballot b ok up room) h =
    let (e1, e2, e3, e4, _) = save_fields (save_promised b) (record c { promised = b }) in
    record {
      promise = rw e1 (less_asymm c.promised b up);
      round = rw e2 (omega arith);
      votes = rw e3 (VotesGrow-refl c.accepted);
      log = λ s p. rw e4 p;
    }
CoreStep-Grows {c} (accept_value pv ok nz slot same) h =
    let (e1, e2, e3, e4, _) = save_fields (save_accepted pv) c in
    if_ind (Grows c) (save (save_accepted pv) c).failed
      (λ _. record {
        promise = rw e1 (less_irrefl c.promised);
        round = rw e2 (omega arith);
        votes = rw e3 (VotesGrow-refl c.accepted);
        log = λ s p. rw e4 p;
      })
      (λ _. record {
        promise = rw e1 (less_irrefl c.promised);
        round = rw e2 (omega arith);
        votes = rw e3 (accept-VotesGrow c pv same h);
        log = λ s p. rw e4 p;
      })
CoreStep-Grows {c} (learn_entry e ok) h =
    let (e1, e2, e3, e4, _) = save_fields (save_chosen e) c in
    if_ind (Grows c) (save (save_chosen e) c).failed
      (λ _. record {
        promise = rw e1 (less_irrefl c.promised);
        round = rw e2 (omega arith);
        votes = rw e3 (VotesGrow-refl c.accepted);
        log = λ s p. rw e4 p;
      })
      (λ _. record {
        promise = rw e1 (less_irrefl c.promised);
        round = rw e2 (omega arith);
        votes = rw e3 (VotesGrow-refl c.accepted);
        log = λ s p. rw e4 (ground (arith, has_key-insert e.slot s e c.chosen));
      })

pub CoreSteps-Grows : {c d : Core} → CoreSteps c d → CoreOk c → Grows c d
CoreSteps-Grows {c} here h = Grows-refl c
CoreSteps-Grows {c} (next r s) h =
    Grows-trans c _ _ (CoreSteps-Grows r h) (CoreStep-Grows s (CoreSteps-CoreOk r h))
