-- ===== src/Replog/Machine/Invariant.antt =====
-- The invariant of the abstract machine, and what never goes back.
use paxos_arena.Prelude.{
  ℕ, zero, suc, ◌+◌, ◌≤◌, ◌<◌, ◌≡◌, refl, sym, ◌∙◌, ap, inl, inr, Bool, true, false, some, List, [],
  ◌∷◌, if◌then◌else◌, lookup, insert, has_key, has_key-insert, has_key_of_lookup, All, All-insert,
  ◌==◌, length, Bool-cases, if_ind, Option-cases, arith,
}
use paxos_arena.Paxos.{Slot, Ballot, PValue, less, is_zero}
use paxos_arena.Paxos.Order.{less_irrefl, less_asymm, not_less_trans}
use paxos_arena.Replog.Message.{Entry}
use paxos_arena.Replog.Durable.{
  Core, Store, u64, save, save_promised, save_max_round, save_accepted, save_chosen, advance,
  advance_commit,
}
use paxos_arena.Replog.Acceptor.{put_accepted, put_chosen}
use paxos_arena.Replog.Machine.{
  CoreStep, raise_round, promise_ballot, accept_value, learn_entry, CoreSteps, here, next,
}
use paxos_arena.Replog.Machine.Saves.{save_fields, save_store, save_done}

-- Every vote stands under its slot, at a non-zero ballot that the promise is not below.
abbrev pub VotesOk : Ballot → List (Slot × PValue) → Type 0
VotesOk promised =
    All (λ e. (less promised e.1.ballot ≡ false) × (is_zero e.1.ballot ≡ false) × (e.1.slot ≡ e.0))

-- What the store holds at any time, also after a Save call that failed.
pub record StoreOk (s : Store) : Type 0 where
  pub rounds : s.promised.round ≤ s.max_round
  pub votes : VotesOk s.promised s.accepted

abbrev pub durable : Core → Store
durable c = record {
  promised = c.promised;
  max_round = c.max_round;
  accepted = c.accepted;
  chosen = c.chosen;
}

pub record CoreOk (c : Core) : Type 0 where
  pub mirror : c.failed ≡ false → c.store ≡ durable c
  pub store : StoreOk c.store
  pub rounds : c.promised.round ≤ c.max_round
  pub votes : VotesOk c.promised c.accepted
  pub prefix : (s : Slot) → 0 < s → s ≤ c.commit_index → has_key s c.chosen ≡ true

-- Every slot up to `i` is chosen.
abbrev pub Prefix : List (Slot × Entry) → Slot → Type 0
Prefix chosen i = (s : Slot) → 0 < s → s ≤ i → has_key s chosen ≡ true

pub advance-Prefix :
    (fuel : ℕ) (chosen : List (Slot × Entry)) (i : Slot)
    → Prefix chosen i
    → Prefix chosen (advance fuel chosen i)
unfolding advance
advance-Prefix zero chosen i h = h
advance-Prefix (suc fuel) chosen i h = elim (Option-cases (lookup (u64 (i + 1)) chosen)) [
  | inl e ↦ rw (e, advance) h
  | inr (v, e) ↦ rw (e, advance) (advance-Prefix fuel chosen (u64 (i + 1)) (more v e))
]
  where
    more : (v : Entry) → lookup (u64 (i + 1)) chosen ≡ some v → Prefix chosen (u64 (i + 1))
    more v e s pos le = elim (Bool-cases (s == u64 (i + 1))) [
      | inl same ↦
          let q : s ≡ u64 (i + 1) = ground arith in
          rw q (has_key_of_lookup (u64 (i + 1)) v chosen e)
      | inr other ↦ h s pos (ground arith)
    ]

VotesOk-raise :
    (b d : Ballot) (m : List (Slot × PValue)) → less d b ≡ false → VotesOk b m → VotesOk d m
VotesOk-raise b d [] le h = tt
VotesOk-raise b d ((s, pv) ∷ m) le h =
    ((not_less_trans pv.ballot b d h.0.0 le, h.0.1, h.0.2), VotesOk-raise b d m le h.1)

-- The store after a Save call keeps `StoreOk` when both of its possible contents have it.
save-StoreOk :
    (op : Store → Store) (d : Core)
    → StoreOk d.store
    → StoreOk (op d.store)
    → StoreOk (save op d).store
save-StoreOk op d h k = elim (save_store op d) [ inl e ↦ rw e h | inr e ↦ rw e k ]

durable-same :
    (c k : Core)
    → c.promised ≡ k.promised
    → c.max_round ≡ k.max_round
    → c.accepted ≡ k.accepted
    → c.chosen ≡ k.chosen
    → durable c ≡ durable k
durable-same c k p q r t = cc

-- A core whose own fields are right after a Save call that mirrors them.
save-CoreOk :
    (op : Store → Store) (d : Core)
    → StoreOk d.store
    → op d.store ≡ durable d
    → d.promised.round ≤ d.max_round
    → VotesOk d.promised d.accepted
    → Prefix d.chosen d.commit_index
    → CoreOk (save op d)
save-CoreOk op d before mirror rounds votes prefix =
    let (e1, e2, e3, e4, e5) = save_fields op d in
    let after : StoreOk (op d.store) = rw mirror (record { rounds = rounds; votes = votes }) in
    record {
      mirror = λ ok. save_done op d ok ∙ mirror ∙ sym (durable-same (save op d) d e1 e2 e3 e4);
      store = save-StoreOk op d before after;
      rounds = rw (e1, e2) rounds;
      votes = rw (e1, e3) votes;
      prefix = rw (e4, e5) prefix;
    }

raise_round-Ok :
    (c : Core) (r : ℕ)
    → c.failed ≡ false
    → c.max_round < r
    → CoreOk c
    → CoreOk (save (save_max_round r) (record c { max_round = r }))
unfolding save_max_round
raise_round-Ok c r ok up h =
    save-CoreOk (save_max_round r) (record c { max_round = r }) h.store
      (ap (save_max_round r) (h.mirror ok)) (omega (arith, h.rounds)) h.votes h.prefix

promise_ballot-Ok :
    (c : Core) (b : Ballot)
    → c.failed ≡ false
    → less c.promised b ≡ true
    → b.round ≤ c.max_round
    → CoreOk c
    → CoreOk (save (save_promised b) (record c { promised = b }))
unfolding save_promised
promise_ballot-Ok c b ok up room h =
    save-CoreOk (save_promised b) (record c { promised = b }) h.store
      (ap (save_promised b) (h.mirror ok)) room
      (VotesOk-raise c.promised b c.accepted (less_asymm c.promised b up) h.votes) h.prefix

-- A Save call made before the field it saves is set: the field is set only if the call succeeds.
late-CoreOk :
    (op : Store → Store) (c : Core) (g : Core → Core)
    → CoreOk c
    → c.failed ≡ false
    → StoreOk (op c.store)
    → ((save op c).failed ≡ false → CoreOk (g (save op c)))
    → CoreOk (if (save op c).failed then save op c else g (save op c))
late-CoreOk op c g h ok after done =
    let (e1, e2, e3, e4, e5) = save_fields op c in
    if_ind CoreOk (save op c).failed
      (λ dead. record {
        mirror = λ alive. absurd (contra dead alive);
        store = save-StoreOk op c h.store after;
        rounds = rw (e1, e2) h.rounds;
        votes = rw (e1, e3) h.votes;
        prefix = rw (e4, e5) h.prefix;
      })
      done
  where
    contra : {b : Bool} → b ≡ true → b ≡ false → ⊥
    contra p q = cc

accept_value-Ok :
    (c : Core) (pv : PValue)
    → c.failed ≡ false
    → is_zero pv.ballot ≡ false
    → pv.ballot ≡ c.promised
    → CoreOk c
    → CoreOk (put_accepted pv c)
unfolding put_accepted save_accepted
accept_value-Ok c pv ok nz same h =
    let op = save_accepted pv in
    let (e1, e2, e3, e4, e5) = save_fields op c in
    let votes : VotesOk c.promised (insert pv.slot pv c.accepted) =
      All-insert _ pv.slot pv c.accepted h.votes (rw same (less_irrefl c.promised), nz, refl) in
    let mirror : op c.store ≡ durable (record c { accepted = insert pv.slot pv c.accepted }) =
      ap op (h.mirror ok) in
    let after : StoreOk (op c.store) = rw mirror (record { rounds = h.rounds; votes = votes }) in
    late-CoreOk op c (λ d. record d { accepted = insert pv.slot pv d.accepted }) h ok after
      (λ alive. record {
        mirror = λ _.
            save_done op c alive
            ∙ mirror
            ∙ sym (
                durable-same
                  (record (save op c) { accepted = insert pv.slot pv (save op c).accepted })
                  (record c { accepted = insert pv.slot pv c.accepted }) e1 e2
                  (ap (insert pv.slot pv) e3) e4);
        store = save-StoreOk op c h.store after;
        rounds = rw (e1, e2) h.rounds;
        votes = rw (e1, e3) votes;
        prefix = rw (e4, e5) h.prefix;
      })

learn_entry-Ok : (c : Core) (e : Entry) → c.failed ≡ false → CoreOk c → CoreOk (put_chosen e c)
unfolding put_chosen save_chosen advance_commit
learn_entry-Ok c e ok h =
    let op = save_chosen e in
    let (e1, e2, e3, e4, e5) = save_fields op c in
    let mirror : op c.store ≡ durable (record c { chosen = insert e.slot e c.chosen }) =
      ap op (h.mirror ok) in
    let after : StoreOk (op c.store) = rw mirror (record { rounds = h.rounds; votes = h.votes }) in
    let more : Prefix (insert e.slot e c.chosen) c.commit_index =
      λ s pos le. ground (arith, has_key-insert e.slot s e c.chosen, h.prefix s pos le) in
    late-CoreOk op c (λ d. advance_commit (record d { chosen = insert e.slot e d.chosen })) h ok
      after
      (λ alive. record {
        mirror = λ _.
            save_done op c alive
            ∙ mirror
            ∙ sym (
                durable-same (record (save op c) { chosen = insert e.slot e (save op c).chosen })
                  (record c { chosen = insert e.slot e c.chosen }) e1 e2 e3
                  (ap (insert e.slot e) e4));
        store = save-StoreOk op c h.store after;
        rounds = rw (e1, e2) h.rounds;
        votes = rw (e1, e3) h.votes;
        prefix =
            advance-Prefix (suc (length (insert e.slot e (save op c).chosen)))
              (insert e.slot e (save op c).chosen) (save op c).commit_index (rw (e4, e5) more);
      })

pub CoreStep-CoreOk : {c d : Core} → CoreStep c d → CoreOk c → CoreOk d
CoreStep-CoreOk (raise_round r ok up) h = raise_round-Ok _ r ok up h
CoreStep-CoreOk (promise_ballot b ok up room) h = promise_ballot-Ok _ b ok up room h
CoreStep-CoreOk (accept_value pv ok nz slot same) h = accept_value-Ok _ pv ok nz same h
CoreStep-CoreOk (learn_entry e ok) h = learn_entry-Ok _ e ok h

pub CoreSteps-CoreOk : {c d : Core} → CoreSteps c d → CoreOk c → CoreOk d
CoreSteps-CoreOk here h = h
CoreSteps-CoreOk (next r s) h = CoreStep-CoreOk s (CoreSteps-CoreOk r h)
