-- ===== src/Replog/Machine/Restart.antt =====
-- The core that `New` builds from a store, and a restart after a run.
use paxos_arena.Prelude.{if_ind, ℕ, suc, ◌≤◌, ◌<◌, ◌≡◌, refl, List, ltb, ltb→lt, length, arith}
use paxos_arena.Replog.Durable.{Store, Outcome, advance_commit}
use paxos_arena.Replog.State.{no_knobs, load}
use paxos_arena.Replog.Machine.Invariant.{StoreOk, CoreOk, advance-Prefix}

-- `New` from a store that keeps its promise below its round starts from a good core.
pub load-CoreOk : (s : Store) (faults : List Outcome) → StoreOk s → CoreOk (load no_knobs s faults)
unfolding load advance_commit
load-CoreOk s faults h =
    if_ind CoreOk (ltb s.max_round s.promised.round)
      (λ e. absurd (not_below (ltb→lt _ _ e) h.rounds))
      (λ _. record {
        mirror = λ _. refl;
        store = h;
        rounds = h.rounds;
        votes = h.votes;
        prefix =
            advance-Prefix (suc (length s.chosen)) s.chosen 0
              (λ s pos le. absurd (no_slot s pos le));
      })
  where
    not_below : {a b : ℕ} → a < b → b ≤ a → ⊥
    not_below p q = omega arith

    no_slot : (s : ℕ) → 0 < s → s ≤ 0 → ⊥
    no_slot s p q = omega arith

-- What `New` reads back from a store.
pub load_fields :
    (s : Store) (faults : List Outcome)
    → StoreOk s
    → ((load no_knobs s faults).promised ≡ s.promised)
      × ((load no_knobs s faults).max_round ≡ s.max_round)
      × ((load no_knobs s faults).accepted ≡ s.accepted)
      × ((load no_knobs s faults).chosen ≡ s.chosen)
unfolding load advance_commit
load_fields s faults h = ground (arith, h.rounds)
