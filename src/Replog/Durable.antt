-- ===== src/Replog/Durable.antt =====
-- internal/replog/store.go, and the durable fields of Node with the calls that save them.
use paxos_arena.Prelude.{
  ℕ, suc, ◌+◌, ◌%◌, ◌^◌, Bool, true, none, some, List, [], ◌∷◌, lookup, insert, length,
}
use paxos_arena.Paxos.{Slot, Ballot, PValue, zero_ballot}
use paxos_arena.Replog.Message.{Entry}

-- uint64 arithmetic wraps.
abbrev pub u64 : ℕ → ℕ
u64 n = n % 2 ^ 64

-- What a store holds; `MemStore` is this record, and `Load` hands it back.
pub record Store : Type 0 where
  pub promised : Ballot
  pub max_round : ℕ
  pub accepted : List (Slot × PValue)
  pub chosen : List (Slot × Entry)

abbrev pub new_store : Store
new_store = record { promised = zero_ballot; max_round = 0; accepted = []; chosen = [] }

unfoldable pub save_promised : Ballot → Store → Store
save_promised b s = record s { promised = b }

unfoldable pub save_max_round : ℕ → Store → Store
save_max_round r s = record s { max_round = r }

unfoldable pub save_accepted : PValue → Store → Store
save_accepted pv s = record s { accepted = insert pv.slot pv s.accepted }

unfoldable pub save_chosen : Entry → Store → Store
save_chosen e s = record s { chosen = insert e.slot e s.chosen }

-- How a Save call ends: it returns nil, or an error with the write lost or made.
pub data Outcome : Type 0 where
  saved lost written : Outcome

-- The durable state of a node, mirrored in its store. `faults` says how the Save calls to come
-- will end; after the list they succeed. `failed` is `n.failed != nil`.
pub record Core : Type 0 where
  pub promised : Ballot
  pub max_round : ℕ
  pub accepted : List (Slot × PValue)
  pub chosen : List (Slot × Entry)
  pub commit_index : Slot
  pub store : Store
  pub faults : List Outcome
  pub failed : Bool

-- A Save call with its error check: `fail` keeps the node from doing anything more.
unfoldable pub save_as : (Store → Store) → List Outcome → Core → Core
save_as op [] c = record c { store = op c.store }
save_as op (Outcome.saved ∷ fs) c = record c { store = op c.store; faults = fs }
save_as op (Outcome.lost ∷ fs) c = record c { faults = fs; failed = true }
save_as op (Outcome.written ∷ fs) c = record c { store = op c.store; faults = fs; failed = true }

unfoldable pub save : (Store → Store) → Core → Core
unfolding save_as
save op c = save_as op c.faults c

-- The loop of `advanceCommit`: at most `fuel` more slots are known to be chosen.
unfoldable pub advance : ℕ → List (Slot × Entry) → Slot → Slot
advance ℕ.zero chosen i = i
advance (suc fuel) chosen i = elim (lookup (u64 (i + 1)) chosen) [
  | none ↦ i
  | some _ ↦ advance fuel chosen (u64 (i + 1))
]

unfoldable pub advance_commit : Core → Core
unfolding advance
advance_commit c = record c {
  commit_index = advance (suc (length c.chosen)) c.chosen c.commit_index;
}
