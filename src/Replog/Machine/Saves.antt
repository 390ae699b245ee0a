-- ===== src/Replog/Machine/Saves.antt =====
-- What a Save call does to the core.
use paxos_arena.Prelude.{◌≡◌, refl, ◌⊎◌, inl, inr, false, List, [], ◌∷◌}
use paxos_arena.Replog.Durable.{Core, Store, Outcome, save, save_as}

save_as_fields :
    (op : Store → Store) (fs : List Outcome) (d : Core)
    → ((save_as op fs d).promised ≡ d.promised)
      × ((save_as op fs d).max_round ≡ d.max_round)
      × ((save_as op fs d).accepted ≡ d.accepted)
      × ((save_as op fs d).chosen ≡ d.chosen)
      × ((save_as op fs d).commit_index ≡ d.commit_index)
unfolding save_as
save_as_fields op [] d = (refl, refl, refl, refl, refl)
save_as_fields op (Outcome.saved ∷ fs) d = (refl, refl, refl, refl, refl)
save_as_fields op (Outcome.lost ∷ fs) d = (refl, refl, refl, refl, refl)
save_as_fields op (Outcome.written ∷ fs) d = (refl, refl, refl, refl, refl)

-- What a Save call leaves alone.
pub save_fields :
    (op : Store → Store) (d : Core)
    → ((save op d).promised ≡ d.promised)
      × ((save op d).max_round ≡ d.max_round)
      × ((save op d).accepted ≡ d.accepted)
      × ((save op d).chosen ≡ d.chosen)
      × ((save op d).commit_index ≡ d.commit_index)
unfolding save
save_fields op d = save_as_fields op d.faults d

save_as_store :
    (op : Store → Store) (fs : List Outcome) (d : Core)
    → ((save_as op fs d).store ≡ d.store) ⊎ ((save_as op fs d).store ≡ op d.store)
unfolding save_as
save_as_store op [] d = inr refl
save_as_store op (Outcome.saved ∷ fs) d = inr refl
save_as_store op (Outcome.lost ∷ fs) d = inl refl
save_as_store op (Outcome.written ∷ fs) d = inr refl

-- The store has the write or has not.
pub save_store :
    (op : Store → Store) (d : Core)
    → ((save op d).store ≡ d.store) ⊎ ((save op d).store ≡ op d.store)
unfolding save
save_store op d = save_as_store op d.faults d

save_as_done :
    (op : Store → Store) (fs : List Outcome) (d : Core)
    → (save_as op fs d).failed ≡ false
    → (save_as op fs d).store ≡ op d.store
unfolding save_as
save_as_done op [] d h = refl
save_as_done op (Outcome.saved ∷ fs) d h = refl
save_as_done op (Outcome.lost ∷ fs) d h = cc
save_as_done op (Outcome.written ∷ fs) d h = cc

-- A core that has not failed has its write in the store.
pub save_done :
    (op : Store → Store) (d : Core) → (save op d).failed ≡ false → (save op d).store ≡ op d.store
unfolding save
save_done op d h = save_as_done op d.faults d h
