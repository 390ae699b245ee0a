-- ===== src/Tournament/History.antt =====
-- What holds of the tournament state after any run of chosen commands.
use paxos_arena.Prelude.{◌≤◌, ◌≡◌, refl, true, some, List, Text, find, All-find, leb, arith}
use paxos_arena.Paxos.{Slot, Ballot}
use paxos_arena.Tournament.{Tournament}
use paxos_arena.Tournament.Commands.{Command, Code}
use paxos_arena.Tournament.State.{State, Host, new_state}
use paxos_arena.Tournament.Apply.{at_slot, apply, Chosen, apply_all}
use paxos_arena.Tournament.Growth.{IsFair, IsLater}
use paxos_arena.Tournament.Runs.{apply-applied, apply_all-Advances}

apply_old :
    (h : Host) (slot : Slot) (ballot : Ballot) (cmd : Command) (s : State)
    → slot ≤ s.applied
    → apply h slot ballot cmd s ≡ (s, at_slot slot Code.out_of_order)
unfolding apply
apply_old h slot ballot cmd s old =
    let e : leb slot s.applied ≡ true = ground arith in rw (e, apply) refl

-- In a state that any run leads to, each tournament has at most as many entries as its rules let in,
-- never more than a million, and no two of one player.
pub apply_all-IsFair :
    (h : Host) (cs : List Chosen) (id : Text) (t : Tournament)
    → find id (apply_all h cs new_state).tournaments ≡ some t
    → IsFair t
apply_all-IsFair h cs id t found =
    All-find IsFair id t (apply_all h cs new_state).tournaments
      ((apply_all-Advances h cs new_state).fair tt) found

-- A run keeps every tournament, with its identifier, seed and rules: the players of its entries stay
-- in their order and new ones stand after them, a tournament that is not open does not open again,
-- and a settled record does not change at all.
pub apply_all-IsLater :
    (h : Host) (cs : List Chosen) (s : State) (id : Text) (t : Tournament)
    → find id s.tournaments ≡ some t
    → (t' : Tournament) × (find id (apply_all h cs s).tournaments ≡ some t') × IsLater t t'
apply_all-IsLater h cs s id t found = (apply_all-Advances h cs s).later id t found

-- A slot is applied once: after a command in a slot, whether it is run or refused, and any run from
-- there, every command in that slot or in one below it is refused as out of order, and refusing it
-- changes nothing.
pub apply_all-refuses :
    (h : Host) (s : State) (slot : Slot) (ballot : Ballot) (cmd : Command) (cs : List Chosen)
    (slot' : Slot) (ballot' : Ballot) (cmd' : Command)
    → slot' ≤ slot
    → let s1 = apply_all h cs (apply h slot ballot cmd s).0 in
      apply h slot' ballot' cmd' s1 ≡ (s1, at_slot slot' Code.out_of_order)
apply_all-refuses h s slot ballot cmd cs slot' ballot' cmd' old =
    let s0 = (apply h slot ballot cmd s).0 in
    let up = (apply_all-Advances h cs s0).up in
    let raised = apply-applied h slot ballot cmd s in
    apply_old h slot' ballot' cmd' (apply_all h cs s0) (omega (arith, up, raised, old))
