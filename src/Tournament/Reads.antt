-- ===== src/Tournament/Reads.antt =====
-- internal/tournament/play_state.go: whether a player has events to read.
use paxos_arena.Prelude.{
  ℕ, zero, suc, ◌+◌, ◌/◌, Bool, true, false, ◌&&◌, ◌||◌, none, some, List, [], ◌∷◌, length, ltb,
  if◌then◌else◌, Text, same_text, find,
}
use paxos_arena.Paxos.{Slot}
use paxos_arena.Tournament.State.{State, EventRecord}
use paxos_arena.Tournament.Events.{no_event}

-- `events[i]`; an index out of range, which would panic, gives the zero value.
unfoldable pub event_at : ℕ → List EventRecord → EventRecord
event_at i [] = no_event
event_at zero (e ∷ es) = e
event_at (suc i) (e ∷ es) = event_at i es

unfoldable pub position_at : ℕ → List ℕ → ℕ
position_at i [] = 0
position_at zero (x ∷ xs) = x
position_at (suc i) (x ∷ xs) = position_at i xs

-- The loop of `firstAfter`, over the slots `f` of the events at the positions of a list. Each turn
-- shortens the interval, so its length is enough fuel.
unfoldable pub search_after : ℕ → (ℕ → Slot) → Slot → ℕ → ℕ → ℕ
search_after zero f after lo hi = lo
search_after (suc fuel) f after lo hi =
    let mid = (lo + hi) / 2 in
    let left = search_after fuel f after lo mid in
    let right = search_after fuel f after (mid + 1) hi in
    if ltb lo hi then (if ltb after (f mid) then left else right) else lo

unfoldable pub slot_in : List EventRecord → List ℕ → ℕ → Slot
unfolding event_at position_at
slot_in events list i = (event_at (position_at i list) events).slot

-- `firstAfter`.
unfoldable pub first_after : List EventRecord → List ℕ → Slot → ℕ
unfolding search_after slot_in
first_after events list after =
    search_after (length list) (slot_in events list) after 0 (length list)

-- Whether some event at a position of the list, from position `i` of the list on, passes a test.
unfoldable pub any_from : ℕ → (EventRecord → Bool) → List EventRecord → List ℕ → Bool
unfolding event_at
any_from i test events [] = false
any_from zero test events (x ∷ xs) = test (event_at x events) || any_from zero test events xs
any_from (suc i) test events (x ∷ xs) = any_from i test events xs

abbrev pub in_tournament : Text → EventRecord → Bool
in_tournament t ev = same_text t [] || same_text ev.tournament t

abbrev pub positions : Text → List (Text × List ℕ) → List ℕ
positions k m = elim (find k m) [ none ↦ [] | some is ↦ is ]

-- The loop of `HasEvents` over the tournaments that the player entered.
unfoldable pub any_shared : Slot → Text → List EventRecord → List (Text × List ℕ) → List Text → Bool
unfolding first_after
any_shared after t events shared [] = false
any_shared after t events shared (tid ∷ tids) =
    let list = positions tid shared in
    if (same_text t [] || same_text tid t) && ltb (first_after events list after) (length list)
    then true
    else any_shared after t events shared tids

-- `HasEvents`.
unfoldable pub has_events : Slot → Text → Text → State → Bool
unfolding first_after any_from any_shared
has_events after t pid s = elim (find pid s.play.players) [
  | none ↦ false
  | some ps ↦
      let events = s.play.events in
      let own = positions pid s.play.own in
      if any_from (first_after events own after) (in_tournament t) events own
      then true
      else any_shared after t events s.play.shared ps.entered
]
