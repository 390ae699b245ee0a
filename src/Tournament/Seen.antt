-- ===== src/Tournament/Seen.antt =====
-- The binary search of the event reads, and the reads against a scan of all events.
use paxos_arena.Prelude.{
  ℕ, zero, suc, ◌+◌, ◌/◌, ◌≤◌, ◌<◌, ◌≡◌, refl, sym, ap, ◌∙◌, Bool, true, false, ◌&&◌, ◌||◌, some,
  List, [], ◌∷◌, length, ltb, if◌then◌else◌, if_ind, All, Text, same_text, find, arith,
}
use paxos_arena.Paxos.{Slot}
use paxos_arena.Tournament.State.{State, PlayerState, EventRecord}
use paxos_arena.Tournament.Reads.{
  event_at, position_at, search_after, slot_in, first_after, any_from, in_tournament, positions,
  any_shared, has_events,
}

-- Position `r` parts the first `n` values of `f`: those at or below `after`, then those above it.
pub record Parts (f : ℕ → Slot) (after : Slot) (n r : ℕ) : Type 0 where
  pub inside : r ≤ n
  pub low : (i : ℕ) → i < r → f i ≤ after
  pub high : (i : ℕ) → r ≤ i → i < n → after < f i

abbrev pub Ascending : (ℕ → Slot) → ℕ → Type 0
Ascending f n = (i j : ℕ) → i ≤ j → j < n → f i ≤ f j

search_after-Parts :
    (fuel : ℕ) (f : ℕ → Slot) (after : Slot) (n lo hi : ℕ)
    → Ascending f n
    → hi ≤ n
    → lo ≤ hi
    → hi ≤ lo + fuel
    → ((i : ℕ) → i < lo → f i ≤ after)
    → ((i : ℕ) → hi ≤ i → i < n → after < f i)
    → Parts f after n (search_after fuel f after lo hi)
unfolding search_after
search_after-Parts zero f after n lo hi up inside order enough low high = record {
  inside = omega arith;
  low = low;
  high = λ i above. high i (omega arith);
}
search_after-Parts (suc fuel) f after n lo hi up inside order enough low high =
    let mid = (lo + hi) / 2 in
    if_ind (Parts f after n) (ltb lo hi)
      (λ some_left.
        let apart : lo < hi = ground arith in
        if_ind (Parts f after n) (ltb after (f mid))
          (λ above.
            search_after-Parts fuel f after n lo mid up (omega arith) (omega arith) (omega arith)
              low (λ i from small. ground (arith, up mid i from small)))
          (λ below.
            search_after-Parts fuel f after n (mid + 1) hi up inside (omega arith) (omega arith)
              (λ i small. ground (arith, up i mid (omega arith) (omega arith))) high))
      (λ none_left. record {
        inside = omega arith;
        low = low;
        high = λ i above. high i (ground arith);
      })

-- When the slots of a list's events ascend, firstAfter gives the position that parts them: every event
-- before it has a slot at or below the given one, and every event from it on a slot above.
pub first_after-Parts :
    (events : List EventRecord) (list : List ℕ) (after : Slot)
    → Ascending (slot_in events list) (length list)
    → Parts (slot_in events list) after (length list) (first_after events list after)
unfolding first_after
first_after-Parts events list after up =
    search_after-Parts (length list) (slot_in events list) after (length list) 0 (length list) up
      (omega arith) (omega arith) (omega arith) (λ i small. absurd (omega arith))
      (λ i from small. absurd (omega arith))

-- The tests that a scan makes of every event.
abbrev pub is_after : Slot → EventRecord → Bool
is_after after ev = ltb after ev.slot

Parts-tail :
    (events : List EventRecord) (x : ℕ) (xs : List ℕ) (after : Slot) (r : ℕ)
    → Parts (slot_in events (x ∷ xs)) after (suc (length xs)) (suc r)
    → Parts (slot_in events xs) after (length xs) r
unfolding slot_in position_at
Parts-tail events x xs after r p = record {
  inside = omega (arith, p.inside);
  low = λ i small. p.low (suc i) (omega arith);
  high = λ i from small. p.high (suc i) (omega arith) (omega arith);
}

Parts-rest :
    (events : List EventRecord) (x : ℕ) (xs : List ℕ) (after : Slot)
    → Parts (slot_in events (x ∷ xs)) after (suc (length xs)) 0
    → Parts (slot_in events xs) after (length xs) 0
unfolding slot_in position_at
Parts-rest events x xs after p = record {
  inside = omega arith;
  low = λ i small. absurd (omega arith);
  high = λ i from small. p.high (suc i) (omega arith) (omega arith);
}

any_from-Parts :
    (test : EventRecord → Bool) (events : List EventRecord) (list : List ℕ) (after : Slot) (r : ℕ)
    → Parts (slot_in events list) after (length list) r
    → any_from r test events list ≡ any_from 0 (λ ev. is_after after ev && test ev) events list
unfolding any_from slot_in position_at
any_from-Parts test events [] after r p = refl
any_from-Parts test events (x ∷ xs) after zero p =
    let above : is_after after (event_at x events) ≡ true =
      ground (arith, p.high 0 (omega arith) (omega arith)) in
    let rest = any_from-Parts test events xs after 0 (Parts-rest events x xs after p) in
    rw (above, rest) refl
any_from-Parts test events (x ∷ xs) after (suc r) p =
    let below : is_after after (event_at x events) ≡ false =
      ground (arith, p.low 0 (omega arith)) in
    rw below (any_from-Parts test events xs after r (Parts-tail events x xs after r p))

any_from-all :
    (events : List EventRecord) (list : List ℕ) (r : ℕ)
    → r ≤ length list
    → any_from r (λ ev. true) events list ≡ ltb r (length list)
unfolding any_from
any_from-all events [] r h = ground arith
any_from-all events (x ∷ xs) zero h = ground arith
any_from-all events (x ∷ xs) (suc r) h = any_from-all events xs r (omega arith) ∙ ground arith

-- A scan of the events of every tournament that a player entered.
unfoldable pub scan_shared :
    Slot → Text → List EventRecord → List (Text × List ℕ) → List Text → Bool
unfolding any_from
scan_shared after t events shared [] = false
scan_shared after t events shared (tid ∷ tids) =
    ((same_text t [] || same_text tid t)
      && any_from 0 (λ ev. is_after after ev && true) events (positions tid shared))
    || scan_shared after t events shared tids

if_true_or : (a b : Bool) → (if a then true else b) ≡ (a || b)
if_true_or true b = refl
if_true_or false b = refl

any_shared-scan_shared :
    (after : Slot) (t : Text) (events : List EventRecord) (shared : List (Text × List ℕ))
    (tids : List Text)
    → All
        (λ tid. Ascending (slot_in events (positions tid shared)) (length (positions tid shared)))
        tids
    → any_shared after t events shared tids ≡ scan_shared after t events shared tids
unfolding any_shared scan_shared
any_shared-scan_shared after t events shared [] up = refl
any_shared-scan_shared after t events shared (tid ∷ tids) up =
    let list = positions tid shared in
    let r = first_after events list after in
    let p = first_after-Parts events list after up.0 in
    let found =
      sym (any_from-all events list r p.inside)
      ∙ any_from-Parts (λ ev. true) events list after r p in
    let wanted = same_text t [] || same_text tid t in
    let rest = any_shared-scan_shared after t events shared tids up.1 in
    if_true_or (wanted && ltb r (length list)) (any_shared after t events shared tids)
    ∙ ap (λ b. (wanted && b) || any_shared after t events shared tids) found
    ∙ ap (λ b. (wanted && any_from 0 (λ ev. is_after after ev && true) events list) || b) rest

has_events-known :
    (after : Slot) (t pid : Text) (s : State) (ps : PlayerState)
    → find pid s.play.players ≡ some ps
    → let own = positions pid s.play.own in
      has_events after t pid s ≡ (
        if any_from (first_after s.play.events own after) (in_tournament t) s.play.events own
        then true
        else any_shared after t s.play.events s.play.shared ps.entered)
unfolding has_events
has_events-known after t pid s ps e = rw (e, has_events) refl

-- When the slots of a bound player's own events and of each entered tournament's events ascend,
-- HasEvents, with its binary searches, answers as a scan does: that some own event in the tournament,
-- or some shared event of an entered tournament that is asked for, has a slot above the given one.
pub has_events_lem :
    (after : Slot) (t pid : Text) (s : State) (ps : PlayerState)
    → find pid s.play.players ≡ some ps
    → Ascending
        (slot_in s.play.events (positions pid s.play.own))
        (length (positions pid s.play.own))
    → All
        (λ tid.
          Ascending
            (slot_in s.play.events (positions tid s.play.shared))
            (length (positions tid s.play.shared)))
        ps.entered
    → has_events after t pid s ≡ (
        any_from 0
          (λ ev. is_after after ev && in_tournament t ev)
          s.play.events
          (positions pid s.play.own)
        || scan_shared after t s.play.events s.play.shared ps.entered)
has_events_lem after t pid s ps there up ups =
    let events = s.play.events in
    let own = positions pid s.play.own in
    let r = first_after events own after in
    let mine =
      any_from-Parts (in_tournament t) events own after r (first_after-Parts events own after up) in
    let theirs = any_shared-scan_shared after t events s.play.shared ps.entered ups in
    has_events-known after t pid s ps there
    ∙ if_true_or (any_from r (in_tournament t) events own)
        (any_shared after t events s.play.shared ps.entered)
    ∙ ap (λ b. b || any_shared after t events s.play.shared ps.entered) mine
    ∙ ap (λ b. any_from 0 (λ ev. is_after after ev && in_tournament t ev) events own || b) theirs
