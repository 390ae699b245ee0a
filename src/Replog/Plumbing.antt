-- ===== src/Replog/Plumbing.antt =====
-- internal/replog/node.go, "internal plumbing" and what every role shares.
use paxos_arena.Prelude.{
  ℕ, ◌+◌, ◌-◌, Bool, true, false, not, ◌&&◌, ◌||◌, List, [], ◌∷◌, ◌++◌, map, if◌then◌else◌, ltb,
  leb, ◌==◌,
}
use paxos_arena.Paxos.{NodeId, Ballot, less, same_ballot}
use paxos_arena.Replog.Message.{Message, Envelope, Event}
use paxos_arena.Replog.Durable.{Core, save, save_promised, save_max_round}
use paxos_arena.Replog.State.{Config, Role, Node, zero_phase1, is_follower}

-- Insertion sort by a key, for the `sort.Slice` calls on map keys, which are distinct.
module _ {A : Type 0} (key : A → ℕ) where
  unfoldable pub insert_sorted : A → List A → List A
  insert_sorted a [] = a ∷ []
  insert_sorted a (x ∷ xs) = if leb (key a) (key x) then a ∷ x ∷ xs else x ∷ insert_sorted a xs

  unfoldable pub sort_by : List A → List A
  sort_by [] = []
  sort_by (x ∷ xs) = insert_sorted x (sort_by xs)

-- The keys of a map in ascending order: `sortedSlots`, `sortedSeqs` and `sortedNodes`.
unfoldable pub sorted_keys : {V : Type 0} → List (ℕ × V) → List ℕ
unfolding sort_by insert_sorted
sorted_keys m = sort_by (λ k. k) (map (λ e. e.0) m)

-- `delete(m, k)`.
unfoldable pub erase : {V : Type 0} → ℕ → List (ℕ × V) → List (ℕ × V)
erase k [] = []
erase k ((j, v) ∷ m) = if j == k then m else (j, v) ∷ erase k m

-- A loop over a list that only changes the node.
unfoldable pub for_each : {A : Type 0} → List A → (A → Node → Node) → Node → Node
for_each [] f n = n
for_each (a ∷ as') f n = for_each as' f (f a n)

unfoldable pub emit : Event → Node → Node
emit e n = record n { events = n.events ++ e ∷ [] }

unfoldable pub member : NodeId → List NodeId → Bool
member a [] = false
member a (p ∷ ps) = p == a || member a ps

-- How a handler sends: the time, the receiver and the message.
abbrev pub Send : Type 0
Send = ℕ → NodeId → Message → Node → Node

-- The two saves of `setPromised`: the round first, then the promise.
unfoldable pub raise_to : ℕ → Core → Core
raise_to r c = if ltb c.max_round r then save (save_max_round r) (record c { max_round = r }) else c

unfoldable pub promise_to : Ballot → Core → Core
promise_to b c = if c.failed then c else save (save_promised b) (record c { promised = b })

unfoldable pub raise_promise : Ballot → Core → Core
raise_promise b c = promise_to b (raise_to b.round c)

module _ (cfg : Config) (random : ℕ → ℕ → ℕ) where
  -- `randomElectionTimeout`, with the next draw of `rng.Int64N`.
  unfoldable pub draw_timeout : Node → ℕ
  draw_timeout n =
      cfg.election_timeout_min
      + random n.draws (cfg.election_timeout_max - cfg.election_timeout_min + 1)

  unfoldable pub begin : ℕ → Node → Node
  unfolding draw_timeout
  begin now n =
      if not n.started
      then record n {
        started = true;
        election_deadline = now + draw_timeout n;
        draws = n.draws + 1;
      }
      else n

  unfoldable pub read_failures : NodeId → List ℕ → List Event
  read_failures lead [] = []
  read_failures lead (seq ∷ seqs) = Event.read_failed seq lead ∷ read_failures lead seqs

  unfoldable pub step_down : ℕ → NodeId → Ballot → ℕ → Node → Node
  unfolding draw_timeout read_failures
  step_down now lead lb wait n = record n {
    role = Role.follower;
    proposals = [];
    reads = [];
    queue = [];
    contacts = [];
    phase1 = zero_phase1;
    election_deadline = now + wait + draw_timeout n;
    draws = n.draws + 1;
    leader_hint = lead;
    leader_ballot = lb;
    events =
        (n.events ++ read_failures lead (sorted_keys n.reads))
        ++ Event.leader_changed lead lb false ∷ [];
  }

  unfoldable pub set_promised : ℕ → Ballot → Node → Node
  unfolding raise_promise step_down
  set_promised now b n =
      let n' = record n { core = raise_promise b n.core } in
      if n'.failed
      then n'
      else if not (is_follower n'.role) && less n'.ballot b
      then step_down now b.node b 0 n'
      else n'

  unfoldable pub refresh_lease : ℕ → Ballot → Node → Node
  refresh_lease now b n = record n { lease_holder = b.node; lease_until = now + cfg.lease_duration }

  unfoldable pub note_leader : ℕ → Ballot → Node → Node
  unfolding draw_timeout emit
  note_leader now b n =
      let n' = record n { election_deadline = now + draw_timeout n; draws = n.draws + 1 } in
      if not (n'.leader_hint == b.node) || not (same_ballot n'.leader_ballot b)
      then emit (Event.leader_changed b.node b false)
          (record n' { leader_hint = b.node; leader_ballot = b })
      else n'

  -- `broadcast`, to every peer in configuration order.
  unfoldable pub broadcast : Send → ℕ → Message → Bool → Node → Node
  unfolding for_each
  broadcast send now m include_self =
      for_each cfg.peers (λ p n. if p == cfg.self && not include_self then n else send now p m n)

  -- `send` and the head of `handle`: a message to the node itself is handled inline by `rec`.
  unfoldable pub send_with : (ℕ → Envelope → Node → Node) → Send
  send_with rec now to m n =
      let env : Envelope = record { sender = cfg.self; receiver = to; msg = m } in
      if n.failed
      then n
      else if to == cfg.self
      then rec now env n
      else record n { out = n.out ++ env ∷ [] }
