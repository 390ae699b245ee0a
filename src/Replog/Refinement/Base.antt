-- ===== src/Replog/Refinement/Base.antt =====
-- The durable side of a node while it runs shared code: sends, broadcasts and set_promised.
use paxos_arena.Prelude.{
  ℕ, ◌≤◌, ◌≡◌, refl, Bool, true, false, not, ◌&&◌, List, [], ◌∷◌, ltb, ltb→lt, ◌==◌, if_ind, arith,
}
use paxos_arena.Paxos.{NodeId, Ballot, less}
use paxos_arena.Replog.Message.{Message, Envelope}
use paxos_arena.Replog.Durable.{Core, save_promised, save_max_round}
use paxos_arena.Replog.State.{Config, Node, is_follower}
use paxos_arena.Replog.Plumbing.{
  Send, for_each, broadcast, send_with, set_promised, raise_to, promise_to, raise_promise,
  note_leader, refresh_lease, step_down,
}
use paxos_arena.Replog.Machine.Saves.{save_fields}
use paxos_arena.Replog.Machine.{CoreSteps, next, raise_round, promise_ballot}

-- The node has come from the core `c` by steps of the machine.
abbrev pub From : Core → Node → Type 0
From c n = CoreSteps c n.core

abbrev pub Keeps : Core → Send → Type 0
Keeps c send =
    (now : ℕ) (to : NodeId) (m : Message) (n : Node) → From c n → From c (send now to m n)

raise_promise-promised :
    (b : Ballot) (d : Core) → (raise_promise b d).failed ≡ false → (raise_promise b d).promised ≡ b
unfolding raise_promise promise_to
raise_promise-promised b d alive =
    ground (arith, save_fields (save_promised b) (record (raise_to b.round d) { promised = b }))

module _ (c : Core) where
  pub raise_to-Steps :
      (r : ℕ) (d : Core) → d.failed ≡ false → CoreSteps c d → CoreSteps c (raise_to r d)
  unfolding raise_to
  raise_to-Steps r d ok h =
      if_ind (CoreSteps c) (ltb d.max_round r) (λ e. next h (raise_round r ok (ltb→lt _ _ e)))
        (λ _. h)

  raise_to-round :
      (r : ℕ) (d : Core) → (r ≤ (raise_to r d).max_round) × ((raise_to r d).promised ≡ d.promised)
  unfolding raise_to
  raise_to-round r d = ground (arith, save_fields (save_max_round r) (record d { max_round = r }))

  raise_promise-Steps :
      (b : Ballot) (d : Core)
      → d.failed ≡ false
      → less d.promised b ≡ true
      → CoreSteps c d
      → CoreSteps c (raise_promise b d)
  unfolding raise_promise promise_to
  raise_promise-Steps b d ok up h =
      let d' = raise_to b.round d in
      let h' = raise_to-Steps b.round d ok h in
      let (room, same) = raise_to-round b.round d in
      if_ind (CoreSteps c) d'.failed (λ _. h')
        (λ alive. next h' (promise_ballot b alive (rw same up) room))

  pub for_each-From :
      {A : Type 0} (xs : List A) (f : A → Node → Node)
      → ((a : A) (n : Node) → From c n → From c (f a n))
      → (n : Node) → From c n
      → From c (for_each xs f n)
  unfolding for_each
  for_each-From [] f keep n h = h
  for_each-From (x ∷ xs) f keep n h = for_each-From xs f keep (f x n) (keep x n h)

module _ (cfg : Config) (random : ℕ → ℕ → ℕ) (c : Core) where
  pub broadcast-From :
      (send : Send)
      → Keeps c send
      → (now : ℕ) (m : Message) (self : Bool) (n : Node) → From c n
      → From c (broadcast cfg random send now m self n)
  unfolding broadcast
  broadcast-From send keep now m self n h =
      for_each-From c cfg.peers _
        (λ p n k. if_ind (From c) (p == cfg.self && not self) (λ _. k) (λ _. keep now p m n k)) n h

  pub send_with-From :
      (rec : ℕ → Envelope → Node → Node)
      → ((now : ℕ) (env : Envelope) (n : Node) → From c n → From c (rec now env n))
      → Keeps c (send_with cfg random rec)
  unfolding send_with
  send_with-From rec keep now to m n h =
      if_ind (From c) n.failed (λ _. h)
        (λ _. if_ind (From c) (to == cfg.self) (λ _. keep now _ n h) (λ _. h))

  pub note_leader-core :
      (now : ℕ) (b : Ballot) (n : Node) → (note_leader cfg random now b n).core ≡ n.core
  unfolding note_leader
  note_leader-core now b n = ground arith

  pub refresh_lease-core :
      (now : ℕ) (b : Ballot) (n : Node) → (refresh_lease cfg random now b n).core ≡ n.core
  unfolding refresh_lease
  refresh_lease-core now b n = refl

  pub set_promised-core :
      (now : ℕ) (b : Ballot) (n : Node)
      → (set_promised cfg random now b n).core ≡ raise_promise b n.core
  unfolding set_promised step_down
  set_promised-core now b n =
      let P : Node → Type 0 = λ m. m.core ≡ raise_promise b n.core in
      if_ind P (raise_promise b n.core).failed (λ _. refl)
        (λ _. if_ind P (not (is_follower n.role) && less n.ballot b) (λ _. refl) (λ _. refl))

  pub set_promised-From :
      (now : ℕ) (b : Ballot) (n : Node)
      → n.failed ≡ false
      → less n.promised b ≡ true
      → From c n
      → From c (set_promised cfg random now b n)
  set_promised-From now b n ok up h =
      rw (set_promised-core now b n) (raise_promise-Steps c b n.core ok up h)

  -- After it the promise is the ballot, unless a save failed.
  pub set_promised-promised :
      (now : ℕ) (b : Ballot) (n : Node)
      → (set_promised cfg random now b n).failed ≡ false
      → (set_promised cfg random now b n).promised ≡ b
  set_promised-promised now b n alive =
      let e = set_promised-core now b n in rw e (raise_promise-promised b n.core (rw e at alive))
