-- ===== src/Replog/Fuel/Base.antt =====
-- How deep a message to the node itself can nest, and the shared code under that measure.
use paxos_arena.Prelude.{
  ℕ, ◌≤◌, ◌≡◌, Bool, false, not, ◌&&◌, ◌||◌, List, [], ◌∷◌, length, if_ind, ◌==◌, arith,
}
use paxos_arena.Paxos.{NodeId, Ballot, less, same_ballot}
use paxos_arena.Replog.Message.{Message, Envelope}
use paxos_arena.Replog.State.{Config, Node, is_follower}
use paxos_arena.Replog.Plumbing.{
  Send, for_each, broadcast, send_with, set_promised, raise_promise, note_leader, refresh_lease,
  step_down, emit,
}

-- How many more messages to itself the handling of a message can set off, itself included, when
-- nothing is queued.
abbrev pub rank : Message → ℕ
rank (Message.prepare b s) = 4
rank (Message.promise m) = 3
rank (Message.accept b s v) = 2
rank (Message.accepted b s) = 1
rank (Message.nack m) = 1
rank (Message.learn e) = 1
rank (Message.learn_request s k) = 2
rank (Message.heartbeat m) = 3
rank (Message.heartbeat_ack m) = 1

-- The fuel never ran out, and at most `q` values are queued.
abbrev pub Fits : ℕ → Node → Type 0
Fits q n = (n.stuck ≡ false) × (length n.queue ≤ q)

-- Sending messages up to a rank keeps that.
abbrev pub Calm : ℕ → ℕ → Send → Type 0
Calm r q send =
    (now : ℕ) (to : NodeId) (m : Message) (n : Node)
    → rank m ≤ r
    → Fits q n
    → Fits q (send now to m n)

-- So does sending anything to another node.
abbrev pub Far : NodeId → ℕ → Send → Type 0
Far self q send =
    (now : ℕ) (to : NodeId) (m : Message) (n : Node)
    → (to == self) ≡ false
    → Fits q n
    → Fits q (send now to m n)

pub for_each-Fits :
    {A : Type 0} (q : ℕ) (xs : List A) (f : A → Node → Node)
    → ((a : A) (n : Node) → Fits q n → Fits q (f a n))
    → (n : Node) → Fits q n
    → Fits q (for_each xs f n)
unfolding for_each
for_each-Fits q [] f keep n h = h
for_each-Fits q (x ∷ xs) f keep n h = for_each-Fits q xs f keep (f x n) (keep x n h)

module _ (cfg : Config) (random : ℕ → ℕ → ℕ) (q : ℕ) where
  pub broadcast-Fits :
      (r : ℕ) (send : Send)
      → Calm r q send
      → (now : ℕ) (m : Message) (self : Bool) (n : Node) → rank m ≤ r
      → Fits q n
      → Fits q (broadcast cfg random send now m self n)
  unfolding broadcast
  broadcast-Fits r send calm now m self n le h =
      for_each-Fits q cfg.peers _
        (λ p k k_ok.
          if_ind (Fits q) (p == cfg.self && not self) (λ _. k_ok) (λ _. calm now p m k le k_ok))
        n h

  pub broadcast_others-Fits :
      (send : Send)
      → Far cfg.self q send
      → (now : ℕ) (m : Message) (n : Node) → Fits q n
      → Fits q (broadcast cfg random send now m false n)
  unfolding broadcast
  broadcast_others-Fits send far now m n h =
      for_each-Fits q cfg.peers _
        (λ p k k_ok.
          if_ind (Fits q) (p == cfg.self && not false) (λ _. k_ok)
            (λ other. far now p m k (ground arith) k_ok))
        n h

  pub send_with-Far : (rec : ℕ → Envelope → Node → Node) → Far cfg.self q (send_with cfg random rec)
  unfolding send_with
  send_with-Far rec now to m n other h = if_ind (Fits q) n.failed (λ _. h) (λ _. rw other h)

  pub step_down-Fits :
      (now : ℕ) (lead : NodeId) (lb : Ballot) (wait : ℕ) (n : Node)
      → Fits q n
      → Fits q (step_down cfg random now lead lb wait n)
  unfolding step_down
  step_down-Fits now lead lb wait n h = (h.0, omega arith)

  pub note_leader-Fits :
      (now : ℕ) (b : Ballot) (n : Node) → Fits q n → Fits q (note_leader cfg random now b n)
  unfolding note_leader emit
  note_leader-Fits now b n h =
      if_ind (Fits q) (not (n.leader_hint == b.node) || not (same_ballot n.leader_ballot b))
        (λ _. h) (λ _. h)

  pub refresh_lease-Fits :
      (now : ℕ) (b : Ballot) (n : Node) → Fits q n → Fits q (refresh_lease cfg random now b n)
  unfolding refresh_lease
  refresh_lease-Fits now b n h = h

  pub set_promised-Fits :
      (now : ℕ) (b : Ballot) (n : Node) → Fits q n → Fits q (set_promised cfg random now b n)
  unfolding set_promised
  set_promised-Fits now b n h =
      let n' = record n { core = raise_promise b n.core } in
      if_ind (Fits q) (raise_promise b n.core).failed (λ _. h)
        (λ _.
          if_ind (Fits q) (not (is_follower n.role) && less n.ballot b)
            (λ _. step_down-Fits now b.node b 0 n' h) (λ _. h))
