-- ===== src/Replog/Run/Safety.antt =====
-- What holds of a node over a whole run, and over the runs between its crashes.
use mathlib.Core.Path.{subst}
use paxos_arena.Prelude.{
  ℕ, ◌+◌, ◌^◌, ◌*◌, ◌<◌, ◌≡◌, refl, sym, ◌∙◌, ap, ◌⊎◌, inl, inr, false, ◌&&◌, List, [], if_ind,
  if◌then◌else◌, length, ◌==◌,
}
use paxos_arena.Replog.Message.{Envelope}
use paxos_arena.Replog.Durable.{Store, Outcome}
use paxos_arena.Replog.State.{Config, Node, no_knobs, new_node, load}
use paxos_arena.Replog.Plumbing.{begin, member}
use paxos_arena.Replog.Handle.{handle}
use paxos_arena.Replog.Calls.{tick_as, step, tick, take_events, finish}
use paxos_arena.Replog.Machine.{CoreSteps, here}
use paxos_arena.Replog.Machine.Invariant.{CoreOk, StoreOk, durable, CoreSteps-CoreOk}
use paxos_arena.Replog.Machine.Growth.{Grows, CoreSteps-Grows}
use paxos_arena.Replog.Machine.Restart.{load-CoreOk, load_fields}
use paxos_arena.Replog.Refinement.Calls.{step-From, tick-From, propose_call-From, read_index-From}
use paxos_arena.Replog.Run.{Run, fresh, stepped, ticked, proposed, asked, drained}

-- What a call hands out, it hands out from a node that has not failed.
abbrev Alive : Node × List Envelope → Type 0
Alive r = (r.1 ≡ []) ⊎ (r.0.failed ≡ false)

-- No message, or a store that holds exactly what the node holds.
abbrev pub SavedOrSilent : Node × List Envelope → Type 0
SavedOrSilent r = (r.1 ≡ []) ⊎ (r.0.store ≡ durable (r.0).core)

finish-Alive : (n : Node) → Alive (finish n)
unfolding finish
finish-Alive n = if_ind Alive n.failed (λ _. inl refl) (λ ok. inr ok)

module _ (cfg : Config) (random : ℕ → ℕ → ℕ) (safe : cfg.unsafe ≡ no_knobs) where
  -- With no unsafe knob, the durable fields and the store of a node change in any run, whatever its
  -- Save calls return, only by steps of the abstract machine.
  pub Run-CoreSteps : {a n : Node} → Run cfg random a n → CoreSteps a.core n.core
  unfolding take_events
  Run-CoreSteps fresh = here
  Run-CoreSteps {a} (stepped {n} now env r) =
      step-From cfg random (ap (λ k. k.accept_below_promise) safe) a.core now env n
        (Run-CoreSteps r)
  Run-CoreSteps {a} (ticked {n} now room r) =
      tick-From cfg random (ap (λ k. k.accept_below_promise) safe) a.core now n room
        (Run-CoreSteps r)
  Run-CoreSteps {a} (proposed {n} now v r) =
      propose_call-From cfg random (ap (λ k. k.accept_below_promise) safe) a.core now v n
        (Run-CoreSteps r)
  Run-CoreSteps {a} (asked {n} now r) =
      read_index-From cfg random (ap (λ k. k.accept_below_promise) safe) a.core now n
        (Run-CoreSteps r)
  Run-CoreSteps (drained r) = Run-CoreSteps r

  new_node-CoreOk :
      (s : Store) (faults : List Outcome) → StoreOk s → CoreOk (new_node cfg s faults).core
  unfolding new_node
  new_node-CoreOk s faults h =
      subst (λ k. CoreOk (load k s faults)) (sym safe) (load-CoreOk s faults h)

  -- With no unsafe knob, in any run from `New` on a store that satisfies `StoreOk`, a node
  -- satisfies `CoreOk`.
  pub Run-CoreOk :
      (s : Store) (faults : List Outcome)
      → StoreOk s
      → {n : Node} → Run cfg random (new_node cfg s faults) n
      → CoreOk n.core
  Run-CoreOk s faults h r = CoreSteps-CoreOk (Run-CoreSteps r) (new_node-CoreOk s faults h)

  -- With no unsafe knob, in any run from a node that satisfies `CoreOk`, the promise and the round
  -- do not go down, a slot with a vote keeps one at a ballot that is not lower, and a chosen slot stays chosen.
  pub Run-Grows : {a n : Node} → CoreOk a.core → Run cfg random a n → Grows a.core n.core
  Run-Grows h r = CoreSteps-Grows (Run-CoreSteps r) h

  -- With no unsafe knob, after any run from `New`, on a store that satisfies `StoreOk`, that has
  -- not failed, `New` on the node's store reads back its promise, round, votes and log.
  pub restart-load :
      (s : Store) (faults later : List Outcome)
      → StoreOk s
      → {n : Node} → Run cfg random (new_node cfg s faults) n
      → n.failed ≡ false
      → ((load no_knobs n.store later).promised ≡ n.promised)
        × ((load no_knobs n.store later).max_round ≡ n.max_round)
        × ((load no_knobs n.store later).accepted ≡ n.accepted)
        × ((load no_knobs n.store later).chosen ≡ n.chosen)
  restart-load s faults later h {n} r ok =
      let good = Run-CoreOk s faults h r in
      let e = good.mirror ok in
      let (p, q, a, c) = load_fields n.store later good.store in
      (
        p ∙ ap (λ t. t.promised) e,
        q ∙ ap (λ t. t.max_round) e,
        a ∙ ap (λ t. t.accepted) e,
        c ∙ ap (λ t. t.chosen) e,
      )

  step-Alive : (now : ℕ) (env : Envelope) (n : Node) → Alive (step cfg random now env n)
  unfolding step
  step-Alive now env n =
      let n' = begin cfg random now n in
      if_ind Alive n.failed (λ _. inl refl)
        (λ _. finish-Alive (
          if env.receiver == cfg.self && member env.sender cfg.peers
          then handle cfg random (5 + 2 * length n'.queue) now env n'
          else n'))

  tick-Alive : (now : ℕ) (n : Node) → Alive (tick cfg random now n)
  unfolding tick
  tick-Alive now n =
      let n' = begin cfg random now n in
      if_ind Alive n.failed (λ _. inl refl) (λ _. finish-Alive (tick_as cfg random n'.role now n'))

  -- With no unsafe knob, in a run from `New` on a store that satisfies `StoreOk`, a call to Step
  -- and, with room for one more round, a call to Tick either hand out no message or leave a node whose store holds
  -- exactly its promise, round, votes and log.
  pub saved_before_sent :
      (s : Store) (faults : List Outcome)
      → StoreOk s
      → {n : Node} → Run cfg random (new_node cfg s faults) n
      → n.max_round + 1 < 2 ^ 64
      → (now : ℕ) (env : Envelope)
      → SavedOrSilent (step cfg random now env n) × SavedOrSilent (tick cfg random now n)
  saved_before_sent s faults h {n} r room now env = (
    settled (step cfg random now env n) (step-Alive now env n)
        (Run-CoreOk s faults h (stepped now env r)),
    settled (tick cfg random now n) (tick-Alive now n) (Run-CoreOk s faults h (ticked now room r)),
  )
    where
      settled : (r : Node × List Envelope) → Alive r → CoreOk (r.0).core → SavedOrSilent r
      settled r (inl e) good = inl e
      settled r (inr ok) good = inr (good.mirror ok)
