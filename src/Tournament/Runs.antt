-- ===== src/Tournament/Runs.antt =====
-- Every run of chosen commands keeps what its operations keep.
use mathlib.Core.Path.{subst}
use paxos_arena.Prelude.{
  ℕ, ◌≤◌, ◌≡◌, refl, sym, ap, ◌∙◌, inl, inr, false, not, none, List, [], ◌∷◌, ◌++◌, length, All,
  if_ind, Option-cases, Text, same_text, find, put, has-find, Grown, Grown-refl, Grown-trans,
  Grown-new, leb, arith,
}
use paxos_arena.Paxos.{Slot, Ballot}
use paxos_arena.Ledger.{Posting}
use paxos_arena.Ledger.Book.{post_all}
use paxos_arena.Tournament.Shapes.{valid_key}
use paxos_arena.Tournament.Commands.{Op, Command, Result}
use paxos_arena.Tournament.State.{State, Host, Recorded}
use paxos_arena.Tournament.Apply.{
  is_known, fingerprint, run_op, recorded, execute, mix, advanced, apply, skip, Chosen, apply_all,
}
use paxos_arena.Tournament.Growth.{
  IsFair, IsLater, IsLater-refl, IsLater-trans, IsAhead, IsAhead-refl, IsAhead-trans, Evolves,
  Evolves-refl, post_all-append,
}
use paxos_arena.Tournament.Steps.{create-Evolves, join-Evolves, score-Evolves}
use paxos_arena.Tournament.Settling.{close-Evolves, settle-Evolves}
use paxos_arena.Tournament.Playing.{open_session-Evolves, enter_play-Evolves}
use paxos_arena.Tournament.Moving.{
  start_round-Evolves, play_move-Evolves, finish_command-Evolves, claim_payout-Evolves,
}

run_op-Evolves :
    (h : Host) (slot : Slot) (ballot : Ballot) (at : ℕ) (op : Op) (s : State)
    → Evolves s (run_op h slot ballot at op s).0
unfolding run_op
run_op-Evolves h slot ballot at (Op.create_tournament o) s = create-Evolves slot o s
run_op-Evolves h slot ballot at (Op.join_tournament o) s = join-Evolves slot ballot o s
run_op-Evolves h slot ballot at (Op.submit_score o) s = score-Evolves o s
run_op-Evolves h slot ballot at (Op.close_tournament o) s = close-Evolves h slot o s
run_op-Evolves h slot ballot at (Op.settle_tournament o) s = settle-Evolves slot ballot o s
run_op-Evolves h slot ballot at (Op.open_session o) s = open_session-Evolves slot at o s
run_op-Evolves h slot ballot at (Op.enter_tournament o) s = enter_play-Evolves slot ballot o s
run_op-Evolves h slot ballot at (Op.start_round o) s = start_round-Evolves slot o s
run_op-Evolves h slot ballot at (Op.play_move o) s = play_move-Evolves h slot o s
run_op-Evolves h slot ballot at (Op.finish_round o) s = finish_command-Evolves h slot o s
run_op-Evolves h slot ballot at (Op.claim_payout o) s = claim_payout-Evolves slot ballot o s
run_op-Evolves h slot ballot at Op.no_op s = Evolves-refl s

abbrev pub Same : Recorded → Recorded → Type 0
Same r r' = r' ≡ r

-- What Apply and Skip do to the state: as for an operation, but the applied slot may grow and the
-- results table may gain a row.
pub record Advances (s s' : State) : Type 0 where
  pub kept : Grown Same s.results s'.results
  pub up : s.applied ≤ s'.applied
  pub posted : (ps : List Posting) × (s'.book ≡ post_all s.book ps)
  pub later : Grown IsLater s.tournaments s'.tournaments
  pub fair : All (λ e. IsFair e.1) s.tournaments → All (λ e. IsFair e.1) s'.tournaments
  pub ahead : Grown IsAhead s.play.players s'.play.players

Advances-refl : (s : State) → Advances s s
unfolding post_all
Advances-refl s = record {
  kept = Grown-refl Same s.results (λ r. refl);
  up = omega arith;
  posted = ([], refl);
  later = Grown-refl IsLater s.tournaments IsLater-refl;
  fair = λ h. h;
  ahead = Grown-refl IsAhead s.play.players IsAhead-refl;
}

Advances-trans : (s u v : State) → Advances s u → Advances u v → Advances s v
Advances-trans s u v f g =
    let (ps, e) = f.posted in
    let (qs, d) = g.posted in
    record {
      kept = Grown-trans Same s.results u.results v.results (λ a b c p q. q ∙ p) f.kept g.kept;
      up = omega (arith, f.up, g.up);
      posted = (ps ++ qs, d ∙ ap (λ b. post_all b qs) e ∙ sym (post_all-append s.book ps qs));
      later =
          Grown-trans IsLater s.tournaments u.tournaments v.tournaments IsLater-trans f.later
            g.later;
      fair = λ h. g.fair (f.fair h);
      ahead =
          Grown-trans IsAhead s.play.players u.play.players v.play.players IsAhead-trans f.ahead
            g.ahead;
    }

recorded-Advances :
    (slot : Slot) (key fp : Text) (s : State) (r : State × Result)
    → find key s.results ≡ none
    → Evolves s r.0
    → Advances s (recorded slot key fp r).0
unfolding recorded
recorded-Advances slot key fp s (s', r) new v = record {
  kept =
      subst (λ m. Grown Same s.results (put key row m)) (sym v.results_kept)
        (Grown-new Same key row s.results (λ q. refl) (has-find key s.results new));
  up = omega (arith, v.applied_kept);
  posted = v.posted;
  later = v.later;
  fair = v.fair;
  ahead = v.ahead;
}
  where
    row : Recorded
    row = record { fingerprint = fp; result = record r { slot = slot } }

abbrev AdvancesTo : State → State × Result → Type 0
AdvancesTo s r = Advances s r.0

execute-Advances :
    (h : Host) (slot : Slot) (ballot : Ballot) (cmd : Command) (s : State)
    → Advances s (execute h slot ballot cmd s).0
unfolding execute
execute-Advances h slot ballot cmd s =
    if_ind (AdvancesTo s) (not (valid_key cmd.key)) (λ e. Advances-refl s)
      (λ e. elim (Option-cases (find cmd.key s.results)) [
        | inr (r, d) ↦ rw d (
            if_ind (AdvancesTo s) (not (same_text r.fingerprint (fingerprint h cmd)))
              (λ c. Advances-refl s) (λ c. Advances-refl s))
        | inl d ↦ rw d (
            if_ind (AdvancesTo s) (is_known cmd.op)
              (λ c.
                recorded-Advances slot cmd.key (fingerprint h cmd) s
                  (run_op h slot ballot cmd.received_at cmd.op s) d
                  (run_op-Evolves h slot ballot cmd.received_at cmd.op s))
              (λ c. Advances-refl s))
      ])

advanced-Advances :
    (slot : Slot) (cmd : Command) (s : State)
    → leb slot s.applied ≡ false
    → Advances s (advanced slot cmd s)
unfolding advanced post_all
advanced-Advances slot cmd s new = record {
  kept = Grown-refl Same s.results (λ r. refl);
  up = ground arith;
  posted = ([], refl);
  later = Grown-refl IsLater s.tournaments IsLater-refl;
  fair = λ h. h;
  ahead = Grown-refl IsAhead s.play.players IsAhead-refl;
}

mix-Advances :
    (h : Host) (slot : Slot) (cmd : Command) (res : Result) (n : ℕ) (s : State)
    → Advances s (mix h slot cmd res n s)
unfolding mix post_all
mix-Advances h slot cmd res n s = record {
  kept = Grown-refl Same s.results (λ r. refl);
  up = omega arith;
  posted = ([], refl);
  later = Grown-refl IsLater s.tournaments IsLater-refl;
  fair = λ h. h;
  ahead = Grown-refl IsAhead s.play.players IsAhead-refl;
}

apply-Advances :
    (h : Host) (slot : Slot) (ballot : Ballot) (cmd : Command) (s : State)
    → Advances s (apply h slot ballot cmd s).0
unfolding apply
apply-Advances h slot ballot cmd s =
    if_ind (AdvancesTo s) (leb slot s.applied) (λ e. Advances-refl s)
      (λ new.
        let s1 = advanced slot cmd s in
        let (s2, res) = execute h slot ballot cmd s1 in
        let n = length s.book.postings in
        Advances-trans s s2 (mix h slot cmd res n s2)
          (Advances-trans s s1 s2 (advanced-Advances slot cmd s new)
            (execute-Advances h slot ballot cmd s1))
          (mix-Advances h slot cmd res n s2))

-- Apply leaves no slot at or below its own open.
pub apply-applied :
    (h : Host) (slot : Slot) (ballot : Ballot) (cmd : Command) (s : State)
    → slot ≤ (apply h slot ballot cmd s).0.applied
unfolding apply mix advanced
apply-applied h slot ballot cmd s =
    if_ind {A = State × Result} (λ r. slot ≤ r.0.applied) (leb slot s.applied) (λ e. ground arith)
      (λ new. (execute-Advances h slot ballot cmd (advanced slot cmd s)).up)

skip-Advances : (h : Host) (slot : Slot) (s : State) → Advances s (skip h slot s)
unfolding skip post_all
skip-Advances h slot s =
    if_ind (Advances s) (leb slot s.applied) (λ e. Advances-refl s)
      (λ new. record {
        kept = Grown-refl Same s.results (λ r. refl);
        up = ground arith;
        posted = ([], refl);
        later = Grown-refl IsLater s.tournaments IsLater-refl;
        fair = λ h. h;
        ahead = Grown-refl IsAhead s.play.players IsAhead-refl;
      })

pub apply_all-Advances : (h : Host) (cs : List Chosen) (s : State) → Advances s (apply_all h cs s)
unfolding apply_all
apply_all-Advances h [] s = Advances-refl s
apply_all-Advances h (Chosen.chosen_command slot ballot cmd ∷ cs) s =
    let s' = (apply h slot ballot cmd s).0 in
    Advances-trans s s' (apply_all h cs s') (apply-Advances h slot ballot cmd s)
      (apply_all-Advances h cs s')
apply_all-Advances h (Chosen.chosen_skip slot ∷ cs) s =
    let s' = skip h slot s in
    Advances-trans s s' (apply_all h cs s') (skip-Advances h slot s) (apply_all-Advances h cs s')
