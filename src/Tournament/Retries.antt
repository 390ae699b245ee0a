-- ===== src/Tournament/Retries.antt =====
-- A command that is given again gets its first answer.
use mathlib.Core.Path.{subst}
use paxos_arena.Prelude.{
  Option-cases, Bool-cases, inr, ℕ, ◌<◌, ◌≡◌, refl, sym, ap, ◌∙◌, inl, true, false, none, some,
  List, length, Text, same_text, same_text_refl, eq_of_same_text, find, find-put_same, leb, arith,
}
use paxos_arena.Paxos.{Slot, Ballot}
use paxos_arena.Tournament.Shapes.{valid_key}
use paxos_arena.Tournament.Commands.{Command, Code, Result, plain_result}
use paxos_arena.Tournament.State.{State, Host, Recorded, begin_changes}
use paxos_arena.Tournament.Apply.{
  replay, is_known, at_slot, fingerprint, run_op, recorded, execute, mix, advanced, apply, Chosen,
  apply_all,
}
use paxos_arena.Tournament.Runs.{apply_all-Advances}

-- What Apply does with a command whose key is recorded with the same fingerprint.
execute_recorded :
    (h : Host) (slot : Slot) (ballot : Ballot) (cmd : Command) (s : State) (r : Recorded)
    → valid_key cmd.key ≡ true
    → find cmd.key s.results ≡ some r
    → r.fingerprint ≡ fingerprint h cmd
    → execute h slot ballot cmd s ≡ (s, record r.result { replayed = true })
unfolding execute
execute_recorded h slot ballot cmd s r fine there same =
    let match : same_text r.fingerprint (fingerprint h cmd) ≡ true =
      rw same (same_text_refl (fingerprint h cmd)) in
    rw (fine, execute) (rw there (rw match refl))

find-recorded :
    (slot : Slot) (key fp : Text) (r : State × Result)
    → find key (recorded slot key fp r).0.results
      ≡ some (record { fingerprint = fp; result = (recorded slot key fp r).1 })
unfolding recorded
find-recorded slot key fp (s, r) = find-put_same key _ s.results

pub execute_new :
    (h : Host) (slot : Slot) (ballot : Ballot) (cmd : Command) (s : State)
    → valid_key cmd.key ≡ true
    → is_known cmd.op ≡ true
    → find cmd.key s.results ≡ none
    → execute h slot ballot cmd s
      ≡ recorded slot cmd.key (fingerprint h cmd) (run_op h slot ballot cmd.received_at cmd.op s)
unfolding execute
execute_new h slot ballot cmd s fine known new = rw (fine, execute) (rw new (rw known refl))

pub apply_open :
    (h : Host) (slot : Slot) (ballot : Ballot) (cmd : Command) (s : State)
    → s.applied < slot
    → let (s', res) = execute h slot ballot cmd (advanced slot cmd s) in
      apply h slot ballot cmd s ≡ (mix h slot cmd res (length s.book.postings) s', res)
unfolding apply
apply_open h slot ballot cmd s later =
    let e : leb slot s.applied ≡ false = ground arith in rw (e, apply) refl

-- The row that Apply leaves for a command whose key is new.
pub find-apply :
    (h : Host) (slot : Slot) (ballot : Ballot) (cmd : Command) (s : State)
    → s.applied < slot
    → valid_key cmd.key ≡ true
    → is_known cmd.op ≡ true
    → find cmd.key s.results ≡ none
    → find cmd.key (apply h slot ballot cmd s).0.results
      ≡ some (record { fingerprint = fingerprint h cmd; result = (apply h slot ballot cmd s).1 })
unfolding mix advanced
find-apply h slot ballot cmd s later fine known new =
    let s1 = advanced slot cmd s in
    let made = run_op h slot ballot cmd.received_at cmd.op s1 in
    let P : State × Result → Type 0 = λ r.
      find cmd.key r.0.results ≡ some (record { fingerprint = fingerprint h cmd; result = r.1 }) in
    let ran : P (execute h slot ballot cmd s1) =
      subst P (sym (execute_new h slot ballot cmd s1 fine known new))
        (find-recorded slot cmd.key (fingerprint h cmd) made) in
    subst P (sym (apply_open h slot ballot cmd s later)) ran

-- What a command that is not run leaves as it was: everything but the applied slot, the count of
-- commands, the clock, the hash and the marks of changes.
pub record IsUntouched (s s' : State) : Type 0 where
  pub tournaments_same : s'.tournaments ≡ s.tournaments
  pub order_same : s'.order ≡ s.order
  pub results_same : s'.results ≡ s.results
  pub book_same : s'.book ≡ s.book
  pub mutations_same : s'.mutations ≡ s.mutations
  pub bindings_same : s'.play.bindings ≡ s.play.bindings
  pub players_same : s'.play.players ≡ s.play.players
  pub rounds_same : s'.play.rounds ≡ s.play.rounds
  pub events_same : s'.play.events ≡ s.play.events

mix-advanced-IsUntouched :
    (h : Host) (slot : Slot) (cmd : Command) (res : Result) (n : ℕ) (s : State)
    → IsUntouched s (mix h slot cmd res n (advanced slot cmd s))
unfolding mix advanced begin_changes
mix-advanced-IsUntouched h slot cmd res n s = record {
  tournaments_same = refl;
  order_same = refl;
  results_same = refl;
  book_same = refl;
  mutations_same = refl;
  bindings_same = refl;
  players_same = refl;
  rounds_same = refl;
  events_same = refl;
}

apply_recorded :
    (h : Host) (slot : Slot) (ballot : Ballot) (cmd : Command) (s : State) (r : Recorded)
    → s.applied < slot
    → valid_key cmd.key ≡ true
    → find cmd.key s.results ≡ some r
    → r.fingerprint ≡ fingerprint h cmd
    → let (s', res) = apply h slot ballot cmd s in
      (res ≡ record r.result { replayed = true }) × IsUntouched s s'
unfolding advanced
apply_recorded h slot ballot cmd s r later fine there same =
    let s1 = advanced slot cmd s in
    let n = length s.book.postings in
    let answer = record r.result { replayed = true } in
    let P : State × Result → Type 0 = λ q. (q.1 ≡ answer) × IsUntouched s q.0 in
    let ran = execute_recorded h slot ballot cmd s1 r fine there same in
    subst P
      (sym (apply_open h slot ballot cmd s later ∙ ap (λ q. (mix h slot cmd q.1 n q.0, q.1)) ran))
      (refl, mix-advanced-IsUntouched h slot cmd answer n s)

-- A command of a known operation, with a well-formed key that is not yet recorded, is applied in a
-- slot above the applied one. After any run, a command with the same key and fingerprint, applied in a slot that is above
-- the applied one again, gets the first result, marked as replayed, and changes no tournament, no
-- posting, no recorded result and no play record.
pub apply_retry :
    (h : Host) (s : State) (slot : Slot) (ballot : Ballot) (cmd : Command) (cs : List Chosen)
    (slot' : Slot) (ballot' : Ballot) (cmd' : Command)
    → s.applied < slot
    → valid_key cmd.key ≡ true
    → is_known cmd.op ≡ true
    → find cmd.key s.results ≡ none
    → cmd'.key ≡ cmd.key
    → fingerprint h cmd' ≡ fingerprint h cmd
    → (apply_all h cs (apply h slot ballot cmd s).0).applied < slot'
    → let s1 = apply_all h cs (apply h slot ballot cmd s).0 in
      let (s2, res) = apply h slot' ballot' cmd' s1 in
      (res ≡ record (apply h slot ballot cmd s).1 { replayed = true }) × IsUntouched s1 s2
apply_retry h s slot ballot cmd cs slot' ballot' cmd' later fine known new same_key same_print
      above =
    let s0 = (apply h slot ballot cmd s).0 in
    let s1 = apply_all h cs s0 in
    let row : Recorded = record {
      fingerprint = fingerprint h cmd;
      result = (apply h slot ballot cmd s).1;
    } in
    let first = find-apply h slot ballot cmd s later fine known new in
    let (r, found, same) = (apply_all-Advances h cs s0).kept cmd.key row first in
    let there : find cmd'.key s1.results ≡ some row =
      ap (λ k. find k s1.results) same_key ∙ found ∙ ap some same in
    apply_recorded h slot' ballot' cmd' s1 row above (ap valid_key same_key ∙ fine) there
      (sym same_print)

execute_reused :
    (h : Host) (slot : Slot) (ballot : Ballot) (cmd : Command) (s : State) (r : Recorded)
    → valid_key cmd.key ≡ true
    → find cmd.key s.results ≡ some r
    → same_text r.fingerprint (fingerprint h cmd) ≡ false
    → execute h slot ballot cmd s ≡ (s, at_slot slot Code.key_reused)
unfolding execute
execute_reused h slot ballot cmd s r fine there other =
    rw (fine, execute) (rw there (rw other refl))

answer_of :
    (a r : Result) (p : State × Result)
    → some a ≡ some r
    → p.1 ≡ record a { slot = p.1.slot }
    → p.1 ≡ record r { slot = p.1.slot }
answer_of a r p e h =
    let same : a ≡ r = cc in subst (λ x. p.1 ≡ record x { slot = p.1.slot }) same h

replay-execute :
    (h : Host) (slot : Slot) (ballot : Ballot) (cmd : Command) (s u : State) (r : Result)
    → u.results ≡ s.results
    → valid_key cmd.key ≡ true
    → replay h cmd s ≡ some r
    → (execute h slot ballot cmd u).1 ≡ record r { slot = (execute h slot ballot cmd u).1.slot }
unfolding replay
replay-execute h slot ballot cmd s u r alike fine given =
    elim (Option-cases (find cmd.key s.results)) [
      | inl new ↦
          let nothing : replay h cmd s ≡ none = rw (new, replay) refl in
          absurd (cc (sym nothing ∙ given))
      | inr (row, e) ↦
          let there : find cmd.key u.results ≡ some row = ap (find cmd.key) alike ∙ e in
          let P : State × Result → Type 0 = λ p. p.1 ≡ record r { slot = p.1.slot } in
          elim (Bool-cases (same_text row.fingerprint (fingerprint h cmd))) [
            | inl same ↦
                let a = record row.result { replayed = true } in
                let v : replay h cmd s ≡ some a = rw (e, replay) (rw same refl) in
                let ran =
                  execute_recorded h slot ballot cmd u row fine there
                    (eq_of_same_text row.fingerprint (fingerprint h cmd) same) in
                subst P (sym ran) (answer_of a r (u, a) (sym v ∙ given) refl)
            | inr other ↦
                let a = plain_result Code.key_reused in
                let v : replay h cmd s ≡ some a = rw (e, replay) (rw other refl) in
                let ran = execute_reused h slot ballot cmd u row fine there other in
                subst P (sym ran)
                  (answer_of a r (u, at_slot slot Code.key_reused) (sym v ∙ given) refl)
          ]
    ]

-- What Replay answers for a command with a well-formed key is what Apply answers in any slot above
-- the applied one, but for the slot of the answer.
pub replay-apply :
    (h : Host) (slot : Slot) (ballot : Ballot) (cmd : Command) (s : State) (r : Result)
    → s.applied < slot
    → valid_key cmd.key ≡ true
    → replay h cmd s ≡ some r
    → (apply h slot ballot cmd s).1 ≡ record r { slot = (apply h slot ballot cmd s).1.slot }
unfolding advanced
replay-apply h slot ballot cmd s r later fine given =
    let P : State × Result → Type 0 = λ p. p.1 ≡ record r { slot = p.1.slot } in
    subst P (sym (apply_open h slot ballot cmd s later))
      (replay-execute h slot ballot cmd s (advanced slot cmd s) r refl fine given)
