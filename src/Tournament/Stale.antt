-- ===== src/Tournament/Stale.antt =====
-- A sequence number that a player has consumed is refused in every later command.
use mathlib.Core.Path.{subst}
use paxos_arena.Prelude.{
  ℕ, ◌≤◌, ◌<◌, ◌≡◌, refl, sym, ap, ◌∙◌, inl, Bool, true, false, none, some, List, [], length, Text,
  find, leb, arith,
}
use paxos_arena.Paxos.{Slot, Ballot}
use paxos_arena.Tournament.{Tournament}
use paxos_arena.Tournament.Shapes.{valid_key}
use paxos_arena.Tournament.Commands.{Op, Command, Code, PlayOutcome, Result, play_result}
use paxos_arena.Tournament.State.{State, Host, PlayerState, begin_changes}
use paxos_arena.Tournament.Play.{
  sequenced_player, after_checks, after_sequenced, outcome_of, enter_checked, enter_play,
}
use paxos_arena.Tournament.Moves.{
  start_checked, start_round, move_checked, play_move, finish_checked, finish_command,
}
use paxos_arena.Tournament.Claims.{claim_checked, claim_payout}
use paxos_arena.Tournament.Apply.{
  is_known, fingerprint, run_op, recorded, execute, mix, advanced, apply, Chosen, apply_all,
}
use paxos_arena.Tournament.Playing.{sequenced-known}
use paxos_arena.Tournament.Runs.{apply_all-Advances}
use paxos_arena.Tournament.Retries.{IsUntouched, find-apply, execute_new, apply_open}

-- The commands that carry a sequence number, with their player.
abbrev pub is_sequenced : Op → Bool
is_sequenced (Op.enter_tournament o) = true
is_sequenced (Op.start_round o) = true
is_sequenced (Op.play_move o) = true
is_sequenced (Op.finish_round o) = true
is_sequenced (Op.claim_payout o) = true
is_sequenced _ = false

abbrev pub player_of : Op → Text
player_of (Op.enter_tournament o) = o.player
player_of (Op.start_round o) = o.player
player_of (Op.play_move o) = o.player
player_of (Op.finish_round o) = o.player
player_of (Op.claim_payout o) = o.player
player_of _ = []

abbrev pub seq_of : Op → ℕ
seq_of (Op.enter_tournament o) = o.seq
seq_of (Op.start_round o) = o.seq
seq_of (Op.play_move o) = o.seq
seq_of (Op.finish_round o) = o.seq
seq_of (Op.claim_payout o) = o.seq
seq_of _ = 0

abbrev stale_answer : Text → PlayerState → Result
stale_answer pid ps = play_result Code.stale_seq (outcome_of pid ps)

after_sequenced_stale :
    (pid : Text) (seq : ℕ) (tid : Text) (run : PlayerState → Tournament → State → State × Result)
    (ps : PlayerState) (s : State)
    → find pid s.play.players ≡ some ps
    → seq ≤ ps.last_seq
    → after_sequenced pid seq tid run s ≡ (s, stale_answer pid ps)
unfolding after_sequenced after_checks sequenced_player
after_sequenced_stale pid seq tid run ps s there old =
    let e : leb seq ps.last_seq ≡ true = ground arith in
    let refusal : sequenced_player pid seq tid ps s ≡ (s, inl (stale_answer pid ps)) =
      rw (e, sequenced_player) refl in
    ap (λ r. after_checks run r.0 r.1) (sequenced-known pid seq tid ps s there ∙ refusal)

run_op_stale :
    (h : Host) (slot : Slot) (ballot : Ballot) (at : ℕ) (op : Op) (ps : PlayerState) (s : State)
    → is_sequenced op ≡ true
    → find (player_of op) s.play.players ≡ some ps
    → seq_of op ≤ ps.last_seq
    → run_op h slot ballot at op s ≡ (s, stale_answer (player_of op) ps)
unfolding run_op enter_play start_round play_move finish_command claim_payout
run_op_stale h slot ballot at (Op.enter_tournament o) ps s carries there old =
    after_sequenced_stale o.player o.seq o.tournament (enter_checked slot ballot o) ps s there old
run_op_stale h slot ballot at (Op.start_round o) ps s carries there old =
    after_sequenced_stale o.player o.seq o.tournament (start_checked slot o) ps s there old
run_op_stale h slot ballot at (Op.play_move o) ps s carries there old =
    after_sequenced_stale o.player o.seq o.tournament (move_checked h slot o) ps s there old
run_op_stale h slot ballot at (Op.finish_round o) ps s carries there old =
    after_sequenced_stale o.player o.seq o.tournament (finish_checked h slot o) ps s there old
run_op_stale h slot ballot at (Op.claim_payout o) ps s carries there old =
    after_sequenced_stale o.player o.seq o.tournament (claim_checked slot ballot o) ps s there old
run_op_stale h slot ballot at (Op.create_tournament o) ps s carries there old = cc
run_op_stale h slot ballot at (Op.join_tournament o) ps s carries there old = cc
run_op_stale h slot ballot at (Op.submit_score o) ps s carries there old = cc
run_op_stale h slot ballot at (Op.close_tournament o) ps s carries there old = cc
run_op_stale h slot ballot at (Op.settle_tournament o) ps s carries there old = cc
run_op_stale h slot ballot at (Op.open_session o) ps s carries there old = cc
run_op_stale h slot ballot at Op.no_op ps s carries there old = cc

sequenced-known_op : (op : Op) → is_sequenced op ≡ true → is_known op ≡ true
sequenced-known_op (Op.enter_tournament o) h = refl
sequenced-known_op (Op.start_round o) h = refl
sequenced-known_op (Op.play_move o) h = refl
sequenced-known_op (Op.finish_round o) h = refl
sequenced-known_op (Op.claim_payout o) h = refl
sequenced-known_op (Op.create_tournament o) h = refl
sequenced-known_op (Op.join_tournament o) h = refl
sequenced-known_op (Op.submit_score o) h = refl
sequenced-known_op (Op.close_tournament o) h = refl
sequenced-known_op (Op.settle_tournament o) h = refl
sequenced-known_op (Op.open_session o) h = refl
sequenced-known_op Op.no_op h = cc

-- A refusal as stale, in which nothing moved but the results table and the figures of Apply.
abbrev pub IsStale : Slot → State → State × Result → Type 0
IsStale slot s (s', res) =
    ((out : PlayOutcome) × (res ≡ record (play_result Code.stale_seq out) { slot = slot }))
    × IsUntouched s (record s' { results = s.results })

recorded-IsStale :
    (h : Host) (slot : Slot) (cmd : Command) (fp : Text) (n : ℕ) (out : PlayOutcome) (s : State)
    → let (s', res) =
        recorded slot cmd.key fp (advanced slot cmd s, play_result Code.stale_seq out) in
      IsStale slot s (mix h slot cmd res n s', res)
unfolding recorded mix advanced begin_changes
recorded-IsStale h slot cmd fp n out s = (
  (out, refl),
  record {
    tournaments_same = refl;
    order_same = refl;
    results_same = refl;
    book_same = refl;
    mutations_same = refl;
    bindings_same = refl;
    players_same = refl;
    rounds_same = refl;
    events_same = refl;
  },
)

apply-IsStale :
    (h : Host) (slot : Slot) (ballot : Ballot) (cmd : Command) (ps : PlayerState) (s : State)
    → s.applied < slot
    → valid_key cmd.key ≡ true
    → find cmd.key s.results ≡ none
    → is_sequenced cmd.op ≡ true
    → find (player_of cmd.op) s.play.players ≡ some ps
    → seq_of cmd.op ≤ ps.last_seq
    → IsStale slot s (apply h slot ballot cmd s)
unfolding advanced begin_changes
apply-IsStale h slot ballot cmd ps s later fine new carries there old =
    let s1 = advanced slot cmd s in
    let out = outcome_of (player_of cmd.op) ps in
    let n = length s.book.postings in
    let ran : execute h slot ballot cmd s1
        ≡ recorded slot cmd.key (fingerprint h cmd) (s1, play_result Code.stale_seq out) =
      execute_new h slot ballot cmd s1 fine (sequenced-known_op cmd.op carries) new
      ∙ ap (recorded slot cmd.key (fingerprint h cmd))
          (run_op_stale h slot ballot cmd.received_at cmd.op ps s1 carries there old) in
    subst (IsStale slot s)
      (sym (apply_open h slot ballot cmd s later ∙ ap (λ q. (mix h slot cmd q.1 n q.0, q.1)) ran))
      (recorded-IsStale h slot cmd (fingerprint h cmd) n out s)

-- A player has consumed a sequence number. After any run, a sequenced command of that player with
-- this number or a lower one, whose well-formed key is not recorded, in a slot above the applied
-- one, is refused as stale: the refusal is recorded under its key, and no tournament, posting,
-- binding, player, round or event changes.
pub apply_all-IsStale :
    (h : Host) (cs : List Chosen) (s : State) (slot : Slot) (ballot : Ballot) (cmd : Command)
    (ps : PlayerState)
    → is_sequenced cmd.op ≡ true
    → find (player_of cmd.op) s.play.players ≡ some ps
    → seq_of cmd.op ≤ ps.last_seq
    → valid_key cmd.key ≡ true
    → (apply_all h cs s).applied < slot
    → find cmd.key (apply_all h cs s).results ≡ none
    → let s1 = apply_all h cs s in
      let r = apply h slot ballot cmd s1 in
      IsStale slot s1 r
      × (find cmd.key r.0.results ≡ some (record { fingerprint = fingerprint h cmd; result = r.1 }))
apply_all-IsStale h cs s slot ballot cmd ps carries there old fine later new =
    let s1 = apply_all h cs s in
    let (ps', found, up) = (apply_all-Advances h cs s).ahead (player_of cmd.op) ps there in
    (
      apply-IsStale h slot ballot cmd ps' s1 later fine new carries found
          (omega (arith, up.seq_grown, old)),
      find-apply h slot ballot cmd s1 later fine (sequenced-known_op cmd.op carries) new,
    )
