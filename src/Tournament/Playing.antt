-- ===== src/Tournament/Playing.antt =====
-- Each handler of internal/tournament/play_state.go lets the state evolve.
use mathlib.Core.Path.{subst}
use paxos_arena.Prelude.{
  ℕ, ◌≤◌, ◌≡◌, refl, sym, ap, ◌⊎◌, inl, inr, false, not, ◌||◌, Option, none, some, [], ◌∷◌, ◌++◌,
  if_ind, Bool-cases, Option-cases, Text, same_text, find, put, has, Grown, Grown-refl, Grown-new,
  find-put_same, ltb, leb, arith,
}
use paxos_arena.Paxos.{Slot, Ballot}
use paxos_arena.Ledger.Book.{Book, post_all}
use paxos_arena.Tournament.{Player, Tournament}
use paxos_arena.Tournament.Shapes.{valid_player}
use paxos_arena.Tournament.Commands.{
  OpenSession, Enter, Code, Result, is_ok, play_result, no_outcome, zero_bytes,
}
use paxos_arena.Tournament.State.{
  State, PlayerState, PlayState, touch_player, save_player, save_tournament, with_play, with_book,
}
use paxos_arena.Tournament.Entries.{admit}
use paxos_arena.Tournament.Play.{
  valid_lower_hex, device_id_len, new_binding, new_player, add_binding, bind_device, open_session,
  next_seq_of, consume, play_tournament, sequenced_player, sequenced, after_checks, after_sequenced,
  enter_checked, enter_play,
}
use paxos_arena.Tournament.Growth.{
  IsLater, IsLater-refl, IsAhead, IsAhead-refl, Evolves, Evolves-refl, Evolves-trans, Evolves-quiet,
  save_player-Evolves,
}
use paxos_arena.Tournament.Entering.{admit-IsEntering}
use paxos_arena.Tournament.Steps.{EvolvesTo, save_both-Evolves}

bound-Evolves :
    (f : PlayState → PlayState) (pid : Text) (p : PlayerState) (s : State)
    → has pid s.play.players ≡ false
    → (f s.play).players ≡ put pid p s.play.players
    → Evolves s (with_play f s)
unfolding post_all with_play
bound-Evolves f pid p s new e = record {
  results_kept = refl;
  applied_kept = refl;
  posted = ([], refl);
  later = Grown-refl IsLater s.tournaments IsLater-refl;
  fair = λ h. h;
  ahead =
      subst (Grown IsAhead s.play.players) (sym e)
        (Grown-new IsAhead pid p s.play.players IsAhead-refl new);
}

bind_device-Evolves :
    (slot : Slot) (at : ℕ) (op : OpenSession) (s : State) → Evolves s (bind_device slot at op s).0
unfolding bind_device new_binding add_binding touch_player
bind_device-Evolves slot at op s =
    if_ind (EvolvesTo s)
      (not (valid_player (record { id = op.player; jurisdiction = op.jurisdiction; age = op.age })))
      (λ e. Evolves-refl s)
      (λ e.
        if_ind (EvolvesTo s) (has op.player s.play.players) (λ d. Evolves-refl s)
          (λ new.
            let b = new_binding slot op in
            bound-Evolves (add_binding b) op.player (new_player b) s new refl))

pub open_session-Evolves :
    (slot : Slot) (at : ℕ) (op : OpenSession) (s : State) → Evolves s (open_session slot at op s).0
unfolding open_session
open_session-Evolves slot at op s =
    if_ind (EvolvesTo s)
      (not (valid_lower_hex op.device device_id_len) || same_text op.verifier zero_bytes)
      (λ e. Evolves-refl s)
      (λ e. elim (Option-cases (find op.device s.play.bindings)) [
        | inl d ↦ rw d (bind_device-Evolves slot at op s)
        | inr (b, d) ↦ rw d (
            if_ind (EvolvesTo s) (not (same_text b.verifier op.verifier)) (λ c. Evolves-refl s)
              (λ c. Evolves-refl s))
      ])

-- A sequenced command evolves when what it does after the rules does.
abbrev pub HandlesPlayer :
    Text → Text → (PlayerState → Tournament → State → State × Result) → Type 0
HandlesPlayer pid tid run =
    (ps : PlayerState) (t : Tournament) (s : State)
    → find pid s.play.players ≡ some ps
    → find tid s.tournaments ≡ some t
    → Evolves s (run ps t s).0

with_play-Evolves :
    (f : PlayState → PlayState) (s : State)
    → (f s.play).players ≡ s.play.players
    → Evolves s (with_play f s)
unfolding with_play
with_play-Evolves f s e = Evolves-quiet s (with_play f s) (record {
  results_same = refl;
  applied_same = refl;
  book_same = refl;
  tournaments_same = refl;
  players_same = e;
})

consume-Evolves :
    (pid : Text) (seq : ℕ) (ps : PlayerState) (s : State)
    → find pid s.play.players ≡ some ps
    → ps.last_seq ≤ seq
    → Evolves s (consume pid (record ps { last_seq = seq }) s)
unfolding consume touch_player
consume-Evolves pid seq ps s there up =
    let ps' = record ps { last_seq = seq } in
    let saved = save_player pid ps' s in
    Evolves-trans s saved (with_play (touch_player pid) saved)
      (save_player-Evolves pid ps ps' s there (record { binding_kept = refl; seq_grown = up }))
      (with_play-Evolves (touch_player pid) saved refl)

find-consume :
    (pid : Text) (ps : PlayerState) (s : State) → find pid (consume pid ps s).play.players ≡ some ps
unfolding consume touch_player save_player with_play
find-consume pid ps s = find-put_same pid ps s.play.players

tournaments-consume :
    (pid : Text) (ps : PlayerState) (s : State) → (consume pid ps s).tournaments ≡ s.tournaments
unfolding consume touch_player save_player with_play
tournaments-consume pid ps s = refl

after_checks-Evolves :
    (pid tid : Text) (ps : PlayerState) (s : State)
    (run : PlayerState → Tournament → State → State × Result)
    → HandlesPlayer pid tid run
    → find pid s.play.players ≡ some ps
    → (o : Option Tournament) → find tid s.tournaments ≡ o
    → Evolves s (after_checks run s (play_tournament pid ps o)).0
unfolding after_checks play_tournament
after_checks-Evolves pid tid ps s run h there none found = Evolves-refl s
after_checks-Evolves pid tid ps s run h there (some t) found =
    elim (Bool-cases (same_text t.rules.game [])) [
      | inl e ↦ rw e (Evolves-refl s)
      | inr e ↦ rw e (h ps t s there found)
    ]

sequenced_player-Evolves :
    (pid : Text) (seq : ℕ) (tid : Text) (ps : PlayerState) (s : State)
    (run : PlayerState → Tournament → State → State × Result)
    → HandlesPlayer pid tid run
    → find pid s.play.players ≡ some ps
    → let (s', checked) = sequenced_player pid seq tid ps s in
      Evolves s (after_checks run s' checked).0
unfolding sequenced_player after_checks
sequenced_player-Evolves pid seq tid ps s run h there =
    let P : State × (Result ⊎ PlayerState × Tournament) → Type 0 =
      λ r. Evolves s (after_checks run r.0 r.1).0 in
    if_ind P (leb seq ps.last_seq) (λ e. Evolves-refl s)
      (λ up.
        if_ind P (ltb (next_seq_of ps) seq) (λ e. Evolves-refl s)
          (λ e.
            let ps' = record ps { last_seq = seq } in
            let s' = consume pid ps' s in
            let same = tournaments-consume pid ps' s in
            Evolves-trans s s'
              (after_checks run s' (play_tournament pid ps' (find tid s.tournaments))).0
              (consume-Evolves pid seq ps s there (ground arith))
              (after_checks-Evolves pid tid ps' s' run h (find-consume pid ps' s)
                (find tid s.tournaments) (ap (find tid) same))))

pub sequenced-known :
    (pid : Text) (seq : ℕ) (tid : Text) (ps : PlayerState) (s : State)
    → find pid s.play.players ≡ some ps
    → sequenced pid seq tid s ≡ sequenced_player pid seq tid ps s
unfolding sequenced
sequenced-known pid seq tid ps s e = rw (e, sequenced) refl

sequenced-unknown :
    (pid : Text) (seq : ℕ) (tid : Text) (s : State)
    → find pid s.play.players ≡ none
    → sequenced pid seq tid s
      ≡ (s, inl (play_result Code.unknown_player (record no_outcome { player = pid })))
unfolding sequenced
sequenced-unknown pid seq tid s e = rw (e, sequenced) refl

pub after_sequenced-Evolves :
    (pid : Text) (seq : ℕ) (tid : Text) (s : State)
    (run : PlayerState → Tournament → State → State × Result)
    → HandlesPlayer pid tid run
    → Evolves s (after_sequenced pid seq tid run s).0
unfolding after_sequenced sequenced after_checks
after_sequenced-Evolves pid seq tid s run h =
    let P : State × (Result ⊎ PlayerState × Tournament) → Type 0 =
      λ r. Evolves s (after_checks run r.0 r.1).0 in
    elim (Option-cases (find pid s.play.players)) [
      | inl e ↦ subst P (sym (sequenced-unknown pid seq tid s e)) (Evolves-refl s)
      | inr (ps, e) ↦
          subst P (sym (sequenced-known pid seq tid ps s e))
            (sequenced_player-Evolves pid seq tid ps s run h e)
    ]

enter_checked-handles :
    (slot : Slot) (ballot : Ballot) (op : Enter)
    → HandlesPlayer op.player op.tournament (enter_checked slot ballot op)
unfolding enter_checked
enter_checked-handles slot ballot op ps t s there found =
    let player : Player = record {
      id = op.player;
      jurisdiction = ps.binding.jurisdiction;
      age = ps.binding.age;
    } in
    let a = admit-IsEntering slot ballot t player s.book in
    let (book, t', c) = admit slot ballot t player s.book in
    let s' = save_tournament op.tournament t' (with_book book s) in
    let ps' = record ps { entered = ps.entered ++ t.id ∷ [] } in
    let entered = save_both-Evolves op.tournament t t' book s found a.later a.posted in
    if_ind (EvolvesTo s) (is_ok c)
      (λ e. Evolves-trans s s' (save_player op.player ps' s') entered (
        save_player-Evolves op.player ps ps' s' (kept t' book)
          (record { binding_kept = refl; seq_grown = omega arith })))
      (λ e. entered)
  where
    kept :
        (t' : Tournament) (book : Book)
        → find op.player (save_tournament op.tournament t' (with_book book s)).play.players
          ≡ some ps
    kept t' book = there

pub enter_play-Evolves :
    (slot : Slot) (ballot : Ballot) (op : Enter) (s : State)
    → Evolves s (enter_play slot ballot op s).0
unfolding enter_play
enter_play-Evolves slot ballot op s =
    after_sequenced-Evolves op.player op.seq op.tournament s (enter_checked slot ballot op)
      (enter_checked-handles slot ballot op)
