-- ===== src/Tournament/Quiet.antt =====
-- Recording events, finishing rounds and scoring entries leave the rest of the state alone.
use mathlib.Core.Path.{subst}
use mathlib.Core.List.{append-nil}
use paxos_arena.Prelude.{
  ℕ, zero, suc, ◌%◌, ◌^◌, ◌≡◌, refl, sym, ap, ◌∙◌, inl, inr, Bool, true, false, not, ◌&&◌, ◌||◌,
  Option, none, some, List, [], ◌∷◌, length, map, if◌then◌else◌, if_ind, Option-cases, Text,
  same_text, find, ltb, ◌==◌, arith,
}
use paxos_arena.Paxos.{Slot}
use paxos_arena.Game.{Board, FinishReason, rounds}
use paxos_arena.Tournament.{Status, Entry, Tournament, entry_of, count_scored}
use paxos_arena.Tournament.State.{
  State, Host, PlayState, EventRecord, RoundRecord, RoundKey, find_round, is_done, save_round,
  touch_round, with_play, keep_round,
}
use paxos_arena.Tournament.Events.{
  add_event, told_at, board_event, status_event, mark_board, round_numbers, record_event,
  record_leaderboard, record_status, progress,
}
use paxos_arena.Tournament.Entries.{is_open, has_entry, change_at, entry_at, fix_score}
use paxos_arena.Tournament.Rounds.{
  score_entry, score_event, score_third_round, board_of, finished_record, round_event, tell_board,
  expired_or, finish_round, close_entry, close_entries, score_dealt, close_rounds,
}
use paxos_arena.Tournament.Growth.{
  entrants, Distinct, IsLater, IsLater-refl, IsLater-trans, is_final, IsQuiet, IsQuiet-refl,
  IsQuiet-trans,
}

with_play-IsQuiet :
    (f : PlayState → PlayState) (s : State)
    → (f s.play).players ≡ s.play.players
    → IsQuiet s (with_play f s)
unfolding with_play
with_play-IsQuiet f s e = record {
  results_same = refl;
  applied_same = refl;
  book_same = refl;
  tournaments_same = refl;
  players_same = e;
}

players-add_event : (ev : EventRecord) (p : PlayState) → (add_event ev p).players ≡ p.players
unfolding add_event
players-add_event ev p =
    if_ind {A = PlayState} (λ q. q.players ≡ p.players) (same_text ev.player []) (λ e. refl)
      (λ e. refl)

pub record_event-IsQuiet : (ev : EventRecord) (s : State) → IsQuiet s (record_event ev s)
unfolding record_event
record_event-IsQuiet ev s =
    with_play-IsQuiet (add_event (record ev { time_ms = s.clock })) s
      (players-add_event (record ev { time_ms = s.clock }) s.play)

record_leaderboard-IsQuiet :
    (slot : Slot) (tid : Text) (s : State) → IsQuiet s (record_leaderboard slot tid s)
unfolding record_leaderboard
record_leaderboard-IsQuiet slot tid s =
    let marked = with_play (mark_board slot tid) s in
    if_ind (IsQuiet s) (told_at slot (find tid s.play.board_at)) (λ e. IsQuiet-refl s)
      (λ e.
        IsQuiet-trans s marked (record_event (board_event slot tid) marked)
          (with_play-IsQuiet (mark_board slot tid) s refl)
          (record_event-IsQuiet (board_event slot tid) marked))

pub record_status-IsQuiet :
    (slot : Slot) (t : Tournament) (s : State) → IsQuiet s (record_status slot t s)
unfolding record_status
record_status-IsQuiet slot t s =
    let told = record_event (status_event slot t) s in
    IsQuiet-trans s told (record_leaderboard slot t.id told)
      (record_event-IsQuiet (status_event slot t) s) (record_leaderboard-IsQuiet slot t.id told)

pub keep_round-IsQuiet : (rec : RoundRecord) (s : State) → IsQuiet s (keep_round rec s)
unfolding keep_round save_round touch_round with_play
keep_round-IsQuiet rec s = record {
  results_same = refl;
  applied_same = refl;
  book_same = refl;
  tournaments_same = refl;
  players_same = refl;
}

tell_board-IsQuiet :
    (slot : Slot) (closing : Bool) (tid : Text) (s : State)
    → IsQuiet s (tell_board slot closing tid s)
unfolding tell_board
tell_board-IsQuiet slot true tid s = IsQuiet-refl s
tell_board-IsQuiet slot false tid s = record_leaderboard-IsQuiet slot tid s

pub has_entry-cons :
    (id : Text) (e : Entry) (es : List Entry)
    → has_entry id (e ∷ es) ≡ (same_text e.player.id id || has_entry id es)
unfolding entry_of
has_entry-cons id e es = go (same_text e.player.id id)
  where
    go :
        (b : Bool)
        → (elim (if b then some e else entry_of id es) as (λ o. Bool) [
          | none ↦ false
          | some d ↦ true
        ])
          ≡ (b || has_entry id es)
    go true = refl
    go false = refl

-- A change to one entry that keeps its player.
has_entry-change_at :
    (id : Text) (i : ℕ) (f : Entry → Entry) (es : List Entry)
    → ((e : Entry) → (f e).player ≡ e.player)
    → has_entry id (change_at i f es) ≡ has_entry id es
unfolding change_at
has_entry-change_at id i f [] keep = refl
has_entry-change_at id zero f (e ∷ es) keep =
    has_entry-cons id (f e) es
    ∙ ap (λ p. same_text p.id id || has_entry id es) (keep e)
    ∙ sym (has_entry-cons id e es)
has_entry-change_at id (suc i) f (e ∷ es) keep =
    has_entry-cons id e (change_at i f es)
    ∙ ap (λ b. same_text e.player.id id || b) (has_entry-change_at id i f es keep)
    ∙ sym (has_entry-cons id e es)

Distinct-change_at :
    (i : ℕ) (f : Entry → Entry) (es : List Entry)
    → ((e : Entry) → (f e).player ≡ e.player)
    → Distinct es
    → Distinct (change_at i f es)
unfolding change_at
Distinct-change_at i f [] keep h = tt
Distinct-change_at zero f (e ∷ es) keep h =
    (subst (λ p. has_entry p.id es ≡ false) (sym (keep e)) h.0, h.1)
Distinct-change_at (suc i) f (e ∷ es) keep h =
    (has_entry-change_at e.player.id i f es keep ∙ h.0, Distinct-change_at i f es keep h.1)

length-change_at :
    (i : ℕ) (f : Entry → Entry) (es : List Entry) → length (change_at i f es) ≡ length es
unfolding change_at
length-change_at i f [] = refl
length-change_at zero f (e ∷ es) = refl
length-change_at (suc i) f (e ∷ es) = ap suc (length-change_at i f es)

entrants-change_at :
    (i : ℕ) (f : Entry → Entry) (es : List Entry)
    → ((e : Entry) → (f e).player ≡ e.player)
    → map (λ e. e.player) (change_at i f es) ≡ map (λ e. e.player) es
unfolding change_at
entrants-change_at i f [] keep = refl
entrants-change_at zero f (e ∷ es) keep = ap (λ p. p ∷ map (λ d. d.player) es) (keep e)
entrants-change_at (suc i) f (e ∷ es) keep =
    ap (λ ps. e.player ∷ ps) (entrants-change_at i f es keep)

pub open-not_final : (x : Status) → is_open x ≡ true → is_final x ≡ true → ⊥
open-not_final Status.opened a b = cc
open-not_final Status.closed a b = cc
open-not_final Status.voided a b = cc
open-not_final Status.settled a b = cc

pub change_at-IsLater :
    (i : ℕ) (f : Entry → Entry) (t : Tournament)
    → ((e : Entry) → (f e).player ≡ e.player)
    → is_open t.status ≡ true
    → IsLater t (record t { entries = change_at i f t.entries })
change_at-IsLater i f t keep live = record {
  id_kept = refl;
  seed_kept = refl;
  rules_kept = refl;
  no_reopening = λ h. h;
  frozen = λ h. absurd (open-not_final t.status live h);
  entrants_kept = ([], entrants-change_at i f t.entries keep ∙ sym (append-nil (entrants t)));
  fair_kept = λ h. record {
    bounded = omega (arith, length-change_at i f t.entries, h.bounded);
    small = h.small;
    distinct = Distinct-change_at i f t.entries keep h.distinct;
  };
}

pub fix_score-IsLater :
    (i score : ℕ) (t : Tournament) → is_open t.status ≡ true → IsLater t (fix_score i score t)
unfolding fix_score
fix_score-IsLater i score t live =
    let f : Entry → Entry = λ e. record e { scored = true; score = score } in
    let t1 = record t { entries = change_at i f t.entries } in
    let n = count_scored t1.entries % 2 ^ 32 in
    let g : Entry → Entry = λ e. record e { submit_seq = n } in
    IsLater-trans t t1 (record t1 { entries = change_at i g t1.entries })
      (change_at-IsLater i f t (λ e. refl) live) (change_at-IsLater i g t1 (λ e. refl) live)

-- A step that is quiet on the state and takes the tournament on, leaving its status.
pub record Keeps (s : State) (t : Tournament) (r : State × Tournament) : Type 0 where
  pub quiet : IsQuiet s r.0
  pub later : IsLater t r.1
  pub status_same : r.1.status ≡ t.status

pub Keeps-refl : (s : State) (t : Tournament) → Keeps s t (s, t)
Keeps-refl s t = record { quiet = IsQuiet-refl s; later = IsLater-refl t; status_same = refl }

Keeps-trans :
    (s : State) (t : Tournament) (r q : State × Tournament)
    → Keeps s t r
    → Keeps r.0 r.1 q
    → Keeps s t q
Keeps-trans s t r q f g = record {
  quiet = IsQuiet-trans s r.0 q.0 f.quiet g.quiet;
  later = IsLater-trans t r.1 q.1 f.later g.later;
  status_same = g.status_same ∙ f.status_same;
}

still_open :
    (s : State) (t : Tournament) (r : State × Tournament)
    → Keeps s t r
    → is_open t.status ≡ true
    → is_open r.1.status ≡ true
still_open s t r k live = ap is_open k.status_same ∙ live

score_entry-Keeps :
    (slot : Slot) (i : ℕ) (pid : Text) (s : State) (t : Tournament)
    → is_open t.status ≡ true
    → Keeps s t (score_entry slot i pid s t)
unfolding score_entry fix_score
score_entry-Keeps slot i pid s t live = record {
  quiet = record_event-IsQuiet (score_event slot pid s t) s;
  later = fix_score-IsLater i (progress s t.id pid).total t live;
  status_same = refl;
}

score_third_round-Keeps :
    (slot : Slot) (i : ℕ) (rec : RoundRecord) (s : State) (t : Tournament)
    → is_open t.status ≡ true
    → Keeps s t (score_third_round slot i rec s t)
unfolding score_third_round
score_third_round-Keeps slot i rec s t live = elim (Option-cases (entry_at i t.entries)) [
  | inl e ↦ rw (e, score_third_round) (Keeps-refl s t)
  | inr (d, e) ↦
      rw (e, score_third_round)
        (if_ind (Keeps s t) (rec.round == rounds && not d.scored)
          (λ q. score_entry-Keeps slot i d.player.id s t live) (λ q. Keeps-refl s t))
]

quiet-Keeps :
    (s s' : State) (t : Tournament) (r : State × Tournament)
    → IsQuiet s s'
    → Keeps s' t r
    → Keeps s t r
quiet-Keeps s s' t r q k = record {
  quiet = IsQuiet-trans s s' r.0 q k.quiet;
  later = k.later;
  status_same = k.status_same;
}

pub finish_round-Keeps :
    (h : Host) (slot : Slot) (i : ℕ) (rec : RoundRecord) (given : Option Board)
    (reason : FinishReason) (closing : Bool) (s : State) (t : Tournament)
    → is_open t.status ≡ true
    → Keeps s t (finish_round h slot i rec given reason closing s t)
unfolding finish_round
finish_round-Keeps h slot i rec given reason closing s t live =
    let rec' = finished_record slot (board_of h rec given) reason rec in
    let s1 = keep_round rec' s in
    let s2 = record_event (round_event slot rec' s1 t) s1 in
    let s3 = tell_board slot closing t.id s2 in
    let early =
      IsQuiet-trans s s1 s2 (keep_round-IsQuiet rec' s)
        (record_event-IsQuiet (round_event slot rec' s1 t) s1) in
    quiet-Keeps s s3 t (score_third_round slot i rec' s3 t)
      (IsQuiet-trans s s2 s3 early (tell_board-IsQuiet slot closing t.id s2))
      (score_third_round-Keeps slot i rec' s3 t live)

close_entry-Keeps :
    (h : Host) (slot : Slot) (i : ℕ) (pid : Text) (rs : List ℕ) (s : State) (t : Tournament)
    → is_open t.status ≡ true
    → Keeps s t (close_entry h slot i pid rs s t)
unfolding close_entry
close_entry-Keeps h slot i pid [] s t live = Keeps-refl s t
close_entry-Keeps h slot i pid (r ∷ rs) s t live =
    let key : RoundKey = record { tournament = t.id; player = pid; round = r } in
    let skipped = close_entry-Keeps h slot i pid rs s t live in
    elim (Option-cases (find_round key s.play.rounds)) [
      | inl e ↦ rw (e, close_entry) skipped
      | inr (rec, e) ↦
          let reason = expired_or FinishReason.closed rec s in
          let made = finish_round h slot i rec none reason true s t in
          let done = finish_round-Keeps h slot i rec none reason true s t live in
          let rest =
            close_entry-Keeps h slot i pid rs made.0 made.1 (still_open s t made done live) in
          rw (e, close_entry)
            (if_ind (Keeps s t) (is_done rec.status) (λ d. skipped)
              (λ d. Keeps-trans s t made (close_entry h slot i pid rs made.0 made.1) done rest))
    ]

close_entries-Keeps :
    (h : Host) (slot : Slot) (i : ℕ) (es : List Entry) (s : State) (t : Tournament)
    → is_open t.status ≡ true
    → Keeps s t (close_entries h slot i es s t)
unfolding close_entries
close_entries-Keeps h slot i [] s t live = Keeps-refl s t
close_entries-Keeps h slot i (e ∷ es) s t live =
    let made = close_entry h slot i e.player.id round_numbers s t in
    let done = close_entry-Keeps h slot i e.player.id round_numbers s t live in
    Keeps-trans s t made (close_entries h slot (suc i) es made.0 made.1) done
      (close_entries-Keeps h slot (suc i) es made.0 made.1 (still_open s t made done live))

score_dealt-Keeps :
    (slot : Slot) (i : ℕ) (es : List Entry) (s : State) (t : Tournament)
    → is_open t.status ≡ true
    → Keeps s t (score_dealt slot i es s t)
unfolding score_dealt
score_dealt-Keeps slot i [] s t live = Keeps-refl s t
score_dealt-Keeps slot i (e ∷ es) s t live =
    let dealt = ltb 0 (progress s t.id e.player.id).dealt in
    let made : State × Tournament =
      if not e.scored && dealt then score_entry slot i e.player.id s t else (s, t) in
    let done : Keeps s t made =
      if_ind (Keeps s t) (not e.scored && dealt)
        (λ d. score_entry-Keeps slot i e.player.id s t live) (λ d. Keeps-refl s t) in
    Keeps-trans s t made (score_dealt slot (suc i) es made.0 made.1) done
      (score_dealt-Keeps slot (suc i) es made.0 made.1 (still_open s t made done live))

pub close_rounds-Keeps :
    (h : Host) (slot : Slot) (s : State) (t : Tournament)
    → is_open t.status ≡ true
    → Keeps s t (close_rounds h slot s t)
unfolding close_rounds
close_rounds-Keeps h slot s t live =
    let made = close_entries h slot 0 t.entries s t in
    let done = close_entries-Keeps h slot 0 t.entries s t live in
    Keeps-trans s t made (score_dealt slot 0 made.1.entries made.0 made.1) done
      (score_dealt-Keeps slot 0 made.1.entries made.0 made.1 (still_open s t made done live))
