-- ===== src/Tournament/Steps.antt =====
-- Each handler of internal/tournament/state.go lets the state evolve.
use paxos_arena.Prelude.{
  ℕ, ◌%◌, ◌^◌, ◌≤◌, ◌≡◌, refl, inl, inr, true, false, not, some, List, [], ◌∷◌, ◌++◌, if_ind,
  Bool-cases, Option-cases, Text, same_text, find, has, Grown-refl, Grown-new, All-put, arith,
}
use paxos_arena.Paxos.{Slot, Ballot}
use paxos_arena.Ledger.{Posting}
use paxos_arena.Ledger.Book.{Book, post_all}
use paxos_arena.Tournament.{Rules, Entry, Tournament}
use paxos_arena.Tournament.Shapes.{valid_id, valid_rules, valid_player}
use paxos_arena.Tournament.Commands.{CreateTournament, Join, SubmitScore, Result}
use paxos_arena.Tournament.State.{State, save_tournament, with_book}
use paxos_arena.Tournament.Entries.{
  is_open, create, admit, join_known, join, index_of, entry_at, change_at, fix_score, score_check,
  score_at, score_known, score,
}
use paxos_arena.Tournament.Growth.{
  IsFair, IsLater, IsLater-refl, IsLater-trans, IsAhead, IsAhead-refl, Evolves, Evolves-refl,
  Evolves-trans, save_tournament-Evolves, with_book-Evolves,
}
use paxos_arena.Tournament.Quiet.{change_at-IsLater, fix_score-IsLater}
use paxos_arena.Tournament.Entering.{admit-IsEntering}

-- A tournament that is found, stepped on and put back, with a book that gained postings.
pub save_both-Evolves :
    (id : Text) (t t' : Tournament) (b : Book) (s : State)
    → find id s.tournaments ≡ some t
    → IsLater t t'
    → (ps : List Posting) × (b ≡ post_all s.book ps)
    → Evolves s (save_tournament id t' (with_book b s))
unfolding with_book
save_both-Evolves id t t' b s there step (ps, e) =
    Evolves-trans s (with_book b s) (save_tournament id t' (with_book b s))
      (with_book-Evolves b ps s e) (save_tournament-Evolves id t t' (with_book b s) there step)

valid_rules-small : (r : Rules) → valid_rules r ≡ true → r.max_entrants % 2 ^ 64 ≤ 1000000
unfolding valid_rules
valid_rules-small r fine = ground arith

fresh-Evolves :
    (id : Text) (t : Tournament) (order : List Text) (s : State)
    → has id s.tournaments ≡ false
    → IsFair t
    → Evolves s (save_tournament id t (record s { order = order }))
unfolding post_all save_tournament
fresh-Evolves id t order s new fair = record {
  results_kept = refl;
  applied_kept = refl;
  posted = ([], refl);
  later = Grown-new IsLater id t s.tournaments IsLater-refl new;
  fair = λ h. All-put IsFair id t s.tournaments fair h;
  ahead = Grown-refl IsAhead s.play.players IsAhead-refl;
}

abbrev pub EvolvesTo : State → State × Result → Type 0
EvolvesTo s r = Evolves s r.0

pub create-Evolves :
    (slot : Slot) (op : CreateTournament) (s : State) → Evolves s (create slot op s).0
unfolding create
create-Evolves slot op s =
    if_ind (EvolvesTo s) (not (valid_id op.id)) (λ e. Evolves-refl s)
      (λ e. elim (Bool-cases (valid_rules op.rules)) [
        | inr bad ↦ rw bad (Evolves-refl s)
        | inl fine ↦ rw fine (
            if_ind (EvolvesTo s) (has op.id s.tournaments) (λ d. Evolves-refl s)
              (λ new. fresh-Evolves op.id _ (s.order ++ op.id ∷ []) s new (record {
                bounded = omega arith;
                small = valid_rules-small op.rules fine;
                distinct = tt;
              })))
      ])

join_known-Evolves :
    (slot : Slot) (ballot : Ballot) (op : Join) (t : Tournament) (s : State)
    → find op.tournament s.tournaments ≡ some t
    → Evolves s (join_known slot ballot op t s).0
unfolding join_known
join_known-Evolves slot ballot op t s there =
    let a = admit-IsEntering slot ballot t op.player s.book in
    let (book, t', c) = admit slot ballot t op.player s.book in
    if_ind (EvolvesTo s) (not (same_text t.rules.game [])) (λ e. Evolves-refl s)
      (λ e. save_both-Evolves op.tournament t t' book s there a.later a.posted)

pub join-Evolves :
    (slot : Slot) (ballot : Ballot) (op : Join) (s : State) → Evolves s (join slot ballot op s).0
unfolding join
join-Evolves slot ballot op s =
    if_ind (EvolvesTo s) (not (valid_player op.player)) (λ e. Evolves-refl s)
      (λ e. elim (Option-cases (find op.tournament s.tournaments)) [
        | inl d ↦ rw d (Evolves-refl s)
        | inr (t, d) ↦ rw d (join_known-Evolves slot ballot op t s d)
      ])

fixed_open :
    (i n : ℕ) (t : Tournament) → is_open t.status ≡ true → is_open (fix_score i n t).status ≡ true
unfolding fix_score
fixed_open i n t live = live

score_at-Evolves :
    (op : SubmitScore) (t : Tournament) (i : ℕ) (e : Entry) (s : State)
    → find op.tournament s.tournaments ≡ some t
    → is_open t.status ≡ true
    → Evolves s (score_at op t i e s).0
unfolding score_at
score_at-Evolves op t i e s there live = elim (Option-cases (score_check t op e)) [
  | inr (c, d) ↦ rw (d, score_at) (Evolves-refl s)
  | inl d ↦
      let t1 = fix_score i op.score t in
      let f : Entry → Entry = λ x. record x { input_digest = op.input_digest } in
      let t2 = record t1 { entries = change_at i f t1.entries } in
      rw (d, score_at)
        (save_tournament-Evolves op.tournament t t2 s there (
          IsLater-trans t t1 t2 (fix_score-IsLater i op.score t live)
            (change_at-IsLater i f t1 (λ x. refl) (fixed_open i op.score t live))))
]

score_known-Evolves :
    (op : SubmitScore) (t : Tournament) (s : State)
    → find op.tournament s.tournaments ≡ some t
    → Evolves s (score_known op t s).0
unfolding score_known
score_known-Evolves op t s there =
    if_ind (EvolvesTo s) (not (same_text t.rules.game [])) (λ e. Evolves-refl s)
      (λ e. elim (Bool-cases (is_open t.status)) [
        | inr shut ↦ rw shut (Evolves-refl s)
        | inl live ↦ rw live (elim (Option-cases (index_of op.player t.entries)) [
          | inl d ↦ rw d (Evolves-refl s)
          | inr (i, d) ↦ rw d (elim (Option-cases (entry_at i t.entries)) [
            | inl c ↦ rw c (Evolves-refl s)
            | inr (x, c) ↦ rw c (score_at-Evolves op t i x s there live)
          ])
        ])
      ])

pub score-Evolves : (op : SubmitScore) (s : State) → Evolves s (score op s).0
unfolding score
score-Evolves op s = elim (Option-cases (find op.tournament s.tournaments)) [
  | inl d ↦ rw (d, score) (Evolves-refl s)
  | inr (t, d) ↦ rw (d, score) (score_known-Evolves op t s d)
]
