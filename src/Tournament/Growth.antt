-- ===== src/Tournament/Growth.antt =====
-- How the tournament state may change: what no command takes back.
use mathlib.Core.Path.{subst}
use mathlib.Core.List.{append-nil, append_assoc}
use paxos_arena.Prelude.{
  ◌%◌, ◌^◌, ◌≤◌, ◌≡◌, refl, sym, ap, ◌∙◌, Bool, true, false, some, List, [], ◌∷◌, ◌++◌, length, map,
  All, Text, find, Grown, Grown-refl, Grown-trans, Grown-put, All-put, All-find, arith,
}
use paxos_arena.Ledger.{Posting}
use paxos_arena.Ledger.Book.{Book, post, post_all}
use paxos_arena.Tournament.{Status, Player, Entry, Tournament}
use paxos_arena.Tournament.State.{State, PlayerState, with_book, save_player, save_tournament}
use paxos_arena.Tournament.Entries.{is_open, has_entry}

-- No player stands in two entries.
abbrev pub Distinct : List Entry → Type 0
Distinct [] = Unit
Distinct (e ∷ es) = (has_entry e.player.id es ≡ false) × Distinct es

-- Entries are at most the entrants that the rules let in, and of different players.
pub record IsFair (t : Tournament) : Type 0 where
  pub bounded : length t.entries ≤ t.rules.max_entrants % 2 ^ 64
  pub small : t.rules.max_entrants % 2 ^ 64 ≤ 1000000
  pub distinct : Distinct t.entries

abbrev pub is_final : Status → Bool
is_final Status.settled = true
is_final _ = false

-- The players of the entries, in their order.
abbrev pub entrants : Tournament → List Player
entrants t = map (λ e. e.player) t.entries

-- What a later record of the same tournament keeps.
pub record IsLater (t t' : Tournament) : Type 0 where
  pub id_kept : t'.id ≡ t.id
  pub seed_kept : t'.seed ≡ t.seed
  pub rules_kept : t'.rules ≡ t.rules
  pub no_reopening : is_open t.status ≡ false → is_open t'.status ≡ false
  pub frozen : is_final t.status ≡ true → t' ≡ t
  pub entrants_kept : (zs : List Player) × (entrants t' ≡ entrants t ++ zs)
  pub fair_kept : IsFair t → IsFair t'

pub IsLater-refl : (t : Tournament) → IsLater t t
IsLater-refl t = record {
  id_kept = refl;
  seed_kept = refl;
  rules_kept = refl;
  no_reopening = λ h. h;
  frozen = λ h. refl;
  entrants_kept = ([], sym (append-nil (entrants t)));
  fair_kept = λ h. h;
}

pub IsLater-trans : (t u v : Tournament) → IsLater t u → IsLater u v → IsLater t v
IsLater-trans t u v f g = record {
  id_kept = g.id_kept ∙ f.id_kept;
  seed_kept = g.seed_kept ∙ f.seed_kept;
  rules_kept = g.rules_kept ∙ f.rules_kept;
  no_reopening = λ h. g.no_reopening (f.no_reopening h);
  frozen = λ h. g.frozen (subst (λ w. is_final w.status ≡ true) (sym (f.frozen h)) h) ∙ f.frozen h;
  entrants_kept =
      (let (xs, d) = f.entrants_kept in
        let (ys, e) = g.entrants_kept in
        (xs ++ ys, e ∙ ap (λ ps. ps ++ ys) d ∙ append_assoc (entrants t) xs ys));
  fair_kept = λ h. g.fair_kept (f.fair_kept h);
}

-- A player's record keeps its binding, and its sequence number does not fall.
pub record IsAhead (p p' : PlayerState) : Type 0 where
  pub binding_kept : p'.binding ≡ p.binding
  pub seq_grown : p.last_seq ≤ p'.last_seq

pub IsAhead-refl : (p : PlayerState) → IsAhead p p
IsAhead-refl p = record { binding_kept = refl; seq_grown = omega arith }

pub IsAhead-trans : (p q r : PlayerState) → IsAhead p q → IsAhead q r → IsAhead p r
IsAhead-trans p q r f g = record {
  binding_kept = g.binding_kept ∙ f.binding_kept;
  seq_grown = omega (arith, f.seq_grown, g.seq_grown);
}

-- What the run of an operation may do to the state.
pub record Evolves (s s' : State) : Type 0 where
  pub results_kept : s'.results ≡ s.results
  pub applied_kept : s'.applied ≡ s.applied
  pub posted : (ps : List Posting) × (s'.book ≡ post_all s.book ps)
  pub later : Grown IsLater s.tournaments s'.tournaments
  pub fair : All (λ e. IsFair e.1) s.tournaments → All (λ e. IsFair e.1) s'.tournaments
  pub ahead : Grown IsAhead s.play.players s'.play.players

-- What an operation may change of the rest of the state: rounds, events and the marks of changes.
pub record IsQuiet (s s' : State) : Type 0 where
  pub results_same : s'.results ≡ s.results
  pub applied_same : s'.applied ≡ s.applied
  pub book_same : s'.book ≡ s.book
  pub tournaments_same : s'.tournaments ≡ s.tournaments
  pub players_same : s'.play.players ≡ s.play.players

pub IsQuiet-refl : (s : State) → IsQuiet s s
IsQuiet-refl s = record {
  results_same = refl;
  applied_same = refl;
  book_same = refl;
  tournaments_same = refl;
  players_same = refl;
}

pub IsQuiet-trans : (s u v : State) → IsQuiet s u → IsQuiet u v → IsQuiet s v
IsQuiet-trans s u v f g = record {
  results_same = g.results_same ∙ f.results_same;
  applied_same = g.applied_same ∙ f.applied_same;
  book_same = g.book_same ∙ f.book_same;
  tournaments_same = g.tournaments_same ∙ f.tournaments_same;
  players_same = g.players_same ∙ f.players_same;
}

pub Evolves-quiet : (s s' : State) → IsQuiet s s' → Evolves s s'
unfolding post_all
Evolves-quiet s s' q = record {
  results_kept = q.results_same;
  applied_kept = q.applied_same;
  posted = ([], q.book_same);
  later =
      subst (Grown IsLater s.tournaments) (sym q.tournaments_same)
        (Grown-refl IsLater s.tournaments IsLater-refl);
  fair = λ h. subst (All (λ e. IsFair e.1)) (sym q.tournaments_same) h;
  ahead =
      subst (Grown IsAhead s.play.players) (sym q.players_same)
        (Grown-refl IsAhead s.play.players IsAhead-refl);
}

pub Evolves-refl : (s : State) → Evolves s s
Evolves-refl s = Evolves-quiet s s (IsQuiet-refl s)

pub post_all-append :
    (b : Book) (ps qs : List Posting) → post_all b (ps ++ qs) ≡ post_all (post_all b ps) qs
unfolding post_all
post_all-append b [] qs = refl
post_all-append b (p ∷ ps) qs = post_all-append (post b p).0 ps qs

pub Evolves-trans : (s u v : State) → Evolves s u → Evolves u v → Evolves s v
Evolves-trans s u v f g =
    let (ps, e) = f.posted in
    let (qs, d) = g.posted in
    record {
      results_kept = g.results_kept ∙ f.results_kept;
      applied_kept = g.applied_kept ∙ f.applied_kept;
      posted = (ps ++ qs, d ∙ ap (λ b. post_all b qs) e ∙ sym (post_all-append s.book ps qs));
      later =
          Grown-trans IsLater s.tournaments u.tournaments v.tournaments IsLater-trans f.later
            g.later;
      fair = λ h. g.fair (f.fair h);
      ahead =
          Grown-trans IsAhead s.play.players u.play.players v.play.players IsAhead-trans f.ahead
            g.ahead;
    }

-- A record that is put back later than it was found.
pub save_tournament-Evolves :
    (id : Text) (t t' : Tournament) (s : State)
    → find id s.tournaments ≡ some t
    → IsLater t t'
    → Evolves s (save_tournament id t' s)
unfolding post_all save_tournament
save_tournament-Evolves id t t' s there step = record {
  results_kept = refl;
  applied_kept = refl;
  posted = ([], refl);
  later = Grown-put IsLater id t t' s.tournaments IsLater-refl there step;
  fair = λ h.
      All-put IsFair id t' s.tournaments
        (step.fair_kept (All-find IsFair id t s.tournaments h there)) h;
  ahead = Grown-refl IsAhead s.play.players IsAhead-refl;
}

pub save_player-Evolves :
    (id : Text) (p p' : PlayerState) (s : State)
    → find id s.play.players ≡ some p
    → IsAhead p p'
    → Evolves s (save_player id p' s)
unfolding post_all save_player
save_player-Evolves id p p' s there step = record {
  results_kept = refl;
  applied_kept = refl;
  posted = ([], refl);
  later = Grown-refl IsLater s.tournaments IsLater-refl;
  fair = λ h. h;
  ahead = Grown-put IsAhead id p p' s.play.players IsAhead-refl there step;
}

pub with_book-Evolves :
    (b : Book) (ps : List Posting) (s : State) → b ≡ post_all s.book ps → Evolves s (with_book b s)
unfolding with_book
with_book-Evolves b ps s e = record {
  results_kept = refl;
  applied_kept = refl;
  posted = (ps, e);
  later = Grown-refl IsLater s.tournaments IsLater-refl;
  fair = λ h. h;
  ahead = Grown-refl IsAhead s.play.players IsAhead-refl;
}
