-- ===== src/Tournament/Rows.antt =====
-- The rows of the standings are those of the entries, each once.
use mathlib.Core.List.{Perm, perm_middle, map-append}
use mathlib.Core.List.Perm
use paxos_arena.Prelude.{
  ℕ, suc, ◌≡◌, refl, ap, Bool, true, false, ◌&&◌, List, [], ◌∷◌, ◌++◌, length, map, if_ind,
  if◌then◌else◌, Bool-cases, inl, inr, ltb, ◌==◌, Text,
}
use paxos_arena.Tournament.{TieBreak, Entry, Standing, Tournament}
use paxos_arena.Tournament.Compute.{
  with_score, ranks_before, joined_before, insert_entry, sort_entries, is_split, scored_rows,
  unscored_rows, compute_standings,
}

-- A row without its place: the player, and what it tells of the score.
pub record Line : Type 0 where
  pub player : Text
  pub scored : Bool
  pub score : ℕ
  pub submit_seq : ℕ

abbrev pub line_of : Standing → Line
line_of s = record {
  player = s.player;
  scored = s.scored;
  score = s.score;
  submit_seq = s.submit_seq;
}

abbrev scored_line : Entry → Line
scored_line e = record {
  player = e.player.id;
  scored = true;
  score = e.score;
  submit_seq = e.submit_seq;
}

abbrev unscored_line : Entry → Line
unscored_line e = record { player = e.player.id; scored = false; score = 0; submit_seq = 0 }

-- What the standings are to tell of an entry.
abbrev pub entry_line : Entry → Line
entry_line e = if e.scored then scored_line e else unscored_line e

insert_entry-Perm :
    (before : Entry → Entry → Bool) (e : Entry) (ds : List Entry)
    → Perm (insert_entry before e ds) (e ∷ ds)
unfolding insert_entry
insert_entry-Perm before e [] = Perm.rfl
insert_entry-Perm before e (d ∷ ds) =
    if_ind (λ xs. Perm xs (e ∷ d ∷ ds)) (before d e)
      (λ _. Perm.trans (Perm.cons d (insert_entry-Perm before e ds)) (Perm.swap e d ds))
      (λ _. Perm.rfl)

sort_entries-Perm :
    (before : Entry → Entry → Bool) (es : List Entry) → Perm (sort_entries before es) es
unfolding sort_entries
sort_entries-Perm before [] = Perm.rfl
sort_entries-Perm before (e ∷ es) =
    Perm.trans (insert_entry-Perm before e (sort_entries before es))
      (Perm.cons e (sort_entries-Perm before es))

with_score-Perm :
    (es : List Entry)
    → Perm
        (map scored_line (with_score true es) ++ map unscored_line (with_score false es))
        (map entry_line es)
unfolding with_score
with_score-Perm [] = Perm.rfl
with_score-Perm (e ∷ es) = elim (Bool-cases e.scored) [
  | inl y ↦ rw y (Perm.cons (scored_line e) (with_score-Perm es))
  | inr n ↦ rw n (
      Perm.trans (perm_middle (map scored_line (with_score true es)) _)
        (Perm.cons (unscored_line e) (with_score-Perm es)))
]

map-scored_rows :
    (tie : TieBreak) (i place score : ℕ) (es : List Entry)
    → map line_of (scored_rows tie i place score es) ≡ map scored_line es
unfolding scored_rows
map-scored_rows tie i place score [] = refl
map-scored_rows tie i place score (e ∷ es) =
    let row = if is_split tie && ltb 0 i && e.score == score then place else suc i in
    ap (λ ls. scored_line e ∷ ls) (map-scored_rows tie (suc i) row e.score es)

map-unscored_rows :
    (i : ℕ) (es : List Entry) → map line_of (unscored_rows i es) ≡ map unscored_line es
unfolding unscored_rows
map-unscored_rows i [] = refl
map-unscored_rows i (e ∷ es) = ap (λ ls. unscored_line e ∷ ls) (map-unscored_rows (suc i) es)

rows-Perm :
    (tie : TieBreak) (k : ℕ) (es : List Entry) (xs ys : List Entry)
    → Perm xs (with_score true es)
    → Perm ys (with_score false es)
    → Perm (map line_of (scored_rows tie 0 0 0 xs ++ unscored_rows k ys)) (map entry_line es)
rows-Perm tie k es xs ys p q =
    rw (map-append line_of (scored_rows tie 0 0 0 xs) (unscored_rows k ys)) (
      rw (map-scored_rows tie 0 0 0 xs) (
        rw (map-unscored_rows k ys) (
          Perm.trans (Perm.append (Perm.map scored_line p) (Perm.map unscored_line q))
            (with_score-Perm es))))

pub compute_standings-Perm :
    (t : Tournament) → Perm (map line_of (compute_standings t)) (map entry_line t.entries)
unfolding compute_standings
compute_standings-Perm t =
    let xs = sort_entries ranks_before (with_score true t.entries) in
    rows-Perm t.rules.tie_break (length xs) t.entries xs
      (sort_entries joined_before (with_score false t.entries))
      (sort_entries-Perm ranks_before (with_score true t.entries))
      (sort_entries-Perm joined_before (with_score false t.entries))
