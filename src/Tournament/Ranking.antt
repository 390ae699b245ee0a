-- ===== src/Tournament/Ranking.antt =====
-- Standings rank every entrant, best first.
use mathlib.Core.List.{Perm}
use paxos_arena.Prelude.{
  ℕ, suc, ◌≡◌, refl, Bool, true, false, not, ◌&&◌, ◌||◌, List, [], ◌∷◌, ◌++◌, length, if_ind,
  if◌then◌else◌, map, signed_less, ltb, leb, ◌==◌, arith,
}
use paxos_arena.Tournament.{TieBreak, Entry, Standing, Tournament}
use paxos_arena.Tournament.Rows.{line_of, entry_line, compute_standings-Perm}
use paxos_arena.Tournament.Compute.{
  with_score, ranks_before, joined_before, insert_entry, sort_entries, is_split, scored_rows,
  unscored_rows, compute_standings,
}

-- A scored row stands before every unscored one, no lower score before a higher one, and of equal
-- scores the earlier submission first.
abbrev pub follows : Standing → Standing → Bool
follows s t =
    if s.scored
    then not t.scored
      || (not (signed_less s.score t.score)
          && (not (s.score == t.score) || leb s.submit_seq t.submit_seq))
    else not t.scored

abbrev IsHead : Standing → List Standing → Type 0
IsHead s [] = Unit
IsHead s (t ∷ ts) = follows s t ≡ true

abbrev pub IsRanked : List Standing → Type 0
IsRanked [] = Unit
IsRanked (s ∷ ss) = IsHead s ss × IsRanked ss

-- No entry that the order puts first comes right before `e` is due.
abbrev IsLeast : (Entry → Entry → Bool) → Entry → List Entry → Type 0
IsLeast before e [] = Unit
IsLeast before e (d ∷ ds) = before d e ≡ false

abbrev IsSorted : (Entry → Entry → Bool) → List Entry → Type 0
IsSorted before [] = Unit
IsSorted before (e ∷ es) = IsLeast before e es × IsSorted before es

insert_entry-IsLeast :
    (before : Entry → Entry → Bool) (e d : Entry) (ds : List Entry)
    → before e d ≡ false
    → IsLeast before d ds
    → IsLeast before d (insert_entry before e ds)
unfolding insert_entry
insert_entry-IsLeast before e d [] h k = h
insert_entry-IsLeast before e d (c ∷ cs) h k =
    if_ind (IsLeast before d) (before c e) (λ _. k) (λ _. h)

insert_entry-IsSorted :
    (before : Entry → Entry → Bool)
    → ((d e : Entry) → before d e ≡ true → before e d ≡ false)
    → (e : Entry) (ds : List Entry) → IsSorted before ds
    → IsSorted before (insert_entry before e ds)
unfolding insert_entry
insert_entry-IsSorted before asym e [] h = (tt, tt)
insert_entry-IsSorted before asym e (d ∷ ds) h =
    if_ind (IsSorted before) (before d e)
      (λ up. (
        insert_entry-IsLeast before e d ds (asym d e up) h.0,
        insert_entry-IsSorted before asym e ds h.1,
      ))
      (λ low. (low, h))

sort_entries-IsSorted :
    (before : Entry → Entry → Bool)
    → ((d e : Entry) → before d e ≡ true → before e d ≡ false)
    → (es : List Entry) → IsSorted before (sort_entries before es)
unfolding sort_entries
sort_entries-IsSorted before asym [] = tt
sort_entries-IsSorted before asym (e ∷ es) =
    insert_entry-IsSorted before asym e (sort_entries before es)
      (sort_entries-IsSorted before asym es)

ranks_before_asymm : (d e : Entry) → ranks_before d e ≡ true → ranks_before e d ≡ false
ranks_before_asymm d e h = ground arith

unscored_rows-IsRanked : (i : ℕ) (us : List Entry) → IsRanked (unscored_rows i us)
unfolding unscored_rows
unscored_rows-IsRanked i [] = tt
unscored_rows-IsRanked i (u ∷ []) = (tt, tt)
unscored_rows-IsRanked i (u ∷ v ∷ us) = (refl, unscored_rows-IsRanked (suc i) (v ∷ us))

rows-IsRanked :
    (tie : TieBreak) (i place score k : ℕ) (es us : List Entry)
    → IsSorted ranks_before es
    → IsRanked (scored_rows tie i place score es ++ unscored_rows k us)
unfolding scored_rows unscored_rows
rows-IsRanked tie i place score k [] us h = unscored_rows-IsRanked k us
rows-IsRanked tie i place score k (e ∷ []) [] h = (tt, tt)
rows-IsRanked tie i place score k (e ∷ []) (u ∷ us) h = (refl, unscored_rows-IsRanked k (u ∷ us))
rows-IsRanked tie i place score k (e ∷ d ∷ es) us h =
    let low : ranks_before d e ≡ false = h.0 in
    let row = if is_split tie && ltb 0 i && e.score == score then place else suc i in
    (ground arith, rows-IsRanked tie (suc i) row e.score k (d ∷ es) us h.1)

-- The standings rank the entries of a tournament: without their places, the rows are those of the
-- entries, each once, scored rows before unscored ones, higher scores, as signed numbers, before
-- lower ones, and equal scores by submission.
pub compute_standings-IsRanked :
    (t : Tournament)
    → IsRanked (compute_standings t)
      × Perm (map line_of (compute_standings t)) (map entry_line t.entries)
unfolding compute_standings
compute_standings-IsRanked t =
    let scored = sort_entries ranks_before (with_score true t.entries) in
    let unscored = sort_entries joined_before (with_score false t.entries) in
    (
      rows-IsRanked t.rules.tie_break 0 0 0 (length scored) scored unscored
          (sort_entries-IsSorted ranks_before ranks_before_asymm (with_score true t.entries)),
      compute_standings-Perm t,
    )
