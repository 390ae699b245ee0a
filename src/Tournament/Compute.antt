-- ===== src/Tournament/Compute.antt =====
-- internal/tournament/compute.go: standings and the prize pool.
use paxos_arena.Prelude.{
  ℕ, suc, ◌+◌, ◌-◌, ◌*◌, ◌/◌, ◌%◌, ◌^◌, Bool, true, false, not, ◌&&◌, List, [], ◌∷◌, ◌++◌, length,
  ltb, ◌==◌, if◌then◌else◌, signed_less,
}
use paxos_arena.Tournament.{TieBreak, Entry, Standing, Tournament, voids}

-- `bps`, for an amount that is not negative.
unfoldable pub bps : ℕ → ℕ → ℕ
bps x b = (x / 10000 * b % 2 ^ 64 + x % 10000 * b % 2 ^ 64 / 10000) % 2 ^ 64

-- `ComputePool`: the fees, the rake and the pool.
unfoldable pub compute_pool : Tournament → ℕ × ℕ × ℕ
unfolding bps
compute_pool t =
    let fees = t.rules.entry_fee * length t.entries % 2 ^ 64 in
    if voids t
    then (fees, 0, fees)
    else (let rake = bps fees t.rules.rake_bps in (fees, rake, (fees + 2 ^ 64 - rake) % 2 ^ 64))

unfoldable pub with_score : Bool → List Entry → List Entry
with_score s [] = []
with_score true (e ∷ es) = if e.scored then e ∷ with_score true es else with_score true es
with_score false (e ∷ es) = if e.scored then with_score false es else e ∷ with_score false es

-- The orders of the two sorts. A score is an int64, held modulo 2 ^ 64.
abbrev pub ranks_before : Entry → Entry → Bool
ranks_before e d =
    if not (e.score == d.score) then signed_less d.score e.score else ltb e.submit_seq d.submit_seq

abbrev pub joined_before : Entry → Entry → Bool
joined_before e d = ltb e.join_seq d.join_seq

-- `sort.SliceStable`.
unfoldable pub insert_entry : (Entry → Entry → Bool) → Entry → List Entry → List Entry
insert_entry before e [] = e ∷ []
insert_entry before e (d ∷ ds) = if before d e then d ∷ insert_entry before e ds else e ∷ d ∷ ds

unfoldable pub sort_entries : (Entry → Entry → Bool) → List Entry → List Entry
unfolding insert_entry
sort_entries before [] = []
sort_entries before (e ∷ es) = insert_entry before e (sort_entries before es)

abbrev pub is_split : TieBreak → Bool
is_split TieBreak.split = true
is_split TieBreak.earliest_submission = false
is_split TieBreak.other = false

-- The loop over the scored entries, from position `i` with the place and the score of the row
-- before it.
unfoldable pub scored_rows : TieBreak → ℕ → ℕ → ℕ → List Entry → List Standing
scored_rows tie i last_place last_score [] = []
scored_rows tie i last_place last_score (e ∷ es) =
    let place = if is_split tie && ltb 0 i && e.score == last_score then last_place else suc i in
    record {
      place = place;
      player = e.player.id;
      score = e.score;
      scored = true;
      submit_seq = e.submit_seq;
    }
    ∷ scored_rows tie (suc i) place e.score es

unfoldable pub unscored_rows : ℕ → List Entry → List Standing
unscored_rows i [] = []
unscored_rows i (e ∷ es) =
    record { place = suc i; player = e.player.id; score = 0; scored = false; submit_seq = 0 }
    ∷ unscored_rows (suc i) es

-- `ComputeStandings`.
unfoldable pub compute_standings : Tournament → List Standing
unfolding with_score sort_entries scored_rows unscored_rows
compute_standings t =
    let scored = sort_entries ranks_before (with_score true t.entries) in
    let unscored = sort_entries joined_before (with_score false t.entries) in
    scored_rows t.rules.tie_break 0 0 0 scored ++ unscored_rows (length scored) unscored
