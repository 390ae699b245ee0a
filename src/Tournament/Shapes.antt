-- ===== src/Tournament/Shapes.antt =====
-- internal/tournament/codec.go: the shapes of keys, identifiers, players, rules and exclusion
-- lists, as tests that are true when the source reports no error.
use paxos_arena.Prelude.{
  ℕ, ◌+◌, ◌%◌, ◌^◌, Bool, true, false, not, ◌&&◌, ◌||◌, List, [], ◌∷◌, length, ltb, leb, ◌==◌,
  if◌then◌else◌, Text, same_text, text_less, is_negative, signed_less,
}
use paxos_arena.Game.{max_total_score}
use paxos_arena.Tournament.{TieBreak, Exclusions, Player, Rules, is_excluded}

abbrev max_key_len : ℕ
max_key_len = 128

abbrev max_id_len : ℕ
max_id_len = 64

abbrev max_entry_fee : ℕ
max_entry_fee = 1000000000000

abbrev max_entrants_bound : ℕ
max_entrants_bound = 1000000

abbrev max_prize_places : ℕ
max_prize_places = 1000

abbrev max_jurisdictions : ℕ
max_jurisdictions = 1000

unfoldable pub every : (ℕ → Bool) → Text → Bool
every f [] = true
every f (c ∷ cs) = f c && every f cs

abbrev within : ℕ → ℕ → ℕ → Bool
within low high c = leb low c && leb c high

-- `ValidateKey`.
unfoldable pub valid_key : Text → Bool
unfolding every
valid_key k =
    ltb 0 (length k) && leb (length k) max_key_len && every (λ c. ltb b' ' c && leb c b'~') k

abbrev pub id_char : ℕ → Bool
id_char c =
    within b'a' b'z' c
    || within b'A' b'Z' c
    || within b'0' b'9' c
    || c == b'.'
    || c == b'_'
    || c == b'-'

unfoldable pub valid_id : Text → Bool
unfolding every
valid_id s = ltb 0 (length s) && leb (length s) max_id_len && every id_char s

unfoldable pub valid_jurisdiction : Text → Bool
unfolding every
valid_jurisdiction j = leb 2 (length j) && leb (length j) 8 && every (within b'A' b'Z') j

unfoldable pub all_jurisdictions : List Text → Bool
unfolding valid_jurisdiction
all_jurisdictions [] = true
all_jurisdictions (j ∷ js) = valid_jurisdiction j && all_jurisdictions js

-- `ValidateExclusions`.
unfoldable pub valid_exclusions : Exclusions → Bool
unfolding all_jurisdictions
valid_exclusions e =
    leb (length e.jurisdictions) max_jurisdictions && all_jurisdictions e.jurisdictions

-- `ValidatePlayer`.
unfoldable pub valid_player : Player → Bool
unfolding valid_id valid_jurisdiction
valid_player p =
    valid_id p.id
    && valid_jurisdiction p.jurisdiction
    && not (is_negative p.age)
    && not (signed_less 150 p.age)

unfoldable pub all_positive : List ℕ → Bool
all_positive [] = true
all_positive (b ∷ bs) = ltb 0 b && all_positive bs

-- The uint64 sum of the shares, which are uint32.
unfoldable pub sum_bps : List ℕ → ℕ
sum_bps [] = 0
sum_bps (b ∷ bs) = (b + sum_bps bs) % 2 ^ 64

abbrev known_tie_break : TieBreak → Bool
known_tie_break TieBreak.earliest_submission = true
known_tie_break TieBreak.split = true
known_tie_break TieBreak.other = false

-- `game.LadderV1`.
abbrev pub ladder_v1 : Text
ladder_v1 = b'l' ∷ b'a' ∷ b'd' ∷ b'd' ∷ b'e' ∷ b'r' ∷ b'-' ∷ b'v' ∷ b'1' ∷ []

-- `ValidateRules`.
unfoldable pub valid_rules : Rules → Bool
unfolding all_positive sum_bps valid_exclusions
valid_rules r =
    signed_less 0 r.entry_fee
    && not (signed_less max_entry_fee r.entry_fee)
    && leb r.rake_bps 9999
    && ltb 0 (length r.prize_bps)
    && leb (length r.prize_bps) max_prize_places
    && all_positive r.prize_bps
    && sum_bps r.prize_bps == 10000
    && not (signed_less r.min_entrants (length r.prize_bps))
    && not (signed_less r.max_entrants r.min_entrants)
    && not (signed_less max_entrants_bound r.max_entrants)
    && not (is_negative r.max_score)
    && not (is_negative r.min_age)
    && known_tie_break r.tie_break
    && valid_exclusions r.exclusions
    && (same_text r.game [] || (same_text r.game ladder_v1 && r.max_score == max_total_score))

-- The deduplication of `canonicalExclusions`: each code at its first place.
unfoldable pub distinct_codes : List Text → List Text → List Text
unfolding is_excluded
distinct_codes seen [] = []
distinct_codes seen (j ∷ js) =
    if is_excluded j seen then distinct_codes seen js else j ∷ distinct_codes (j ∷ seen) js

-- `sort.Strings`.
unfoldable pub insert_code : Text → List Text → List Text
insert_code j [] = j ∷ []
insert_code j (k ∷ ks) = if text_less k j then k ∷ insert_code j ks else j ∷ k ∷ ks

unfoldable pub sort_codes : List Text → List Text
unfolding insert_code
sort_codes [] = []
sort_codes (j ∷ js) = insert_code j (sort_codes js)

unfoldable pub canonical_exclusions : Exclusions → Exclusions
unfolding distinct_codes sort_codes
canonical_exclusions e = record e { jurisdictions = sort_codes (distinct_codes [] e.jurisdictions) }
