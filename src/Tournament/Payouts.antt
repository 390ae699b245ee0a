-- ===== src/Tournament/Payouts.antt =====
-- internal/tournament/compute.go: `ComputePayouts`, for a pool that is not negative.
use paxos_arena.Prelude.{
  ℕ, zero, suc, ◌+◌, ◌/◌, ◌%◌, ◌^◌, Bool, true, false, not, ◌&&◌, none, some, List, [], ◌∷◌, ◌++◌,
  length, ltb, ◌==◌, if◌then◌else◌, Text,
}
use paxos_arena.Ledger.{Money, add_money, neg_money}
use paxos_arena.Ledger.Names.{refund_key, prize_key, withheld_key}
use paxos_arena.Tournament.{
  Exclusions, Entry, Standing, Payout, Tournament, voids, entry_of, is_excluded,
}
use paxos_arena.Tournament.Compute.{bps, compute_pool, compute_standings, is_split}

-- `JurisdictionExcluded`, the reason of a withheld payout.
abbrev excluded_reason : Text
excluded_reason =
    b'j' ∷ b'u' ∷ b'r' ∷ b'i' ∷ b's' ∷ b'd' ∷ b'i' ∷ b'c' ∷ b't' ∷ b'i' ∷ b'o' ∷ b'n' ∷ b'_' ∷ b'e'
    ∷ b'x' ∷ b'c' ∷ b'l' ∷ b'u' ∷ b'd' ∷ b'e' ∷ b'd' ∷ []

unfoldable pub refunds : Text → ℕ → ℕ → List Entry → List Payout
unfolding refund_key
refunds tid fee version [] = []
refunds tid fee version (e ∷ es) =
    record {
      player = e.player.id;
      place = 0;
      amount = fee;
      withheld = false;
      reason = [];
      exclusion_version = version;
      key = refund_key tid e.player.id;
    }
    ∷ refunds tid fee version es

-- The rows that are paid, each with its share: one per prize place while rows last.
unfoldable pub share_rows : Money → List ℕ → List Standing → List (Standing × Money)
unfolding bps
share_rows pool [] rows = []
share_rows pool (b ∷ bs) [] = []
share_rows pool (b ∷ bs) (r ∷ rows) = (r, bps pool b) ∷ share_rows pool bs rows

unfoldable pub sum_shares : List (Standing × Money) → Money
unfolding add_money
sum_shares [] = 0
sum_shares ((r, v) ∷ rows) = add_money v (sum_shares rows)

-- `share[0] += pool - sum`.
unfoldable pub add_remainder : Money → List (Standing × Money) → List (Standing × Money)
unfolding sum_shares add_money neg_money
add_remainder pool [] = []
add_remainder pool ((r, v) ∷ rows) =
    (r, add_money v (add_money pool (neg_money (sum_shares ((r, v) ∷ rows))))) ∷ rows

-- The group of a row: the rows after it with an equal score, and the rest.
abbrev pub ties : Standing → Standing → Bool
ties r q = q.score == r.score && same_bool q.scored r.scored
  where
    same_bool : Bool → Bool → Bool
    same_bool true b = b
    same_bool false b = not b

unfoldable pub tie_run : Standing → List (Standing × Money) → List (Standing × Money)
tie_run r [] = []
tie_run r ((q, v) ∷ rows) = if ties r q then (q, v) ∷ tie_run r rows else []

unfoldable pub after_run : Standing → List (Standing × Money) → List (Standing × Money)
after_run r [] = []
after_run r ((q, v) ∷ rows) = if ties r q then after_run r rows else (q, v) ∷ rows

-- The inner loop: row `k` of a group gets one unit more while `k` is below the remainder.
unfoldable pub divide : ℕ → Money → Money → List (Standing × Money) → List (Standing × Money)
divide k each rem [] = []
divide k each rem ((r, v) ∷ rows) =
    (r, if ltb k rem then (each + 1) % 2 ^ 64 else each) ∷ divide (suc k) each rem rows

-- The outer loop; a step uses up at least one row, so the number of rows is enough fuel.
unfoldable pub split_groups : ℕ → List (Standing × Money) → List (Standing × Money)
unfolding sum_shares tie_run after_run divide
split_groups zero rows = []
split_groups (suc fuel) [] = []
split_groups (suc fuel) ((r, v) ∷ rows) =
    let group = (r, v) ∷ tie_run r rows in
    let total = sum_shares group in
    let rest = split_groups fuel (after_run r rows) in
    divide 0 (total / length group) (total % length group) group ++ rest

unfoldable pub is_withheld : Exclusions → List Entry → Text → Bool
unfolding entry_of is_excluded
is_withheld ex entries id = elim (entry_of id entries) [
  | none ↦ is_excluded [] ex.jurisdictions
  | some e ↦ is_excluded e.player.jurisdiction ex.jurisdictions
]

unfoldable pub payout_rows : Text → Exclusions → List Entry → List (Standing × Money) → List Payout
unfolding is_withheld prize_key withheld_key
payout_rows tid ex entries [] = []
payout_rows tid ex entries ((r, v) ∷ rows) =
    let held = is_withheld ex entries r.player in
    record {
      player = r.player;
      place = r.place;
      amount = v;
      withheld = held;
      reason = if held then excluded_reason else [];
      exclusion_version = ex.version;
      key = if held then withheld_key tid r.player r.place else prize_key tid r.player r.place;
    }
    ∷ payout_rows tid ex entries rows

unfoldable pub standings_of : Tournament → List Standing
unfolding compute_standings
standings_of t = elim t.standings [ [] ↦ compute_standings t | r ∷ rows ↦ r ∷ rows ]

-- The amounts of the paid rows.
unfoldable pub prize_rows : Tournament → List (Standing × Money)
unfolding compute_pool standings_of share_rows add_remainder split_groups
prize_rows t =
    let (fees, rake, pool) = compute_pool t in
    let shares = add_remainder pool (share_rows pool t.rules.prize_bps (standings_of t)) in
    if is_split t.rules.tie_break then split_groups (length shares) shares else shares

-- `ComputePayouts`.
unfoldable pub compute_payouts : Tournament → Exclusions → List Payout
unfolding refunds prize_rows payout_rows
compute_payouts t ex =
    if voids t
    then refunds t.id t.rules.entry_fee ex.version t.entries
    else payout_rows t.id ex t.entries (prize_rows t)
