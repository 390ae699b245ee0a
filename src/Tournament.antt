-- ===== src/Tournament.antt =====
-- internal/tournament/tournament.go: the record of a tournament. Integers that have a sign are
-- residues modulo 2 ^ 64, strings and digests are lists of bytes.
pub mod Compute
pub mod Money
pub mod Ranking
pub mod Rows
pub mod Payouts
pub mod Shares
pub mod Shapes
pub mod Commands
pub mod State
pub mod Events
pub mod Entries
pub mod Rounds
pub mod Closing
pub mod Play
pub mod Moves
pub mod Claims
pub mod Apply
pub mod Growth
pub mod Entering
pub mod Quiet
pub mod Steps
pub mod Settling
pub mod Playing
pub mod Moving
pub mod Runs
pub mod History
pub mod Retries
pub mod Stale
pub mod Outflow
pub mod Reads
pub mod Seen
pub mod Keys
mod Tests
mod Scenarios
use paxos_arena.Prelude.{
  ℕ, suc, Bool, true, false, ◌||◌, Option, none, some, List, [], ◌∷◌, length, if◌then◌else◌,
  signed_less, Text, same_text,
}
use paxos_arena.Paxos.{Slot, Ballot}

pub data Status : Type 0 where
  opened closed voided settled : Status

-- A tie break is a string; every string but these two is `other`.
pub data TieBreak : Type 0 where
  earliest_submission split other : TieBreak

pub record Exclusions : Type 0 where
  pub version : ℕ
  pub jurisdictions : List Text

pub record Player : Type 0 where
  pub id : Text
  pub jurisdiction : Text
  pub age : ℕ

pub record Rules : Type 0 where
  pub entry_fee : ℕ
  pub rake_bps : ℕ
  pub prize_bps : List ℕ
  pub min_entrants : ℕ
  pub max_entrants : ℕ
  pub max_score : ℕ
  pub min_age : ℕ
  pub tie_break : TieBreak
  pub exclusions : Exclusions
  pub game : Text

pub record Entry : Type 0 where
  pub player : Player
  pub join_seq : ℕ
  pub exclusion_version : ℕ
  pub scored : Bool
  pub score : ℕ
  pub submit_seq : ℕ
  pub input_digest : List ℕ

pub record Standing : Type 0 where
  pub place : ℕ
  pub player : Text
  pub score : ℕ
  pub scored : Bool
  pub submit_seq : ℕ

pub record Payout : Type 0 where
  pub player : Text
  pub place : ℕ
  pub amount : ℕ
  pub withheld : Bool
  pub reason : Text
  pub exclusion_version : ℕ
  pub key : Text

pub record Tournament : Type 0 where
  pub id : Text
  pub seed : ℕ
  pub rules : Rules
  pub status : Status
  pub entries : List Entry
  pub fees : ℕ
  pub rake : ℕ
  pub pool : ℕ
  pub standings : List Standing
  pub payouts : List Payout
  pub created_at : Slot
  pub closed_at : Slot
  pub settled_at : Slot
  pub ballot : Ballot

unfoldable pub count_scored : List Entry → ℕ
count_scored [] = 0
count_scored (e ∷ es) = if e.scored then suc (count_scored es) else count_scored es

-- `ScoredCount`.
abbrev pub scored_count : Tournament → ℕ
scored_count t = count_scored t.entries

abbrev pub voids : Tournament → Bool
voids t = signed_less (scored_count t) t.rules.min_entrants

-- The search of `Tournament.Entry`.
unfoldable pub entry_of : Text → List Entry → Option Entry
entry_of id [] = none
entry_of id (e ∷ es) = if same_text e.player.id id then some e else entry_of id es

unfoldable pub is_excluded : Text → List Text → Bool
is_excluded j [] = false
is_excluded j (x ∷ xs) = same_text x j || is_excluded j xs
