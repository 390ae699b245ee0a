-- ===== src/Ledger.antt =====
-- internal/ledger/ledger.go: postings and the append-only book.
pub mod Book
pub mod Check
pub mod Sums
pub mod Index
pub mod Laws
pub mod Posts
pub mod Names
mod Tests
use paxos_arena.Prelude.{
  ℕ, ◌+◌, ◌-◌, ◌%◌, ◌^◌, Bool, true, false, not, ◌&&◌, ◌||◌, Option, none, some, List, [], ◌∷◌,
  if◌then◌else◌, ltb, leb, Text, same_text, find,
}
use paxos_arena.Paxos.{Slot, Ballot, zero_ballot}

-- An int64 in two's complement, as its residue modulo 2 ^ 64.
abbrev pub Money : Type 0
Money = ℕ

unfoldable pub add_money : Money → Money → Money
add_money a b = (a + b) % 2 ^ 64

unfoldable pub neg_money : Money → Money
neg_money a = 2 ^ 64 - a % 2 ^ 64

abbrev is_positive : Money → Bool
is_positive a = ltb 0 a && ltb a (2 ^ 63)

-- `Kind` is a uint8; `kindNames` has the six from EntryFee, 1, to Claim, 6.
abbrev known_kind : ℕ → Bool
known_kind k = leb 1 k && leb k 6

-- `Place` is an int, as its residue modulo 2 ^ 64.
pub record Posting : Type 0 where
  pub seq : ℕ
  pub key : Text
  pub kind : ℕ
  pub debit : Text
  pub credit : Text
  pub amount : Money
  pub tournament : Text
  pub player : Text
  pub place : ℕ
  pub exclusion_version : ℕ
  pub slot : Slot
  pub ballot : Ballot

abbrev pub zero_posting : Posting
zero_posting = record {
  seq = 0;
  key = [];
  kind = 0;
  debit = [];
  credit = [];
  amount = 0;
  tournament = [];
  player = [];
  place = 0;
  exclusion_version = 0;
  slot = 0;
  ballot = zero_ballot;
}

-- The errors of the package, with what their texts name.
pub data Problem : Type 0 where
  empty_key : Problem
  missing_account : Problem
  same_account : Text → Text → Problem
  bad_amount : Text → Money → Problem
  unknown_kind : Text → ℕ → Problem
  wrong_seq : ℕ → ℕ → Problem
  posted_twice : Text → Problem
  not_indexed : Text → ℕ → Problem
  index_size : ℕ → ℕ → Problem
  wrong_sum : Money → Problem
  wrong_balance : Text → Money → Money → Problem

-- `Validate`.
unfoldable pub validate : Posting → Option Problem
validate p =
    if same_text p.key []
    then some Problem.empty_key
    else if same_text p.debit [] || same_text p.credit []
    then some Problem.missing_account
    else if same_text p.debit p.credit
    then some (Problem.same_account p.key p.debit)
    else if not (is_positive p.amount)
    then some (Problem.bad_amount p.key p.amount)
    else if not (known_kind p.kind)
    then some (Problem.unknown_kind p.key p.kind)
    else none

-- A missing account has balance 0.
unfoldable pub amount_of : Text → List (Text × Money) → Money
amount_of a m = elim (find a m) [ none ↦ 0 | some v ↦ v ]
