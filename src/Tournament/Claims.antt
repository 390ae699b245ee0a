-- ===== src/Tournament/Claims.antt =====
-- internal/tournament/play_state.go: claiming a payout.
use paxos_arena.Prelude.{
  Bool, true, false, not, ◌&&◌, Option, none, some, List, [], ◌∷◌, if◌then◌else◌, Text, same_text,
  signed_less,
}
use paxos_arena.Paxos.{Slot, Ballot}
use paxos_arena.Ledger.{Money, Posting, Problem, zero_posting, add_money}
use paxos_arena.Ledger.Book.{Book, post, has_posting}
use paxos_arena.Ledger.Names.{claim_key, player_account, claims_account, claim_kind}
use paxos_arena.Tournament.{Status, Payout, Tournament}
use paxos_arena.Tournament.Commands.{ClaimPayout, Code, Result, play_result}
use paxos_arena.Tournament.State.{State, PlayerState, EventRecord, EventType, with_book}
use paxos_arena.Tournament.Events.{no_event, record_event}
use paxos_arena.Tournament.Entries.{has_entry}
use paxos_arena.Tournament.Play.{outcome_of, after_sequenced}

-- `ClaimableAmount`.
unfoldable pub sum_claimable : Text → List Payout → Money
unfolding add_money
sum_claimable pid [] = 0
sum_claimable pid (p ∷ ps) =
    if same_text p.player pid && not p.withheld
    then add_money p.amount (sum_claimable pid ps)
    else sum_claimable pid ps

abbrev pub is_settled : Status → Bool
is_settled Status.settled = true
is_settled _ = false

-- The rules of `claimPayout` after those of `sequenced`.
unfoldable pub claim_check : ClaimPayout → Tournament → Book → Option Code
unfolding sum_claimable claim_key has_posting
claim_check op t book =
    if not (has_entry op.player t.entries)
    then some Code.not_joined
    else if not (is_settled t.status)
    then some Code.not_settled
    else if not (signed_less 0 (sum_claimable op.player t.payouts))
    then some Code.no_payout
    else if has_posting book (claim_key t.id op.player)
    then some Code.already_claimed
    else none

unfoldable pub claim_posting : Slot → Ballot → ClaimPayout → Tournament → Posting
unfolding sum_claimable claim_key player_account claims_account
claim_posting slot ballot op t = record zero_posting {
  key = claim_key t.id op.player;
  kind = claim_kind;
  debit = player_account op.player;
  credit = claims_account t.id;
  amount = sum_claimable op.player t.payouts;
  tournament = t.id;
  player = op.player;
  slot = slot;
  ballot = ballot;
}

abbrev pub was_appended : Bool → Option Problem → Bool
was_appended posted none = posted
was_appended posted (some e) = false

abbrev pub claim_event : Slot → ClaimPayout → Tournament → Money → EventRecord
claim_event slot op t amount = record no_event {
  slot = slot;
  type = EventType.payout_claimed;
  tournament = t.id;
  player = op.player;
  amount = amount;
}

unfoldable pub claim_checked :
    Slot → Ballot → ClaimPayout → PlayerState → Tournament → State → State × Result
unfolding claim_check claim_posting post with_book record_event sum_claimable
claim_checked slot ballot op ps t s =
    let out = outcome_of op.player ps in
    elim (claim_check op t s.book) [
      | some c ↦ (s, play_result c out)
      | none ↦
          let amount = sum_claimable op.player t.payouts in
          let (book, p, posted, problem) = post s.book (claim_posting slot ballot op t) in
          let s' = with_book book s in
          if not (was_appended posted problem)
          then (s', play_result Code.ledger_conflict out)
          else (
            record_event (claim_event slot op t amount) s',
            play_result Code.ok_code (record out { amount = amount }),
          )
    ]

-- `claimPayout`.
unfoldable pub claim_payout : Slot → Ballot → ClaimPayout → State → State × Result
unfolding after_sequenced claim_checked
claim_payout slot ballot op =
    after_sequenced op.player op.seq op.tournament (claim_checked slot ballot op)
