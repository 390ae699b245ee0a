-- ===== src/Tournament/Closing.antt =====
-- internal/tournament/state.go: closing and settling a tournament.
use paxos_arena.Prelude.{
  Bool, true, false, not, ◌&&◌, none, some, List, [], ◌∷◌, ◌++◌, if◌then◌else◌, same_text, find,
  signed_less,
}
use paxos_arena.Paxos.{Slot, Ballot}
use paxos_arena.Ledger.{Posting, zero_posting, validate}
use paxos_arena.Ledger.Book.{post_all}
use paxos_arena.Ledger.Names.{
  player_account, pool_account, rake_account, withheld_account, rake_key, rake_kind, prize_kind,
  withheld_kind, refund_kind,
}
use paxos_arena.Tournament.{Status, Exclusions, Payout, Tournament, voids}
use paxos_arena.Tournament.Compute.{compute_pool, compute_standings}
use paxos_arena.Tournament.Payouts.{compute_payouts}
use paxos_arena.Tournament.Shapes.{valid_exclusions, canonical_exclusions}
use paxos_arena.Tournament.Commands.{Close, Settle, Code, Result, plain_result}
use paxos_arena.Tournament.State.{State, Host, EventRecord, EventType, save_tournament, with_book}
use paxos_arena.Tournament.Events.{no_event, record_event, record_status}
use paxos_arena.Tournament.Entries.{is_open, check_fresh}
use paxos_arena.Tournament.Rounds.{close_rounds}

abbrev pub is_play : Tournament → Bool
is_play t = not (same_text t.rules.game [])

-- The record after `close` fixed standings, money and status.
unfoldable pub closed_record : Slot → Tournament → Tournament
unfolding compute_standings compute_pool
closed_record slot t =
    let (fees, rake, pool) = compute_pool t in
    record t {
      standings = compute_standings t;
      fees = fees;
      rake = rake;
      pool = pool;
      closed_at = slot;
      status = if voids t then Status.voided else Status.closed;
    }

unfoldable pub close_known : Host → Slot → Close → Tournament → State → State × Result
unfolding close_rounds closed_record record_status save_tournament
close_known h slot op t s =
    if not (is_open t.status)
    then (s, plain_result Code.not_open)
    else let (s', t') = if is_play t then close_rounds h slot s t else (s, t) in
      let final = closed_record slot t' in
      let s'' = save_tournament op.tournament final s' in
      (if is_play t then record_status slot final s'' else s'', plain_result Code.ok_code)

-- `close`.
unfoldable pub close : Host → Slot → Close → State → State × Result
unfolding close_known
close h slot op s = elim (find op.tournament s.tournaments) [
  | none ↦ (s, plain_result Code.unknown_tournament)
  | some t ↦ close_known h slot op t s
]

abbrev pub is_closed : Status → Bool
is_closed Status.closed = true
is_closed _ = false

abbrev pub is_voided : Status → Bool
is_voided Status.voided = true
is_voided _ = false

unfoldable pub rake_postings : Slot → Ballot → Exclusions → Tournament → List Posting
unfolding rake_key pool_account rake_account
rake_postings slot ballot ex t =
    if is_closed t.status && signed_less 0 t.rake
    then record zero_posting {
      key = rake_key t.id;
      kind = rake_kind;
      debit = pool_account t.id;
      credit = rake_account t.id;
      amount = t.rake;
      tournament = t.id;
      exclusion_version = ex.version;
      slot = slot;
      ballot = ballot;
    }
      ∷ []
    else []

unfoldable pub payout_posting : Slot → Ballot → Exclusions → Tournament → Payout → Posting
unfolding pool_account player_account withheld_account
payout_posting slot ballot ex t p =
    let base : Posting = record zero_posting {
      key = p.key;
      debit = pool_account t.id;
      amount = p.amount;
      tournament = t.id;
      player = p.player;
      place = p.place;
      exclusion_version = ex.version;
      slot = slot;
      ballot = ballot;
    } in
    if is_voided t.status
    then record base { kind = refund_kind; credit = player_account p.player }
    else if p.withheld
    then record base { kind = withheld_kind; credit = withheld_account t.id }
    else record base { kind = prize_kind; credit = player_account p.player }

-- A share that is not positive is recorded but moves no money.
unfoldable pub payout_postings :
    Slot → Ballot → Exclusions → Tournament → List Payout → List Posting
unfolding payout_posting
payout_postings slot ballot ex t [] = []
payout_postings slot ballot ex t (p ∷ ps) =
    if signed_less 0 p.amount
    then payout_posting slot ballot ex t p ∷ payout_postings slot ballot ex t ps
    else payout_postings slot ballot ex t ps

unfoldable pub settle_postings :
    Slot → Ballot → Exclusions → Tournament → List Payout → List Posting
unfolding rake_postings payout_postings
settle_postings slot ballot ex t ps =
    rake_postings slot ballot ex t ++ payout_postings slot ballot ex t ps

unfoldable pub all_valid : List Posting → Bool
unfolding validate
all_valid [] = true
all_valid (p ∷ ps) = elim (validate p) [ some e ↦ false | none ↦ all_valid ps ]

abbrev pub payout_event : Slot → Tournament → Payout → EventRecord
payout_event slot t p = record no_event {
  slot = slot;
  type = EventType.payout_available;
  tournament = t.id;
  player = p.player;
  amount = p.amount;
}

abbrev pub is_payable : Payout → Bool
is_payable p = not p.withheld && signed_less 0 p.amount

unfoldable pub announce : Slot → Tournament → List Payout → State → State
unfolding record_event
announce slot t [] s = s
announce slot t (p ∷ ps) s =
    announce slot t ps (if is_payable p then record_event (payout_event slot t p) s else s)

unfoldable pub settled_record : Slot → Ballot → List Payout → Tournament → Tournament
settled_record slot ballot payouts t = record t {
  payouts = payouts;
  status = Status.settled;
  settled_at = slot;
  ballot = ballot;
}

-- The end of `settle`. It panics when a posting is not appended, which `post_all` does not model:
-- the tests before it leave no such posting.
unfoldable pub settled :
    Slot → Ballot → Settle → Tournament → List Payout → List Posting → State → State
unfolding post_all settled_record save_tournament with_book record_status announce
settled slot ballot op t payouts ps s =
    let t' = settled_record slot ballot payouts t in
    let s' = save_tournament op.tournament t' (with_book (post_all s.book ps) s) in
    if is_play t then announce slot t' payouts (record_status slot t' s') else s'

unfoldable pub settle_known : Slot → Ballot → Settle → Tournament → State → State × Result
unfolding canonical_exclusions compute_payouts settle_postings all_valid check_fresh settled
settle_known slot ballot op t s =
    if not (is_closed t.status) && not (is_voided t.status)
    then (s, plain_result Code.not_closed)
    else let ex = canonical_exclusions op.exclusions in
      let payouts = compute_payouts t ex in
      let ps = settle_postings slot ballot ex t payouts in
      if not (all_valid ps)
      then (s, plain_result Code.invalid_rules)
      else if not (check_fresh s.book [] ps)
      then (s, plain_result Code.ledger_conflict)
      else (settled slot ballot op t payouts ps s, plain_result Code.ok_code)

-- `settle`.
unfoldable pub settle : Slot → Ballot → Settle → State → State × Result
unfolding valid_exclusions settle_known
settle slot ballot op s =
    if not (valid_exclusions op.exclusions)
    then (s, plain_result Code.invalid_exclusions)
    else elim (find op.tournament s.tournaments) [
      | none ↦ (s, plain_result Code.unknown_tournament)
      | some t ↦ settle_known slot ballot op t s
    ]
