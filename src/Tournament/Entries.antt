-- ===== src/Tournament/Entries.antt =====
-- internal/tournament/state.go: creating a tournament, entering it and submitting a score. A
-- handler gives the state and the result.
use paxos_arena.Prelude.{
  ℕ, zero, suc, ◌+◌, ◌%◌, ◌^◌, Bool, true, false, not, ◌||◌, Option, none, some, List, [], ◌∷◌,
  ◌++◌, length, ◌==◌, if◌then◌else◌, Text, same_text, find, put, has, is_negative, signed_less,
}
use paxos_arena.Paxos.{Slot, Ballot, zero_ballot}
use paxos_arena.Ledger.{Posting, zero_posting}
use paxos_arena.Ledger.Book.{Book, post, has_posting}
use paxos_arena.Ledger.Names.{fee_key, player_account, pool_account, entry_fee_kind}
use paxos_arena.Tournament.{Status, Player, Entry, Tournament, entry_of, is_excluded, count_scored}
use paxos_arena.Tournament.Shapes.{valid_id, valid_rules, valid_player, canonical_exclusions}
use paxos_arena.Tournament.Commands.{
  CreateTournament, Join, SubmitScore, Code, Result, is_ok, plain_result,
}
use paxos_arena.Tournament.State.{State, save_tournament, with_book}

abbrev pub is_open : Status → Bool
is_open Status.opened = true
is_open _ = false

abbrev pub has_entry : Text → List Entry → Bool
has_entry id es = elim (entry_of id es) [ none ↦ false | some e ↦ true ]

-- `create`.
unfoldable pub create : Slot → CreateTournament → State → State × Result
unfolding valid_id valid_rules canonical_exclusions save_tournament
create slot op s =
    if not (valid_id op.id)
    then (s, plain_result Code.invalid_rules)
    else if not (valid_rules op.rules)
    then (s, plain_result Code.invalid_rules)
    else if has op.id s.tournaments
    then (s, plain_result Code.tournament_exists)
    else let rules = record op.rules { exclusions = canonical_exclusions op.rules.exclusions } in
      let t : Tournament = record {
        id = op.id;
        seed = op.seed;
        rules = rules;
        status = Status.opened;
        entries = [];
        fees = 0;
        rake = 0;
        pool = 0;
        standings = [];
        payouts = [];
        created_at = slot;
        closed_at = 0;
        settled_at = 0;
        ballot = zero_ballot;
      } in
      (
        save_tournament op.id t (record s { order = s.order ++ op.id ∷ [] }),
        plain_result Code.ok_code,
      )

-- `checkFresh`, with the keys seen so far; true when it reports no error.
unfoldable pub check_fresh : Book → List (Text × Unit {0}) → List Posting → Bool
unfolding has_posting
check_fresh book seen [] = true
check_fresh book seen (p ∷ ps) =
    if has_posting book p.key || has p.key seen
    then false
    else check_fresh book (put p.key tt seen) ps

unfoldable pub fee_posting : Slot → Ballot → Tournament → Player → Posting
unfolding fee_key player_account pool_account
fee_posting slot ballot t player = record zero_posting {
  key = fee_key t.id player.id;
  kind = entry_fee_kind;
  debit = player_account player.id;
  credit = pool_account t.id;
  amount = t.rules.entry_fee;
  tournament = t.id;
  player = player.id;
  exclusion_version = t.rules.exclusions.version;
  slot = slot;
  ballot = ballot;
}

unfoldable pub new_entry : Tournament → Player → Entry
new_entry t player = record {
  player = player;
  join_seq = (length t.entries + 1) % 2 ^ 32;
  exclusion_version = t.rules.exclusions.version;
  scored = false;
  score = 0;
  submit_seq = 0;
  input_digest = [];
}

-- The rules of `admit`: the first that refuses the player.
unfoldable pub admission : Tournament → Player → Option Code
unfolding is_excluded
admission t player =
    if not (is_open t.status)
    then some Code.not_open
    else if not (signed_less (length t.entries) t.rules.max_entrants)
    then some Code.tournament_full
    else if has_entry player.id t.entries
    then some Code.already_joined
    else if is_excluded player.jurisdiction t.rules.exclusions.jurisdictions
    then some Code.jurisdiction_excluded
    else if signed_less player.age t.rules.min_age
    then some Code.underage
    else none

-- The end of `admit`: the posting of the fee and the new entry.
unfoldable pub enter_paid : Tournament → Player → Posting → Book → Book × Tournament × Code
unfolding post new_entry
enter_paid t player fee book =
    let (book', p, posted, problem) = post book fee in
    elim problem [
      | some e ↦ (book', t, Code.invalid_rules)
      | none ↦
          if not posted
          then (book', t, Code.ledger_conflict)
          else (book', record t { entries = t.entries ++ new_entry t player ∷ [] }, Code.ok_code)
    ]

-- `admit`: the book, the tournament and the code.
unfoldable pub admit : Slot → Ballot → Tournament → Player → Book → Book × Tournament × Code
unfolding admission fee_posting check_fresh enter_paid
admit slot ballot t player book = elim (admission t player) [
  | some c ↦ (book, t, c)
  | none ↦
      let fee = fee_posting slot ballot t player in
      if check_fresh book [] (fee ∷ [])
      then enter_paid t player fee book
      else (book, t, Code.ledger_conflict)
]

-- `join`.
unfoldable pub join_known : Slot → Ballot → Join → Tournament → State → State × Result
unfolding admit save_tournament with_book
join_known slot ballot op t s =
    if not (same_text t.rules.game [])
    then (s, plain_result Code.play_intent_required)
    else let (book, t', c) = admit slot ballot t op.player s.book in
      (
        save_tournament op.tournament t' (with_book book s),
        record (plain_result c) { seed = if is_ok c then t.seed else 0 },
      )

unfoldable pub join : Slot → Ballot → Join → State → State × Result
unfolding valid_player join_known
join slot ballot op s =
    if not (valid_player op.player)
    then (s, plain_result Code.invalid_player)
    else elim (find op.tournament s.tournaments) [
      | none ↦ (s, plain_result Code.unknown_tournament)
      | some t ↦ join_known slot ballot op t s
    ]

-- The search for an entry's position, and an assignment to the entry at one.
unfoldable pub index_of : Text → List Entry → Option ℕ
index_of id [] = none
index_of id (e ∷ es) =
    if same_text e.player.id id
    then some 0
    else elim (index_of id es) [ none ↦ none | some i ↦ some (suc i) ]

unfoldable pub entry_at : ℕ → List Entry → Option Entry
entry_at i [] = none
entry_at zero (e ∷ es) = some e
entry_at (suc i) (e ∷ es) = entry_at i es

unfoldable pub change_at : ℕ → (Entry → Entry) → List Entry → List Entry
change_at i f [] = []
change_at zero f (e ∷ es) = f e ∷ es
change_at (suc i) f (e ∷ es) = e ∷ change_at i f es

-- Scored is set first, since the count of scored entries, which numbers this one, includes it.
unfoldable pub fix_score : ℕ → ℕ → Tournament → Tournament
unfolding change_at count_scored
fix_score i score t =
    let es = change_at i (λ e. record e { scored = true; score = score }) t.entries in
    let n = count_scored es % 2 ^ 32 in
    record t { entries = change_at i (λ e. record e { submit_seq = n }) es }

-- The rules of `score` from the entry on.
unfoldable pub score_check : Tournament → SubmitScore → Entry → Option Code
score_check t op e =
    if e.scored
    then some Code.already_scored
    else if not (op.deal_seed == t.seed)
    then some Code.seed_mismatch
    else if is_negative op.score || signed_less t.rules.max_score op.score
    then some Code.score_out_of_range
    else none

unfoldable pub score_at : SubmitScore → Tournament → ℕ → Entry → State → State × Result
unfolding score_check fix_score change_at save_tournament
score_at op t i e s = elim (score_check t op e) [
  | some c ↦ (s, plain_result c)
  | none ↦
      let t1 = fix_score i op.score t in
      let es = change_at i (λ d. record d { input_digest = op.input_digest }) t1.entries in
      (save_tournament op.tournament (record t1 { entries = es }) s, plain_result Code.ok_code)
]

unfoldable pub score_known : SubmitScore → Tournament → State → State × Result
unfolding index_of entry_at score_at
score_known op t s =
    if not (same_text t.rules.game [])
    then (s, plain_result Code.play_intent_required)
    else if not (is_open t.status)
    then (s, plain_result Code.not_open)
    else elim (index_of op.player t.entries) [
      | none ↦ (s, plain_result Code.not_joined)
      | some i ↦ elim (entry_at i t.entries) [
        | none ↦ (s, plain_result Code.not_joined)
        | some e ↦ score_at op t i e s
      ]
    ]

-- `score`.
unfoldable pub score : SubmitScore → State → State × Result
unfolding score_known
score op s = elim (find op.tournament s.tournaments) [
  | none ↦ (s, plain_result Code.unknown_tournament)
  | some t ↦ score_known op t s
]
