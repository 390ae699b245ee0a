-- ===== src/Tournament/Moving.antt =====
-- Playing rounds and claiming payouts let the state evolve.
use paxos_arena.Prelude.{
  ℕ, ◌≡◌, refl, ap, ◌∙◌, inl, inr, true, false, not, none, some, [], ◌∷◌, length, if_ind,
  Bool-cases, Option-cases, Sum-cases, Text, find,
}
use paxos_arena.Paxos.{Slot, Ballot}
use paxos_arena.Game.{Board, FinishReason}
use paxos_arena.Game.Rules.{round_end}
use paxos_arena.Ledger.Book.{post, post_all}
use paxos_arena.Tournament.{Tournament}
use paxos_arena.Tournament.Commands.{StartRound, PlayMove, FinishRound, ClaimPayout, PlayOutcome}
use paxos_arena.Tournament.State.{
  State, Host, RoundRecord, save_tournament, with_book, keep_round, is_done,
}
use paxos_arena.Tournament.Events.{record_event}
use paxos_arena.Tournament.Entries.{is_open}
use paxos_arena.Tournament.Rounds.{finish_round, expired_or}
use paxos_arena.Tournament.Play.{outcome_of}
use paxos_arena.Tournament.Moves.{
  start_check, start_event, new_round, start_checked, start_round, round_for, move_check,
  moved_board, with_move, accept_move, move_checked, play_move, finish_checked, finish_command,
}
use paxos_arena.Tournament.Claims.{
  claim_check, claim_posting, was_appended, claim_event, sum_claimable, claim_checked, claim_payout,
}
use paxos_arena.Tournament.Growth.{
  Evolves, Evolves-refl, Evolves-trans, Evolves-quiet, IsQuiet, IsQuiet-refl, IsQuiet-trans,
  save_tournament-Evolves, with_book-Evolves,
}
use paxos_arena.Tournament.Quiet.{
  record_event-IsQuiet, keep_round-IsQuiet, Keeps, finish_round-Keeps,
}
use paxos_arena.Tournament.Steps.{EvolvesTo}
use paxos_arena.Tournament.Playing.{HandlesPlayer, after_sequenced-Evolves}

start_checked-handles :
    (slot : Slot) (op : StartRound) → HandlesPlayer op.player op.tournament (start_checked slot op)
unfolding start_checked
start_checked-handles slot op ps t s there found = elim (Option-cases (start_check op t s)) [
  | inr (c, e) ↦ rw (e, start_checked) (Evolves-refl s)
  | inl e ↦
      let rec = new_round slot op t s.clock in
      let s1 = keep_round rec s in
      let s2 = record_event (start_event slot op t) s1 in
      rw (e, start_checked)
        (Evolves-quiet s s2 (
          IsQuiet-trans s s1 s2 (keep_round-IsQuiet rec s)
            (record_event-IsQuiet (start_event slot op t) s1)))
]

pub start_round-Evolves :
    (slot : Slot) (op : StartRound) (s : State) → Evolves s (start_round slot op s).0
unfolding start_round
start_round-Evolves slot op s =
    after_sequenced-Evolves op.player op.seq op.tournament s (start_checked slot op)
      (start_checked-handles slot op)

-- A round that is finished, with the tournament put back.
finished-Evolves :
    (tid : Text) (t : Tournament) (s s1 : State) (r : State × Tournament)
    → find tid s.tournaments ≡ some t
    → IsQuiet s s1
    → Keeps s1 t r
    → Evolves s (save_tournament tid r.1 r.0)
finished-Evolves tid t s s1 r found q k =
    let quiet = IsQuiet-trans s s1 r.0 q k.quiet in
    Evolves-trans s r.0 (save_tournament tid r.1 r.0) (Evolves-quiet s r.0 quiet)
      (save_tournament-Evolves tid t r.1 r.0 (ap (find tid) quiet.tournaments_same ∙ found) k.later)

accept_move-Evolves :
    (h : Host) (slot : Slot) (op : PlayMove) (out : PlayOutcome) (t : Tournament)
    (rec : RoundRecord) (i : ℕ) (board : Board) (s : State)
    → find op.tournament s.tournaments ≡ some t
    → is_open t.status ≡ true
    → Evolves s (accept_move h slot op out t rec i board s).0
unfolding accept_move
accept_move-Evolves h slot op out t rec i board s found live =
    let rec' = with_move slot op rec in
    let s1 = keep_round rec' s in
    elim (Option-cases (round_end board)) [
      | inl e ↦ rw (e, accept_move) (Evolves-quiet s s1 (keep_round-IsQuiet rec' s))
      | inr (reason, e) ↦
          rw (e, accept_move)
            (finished-Evolves op.tournament t s s1
              (finish_round h slot i rec' (some board) reason false s1 t) found
              (keep_round-IsQuiet rec' s)
              (finish_round-Keeps h slot i rec' (some board) reason false s1 t live))
    ]

move_checked-handles :
    (h : Host) (slot : Slot) (op : PlayMove)
    → HandlesPlayer op.player op.tournament (move_checked h slot op)
unfolding move_checked
move_checked-handles h slot op ps t s there found = elim (Bool-cases (is_open t.status)) [
  | inr shut ↦ rw (shut, move_checked) (Evolves-refl s)
  | inl live ↦ elim (Sum-cases (round_for t op.player op.round s)) [
    | inl (c, e) ↦ rw (live, move_checked) (rw e (Evolves-refl s))
    | inr ((rec, i), e) ↦
        rw (live, move_checked)
          (rw e (elim (Option-cases (move_check op rec s)) [
            | inr (c, d) ↦ rw d (Evolves-refl s)
            | inl d ↦ rw d (elim (Option-cases (moved_board h op rec)) [
              | inl c ↦ rw c (Evolves-refl s)
              | inr (board, c) ↦
                  rw c (accept_move-Evolves h slot op (moved_out rec) t rec i board s found live)
            ])
          ]))
  ]
]
  where
    moved_out : RoundRecord → PlayOutcome
    moved_out rec = record (outcome_of op.player ps) {
      round = op.round;
      move_index = length rec.moves;
    }

pub play_move-Evolves :
    (h : Host) (slot : Slot) (op : PlayMove) (s : State) → Evolves s (play_move h slot op s).0
unfolding play_move
play_move-Evolves h slot op s =
    after_sequenced-Evolves op.player op.seq op.tournament s (move_checked h slot op)
      (move_checked-handles h slot op)

finish_checked-handles :
    (h : Host) (slot : Slot) (op : FinishRound)
    → HandlesPlayer op.player op.tournament (finish_checked h slot op)
unfolding finish_checked
finish_checked-handles h slot op ps t s there found =
    elim (Sum-cases (round_for t op.player op.round s)) [
      | inl (c, e) ↦ rw (e, finish_checked) (Evolves-refl s)
      | inr ((rec, i), e) ↦
          rw (e, finish_checked)
            (if_ind (EvolvesTo s) (is_done rec.status) (λ d. Evolves-refl s)
              (λ d. elim (Bool-cases (is_open t.status)) [
                | inr shut ↦ rw shut (Evolves-refl s)
                | inl live ↦
                    let reason = expired_or FinishReason.resigned rec s in
                    rw live (
                      finished-Evolves op.tournament t s s
                        (finish_round h slot i rec none reason false s t) found (IsQuiet-refl s)
                        (finish_round-Keeps h slot i rec none reason false s t live))
              ]))
    ]

pub finish_command-Evolves :
    (h : Host) (slot : Slot) (op : FinishRound) (s : State)
    → Evolves s (finish_command h slot op s).0
unfolding finish_command
finish_command-Evolves h slot op s =
    after_sequenced-Evolves op.player op.seq op.tournament s (finish_checked h slot op)
      (finish_checked-handles h slot op)

claim_checked-handles :
    (slot : Slot) (ballot : Ballot) (op : ClaimPayout)
    → HandlesPlayer op.player op.tournament (claim_checked slot ballot op)
unfolding claim_checked post_all
claim_checked-handles slot ballot op ps t s there found =
    elim (Option-cases (claim_check op t s.book)) [
      | inr (c, e) ↦ rw (e, claim_checked) (Evolves-refl s)
      | inl e ↦
          let p = claim_posting slot ballot op t in
          let s1 = with_book (post s.book p).0 s in
          let ev = claim_event slot op t (sum_claimable op.player t.payouts) in
          let booked = with_book-Evolves (post s.book p).0 (p ∷ []) s refl in
          rw (e, claim_checked)
            (if_ind (EvolvesTo s) (not (was_appended (post s.book p).2 (post s.book p).3))
              (λ d. booked)
              (λ d.
                Evolves-trans s s1 (record_event ev s1) booked
                  (Evolves-quiet s1 (record_event ev s1) (record_event-IsQuiet ev s1))))
    ]

pub claim_payout-Evolves :
    (slot : Slot) (ballot : Ballot) (op : ClaimPayout) (s : State)
    → Evolves s (claim_payout slot ballot op s).0
unfolding claim_payout
claim_payout-Evolves slot ballot op s =
    after_sequenced-Evolves op.player op.seq op.tournament s (claim_checked slot ballot op)
      (claim_checked-handles slot ballot op)
