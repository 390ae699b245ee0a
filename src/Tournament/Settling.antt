-- ===== src/Tournament/Settling.antt =====
-- Closing and settling let the state evolve.
use mathlib.Core.List.{append-nil}
use paxos_arena.Prelude.{
  ◌≡◌, refl, sym, ap, ◌∙◌, inl, inr, Bool, true, false, not, ◌&&◌, some, List, [], ◌∷◌,
  if◌then◌else◌, if_ind, Bool-cases, Option-cases, find,
}
use paxos_arena.Paxos.{Slot, Ballot}
use paxos_arena.Ledger.{Posting}
use paxos_arena.Ledger.Book.{post_all}
use paxos_arena.Tournament.{Status, Payout, Tournament, voids}
use paxos_arena.Tournament.Shapes.{valid_exclusions, canonical_exclusions}
use paxos_arena.Tournament.Payouts.{compute_payouts}
use paxos_arena.Tournament.Commands.{Close, Settle}
use paxos_arena.Tournament.State.{State, Host, save_tournament, with_book}
use paxos_arena.Tournament.Events.{record_event, record_status}
use paxos_arena.Tournament.Entries.{is_open, check_fresh}
use paxos_arena.Tournament.Rounds.{close_rounds}
use paxos_arena.Tournament.Closing.{
  is_play, is_closed, is_voided, closed_record, close_known, close, settle_postings, all_valid,
  is_payable, payout_event, announce, settled_record, settled, settle_known, settle,
}
use paxos_arena.Tournament.Growth.{
  IsLater, IsLater-trans, entrants, is_final, Evolves, Evolves-refl, Evolves-trans, Evolves-quiet,
  IsQuiet, IsQuiet-refl, IsQuiet-trans, save_tournament-Evolves,
}
use paxos_arena.Tournament.Quiet.{
  record_event-IsQuiet, record_status-IsQuiet, open-not_final, Keeps, Keeps-refl,
  close_rounds-Keeps,
}
use paxos_arena.Tournament.Steps.{EvolvesTo, save_both-Evolves}

voided_not_open : (b : Bool) → is_open (if b then Status.voided else Status.closed) ≡ false
voided_not_open true = refl
voided_not_open false = refl

closed_record-IsLater :
    (slot : Slot) (t : Tournament) → is_open t.status ≡ true → IsLater t (closed_record slot t)
unfolding closed_record
closed_record-IsLater slot t live = record {
  id_kept = refl;
  seed_kept = refl;
  rules_kept = refl;
  no_reopening = λ h. voided_not_open (voids t);
  frozen = λ h. absurd (open-not_final t.status live h);
  entrants_kept = ([], sym (append-nil (entrants t)));
  fair_kept = λ h. record { bounded = h.bounded; small = h.small; distinct = h.distinct };
}

rounds_closed :
    (h : Host) (slot : Slot) (t : Tournament) (s : State)
    → is_open t.status ≡ true
    → Keeps s t (if is_play t then close_rounds h slot s t else (s, t))
rounds_closed h slot t s live =
    if_ind (Keeps s t) (is_play t) (λ e. close_rounds-Keeps h slot s t live) (λ e. Keeps-refl s t)

close_known-Evolves :
    (h : Host) (slot : Slot) (op : Close) (t : Tournament) (s : State)
    → find op.tournament s.tournaments ≡ some t
    → Evolves s (close_known h slot op t s).0
unfolding close_known
close_known-Evolves h slot op t s there = elim (Bool-cases (is_open t.status)) [
  | inr shut ↦ rw shut (Evolves-refl s)
  | inl live ↦
      let made : State × Tournament = if is_play t then close_rounds h slot s t else (s, t) in
      let k : Keeps s t made = rounds_closed h slot t s live in
      let final = closed_record slot made.1 in
      let saved = save_tournament op.tournament final made.0 in
      let found : find op.tournament made.0.tournaments ≡ some t =
        ap (find op.tournament) k.quiet.tournaments_same ∙ there in
      let step : IsLater t final =
        IsLater-trans t made.1 final k.later
          (closed_record-IsLater slot made.1 (ap is_open k.status_same ∙ live)) in
      let evolved : Evolves s saved =
        Evolves-trans s made.0 saved (Evolves-quiet s made.0 k.quiet)
          (save_tournament-Evolves op.tournament t final made.0 found step) in
      let told : IsQuiet saved (if is_play t then record_status slot final saved else saved) =
        if_ind (IsQuiet saved) (is_play t) (λ e. record_status-IsQuiet slot final saved)
          (λ e. IsQuiet-refl saved) in
      rw (live, close_known) (Evolves-trans s saved _ evolved (Evolves-quiet saved _ told))
]

pub close-Evolves :
    (h : Host) (slot : Slot) (op : Close) (s : State) → Evolves s (close h slot op s).0
unfolding close
close-Evolves h slot op s = elim (Option-cases (find op.tournament s.tournaments)) [
  | inl d ↦ rw (d, close) (Evolves-refl s)
  | inr (t, d) ↦ rw (d, close) (close_known-Evolves h slot op t s d)
]

announce-IsQuiet :
    (slot : Slot) (t : Tournament) (ps : List Payout) (s : State) → IsQuiet s (announce slot t ps s)
unfolding announce
announce-IsQuiet slot t [] s = IsQuiet-refl s
announce-IsQuiet slot t (p ∷ ps) s =
    let told = if is_payable p then record_event (payout_event slot t p) s else s in
    let q : IsQuiet s told =
      if_ind (IsQuiet s) (is_payable p) (λ e. record_event-IsQuiet (payout_event slot t p) s)
        (λ e. IsQuiet-refl s) in
    IsQuiet-trans s told (announce slot t ps told) q (announce-IsQuiet slot t ps told)

closed-not_final :
    (x : Status)
    → (not (is_closed x) && not (is_voided x)) ≡ false
    → (is_final x ≡ false) × (is_open x ≡ false)
closed-not_final Status.opened h = cc
closed-not_final Status.closed h = (refl, refl)
closed-not_final Status.voided h = (refl, refl)
closed-not_final Status.settled h = cc

settled_record-IsLater :
    (slot : Slot) (ballot : Ballot) (ps : List Payout) (t : Tournament)
    → is_final t.status ≡ false
    → IsLater t (settled_record slot ballot ps t)
unfolding settled_record
settled_record-IsLater slot ballot ps t live = record {
  id_kept = refl;
  seed_kept = refl;
  rules_kept = refl;
  no_reopening = λ h. refl;
  frozen = λ h. absurd (cc (sym live ∙ h));
  entrants_kept = ([], sym (append-nil (entrants t)));
  fair_kept = λ h. record { bounded = h.bounded; small = h.small; distinct = h.distinct };
}

settled-Evolves :
    (slot : Slot) (ballot : Ballot) (op : Settle) (t : Tournament) (payouts : List Payout)
    (ps : List Posting) (s : State)
    → find op.tournament s.tournaments ≡ some t
    → is_final t.status ≡ false
    → Evolves s (settled slot ballot op t payouts ps s)
unfolding settled
settled-Evolves slot ballot op t payouts ps s there live =
    let t' = settled_record slot ballot payouts t in
    let s' = save_tournament op.tournament t' (with_book (post_all s.book ps) s) in
    let told = record_status slot t' s' in
    let evolved =
      save_both-Evolves op.tournament t t' (post_all s.book ps) s there
        (settled_record-IsLater slot ballot payouts t live) (ps, refl) in
    if_ind (Evolves s) (is_play t)
      (λ e. Evolves-trans s s' (announce slot t' payouts told) evolved (
        Evolves-quiet s' (announce slot t' payouts told) (
          IsQuiet-trans s' told (announce slot t' payouts told) (record_status-IsQuiet slot t' s')
            (announce-IsQuiet slot t' payouts told))))
      (λ e. evolved)

settle_known-Evolves :
    (slot : Slot) (ballot : Ballot) (op : Settle) (t : Tournament) (s : State)
    → find op.tournament s.tournaments ≡ some t
    → Evolves s (settle_known slot ballot op t s).0
unfolding settle_known
settle_known-Evolves slot ballot op t s there =
    let ex = canonical_exclusions op.exclusions in
    let payouts = compute_payouts t ex in
    let ps = settle_postings slot ballot ex t payouts in
    if_ind (EvolvesTo s) (not (is_closed t.status) && not (is_voided t.status))
      (λ e. Evolves-refl s)
      (λ shut.
        if_ind (EvolvesTo s) (not (all_valid ps)) (λ e. Evolves-refl s)
          (λ e.
            if_ind (EvolvesTo s) (not (check_fresh s.book [] ps)) (λ d. Evolves-refl s)
              (λ d.
                settled-Evolves slot ballot op t payouts ps s there
                  (closed-not_final t.status shut).0)))

pub settle-Evolves :
    (slot : Slot) (ballot : Ballot) (op : Settle) (s : State)
    → Evolves s (settle slot ballot op s).0
unfolding settle
settle-Evolves slot ballot op s =
    if_ind (EvolvesTo s) (not (valid_exclusions op.exclusions)) (λ e. Evolves-refl s)
      (λ e. elim (Option-cases (find op.tournament s.tournaments)) [
        | inl d ↦ rw d (Evolves-refl s)
        | inr (t, d) ↦ rw d (settle_known-Evolves slot ballot op t s d)
      ])
