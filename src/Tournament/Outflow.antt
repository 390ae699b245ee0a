-- ===== src/Tournament/Outflow.antt =====
-- What the postings of a settlement take out of the pool account.
use paxos_arena.Prelude.{
  ℕ, ◌+◌, ◌*◌, ◌/◌, ◌^◌, ◌<◌, ◌≤◌, ◌≡◌, refl, sym, ap, ◌∙◌, inl, inr, true, false, List, [], ◌∷◌,
  ◌++◌, length, if_ind, if◌then◌else◌, Bool-cases, Text, same_text, same_text_refl, signed_less,
  arith,
}
use paxos_arena.Paxos.{Slot, Ballot}
use paxos_arena.Ledger.{Posting}
use paxos_arena.Ledger.Names.{pool_account}
use paxos_arena.Tournament.{Status, Exclusions, Payout, Tournament, voids}
use paxos_arena.Tournament.Compute.{compute_pool}
use paxos_arena.Tournament.Payouts.{standings_of, compute_payouts}
use paxos_arena.Tournament.Money.{compute_pool_lem}
use paxos_arena.Tournament.Shares.{sum_amounts, sum_points, sum_amounts-compute_payouts}
use paxos_arena.Tournament.Closing.{
  is_closed, closed_record, rake_postings, payout_posting, payout_postings, settle_postings,
}

-- The money that postings take out of an account.
abbrev pub taken : Text → List Posting → ℕ
taken a [] = 0
taken a (p ∷ ps) = if same_text p.debit a then p.amount + taken a ps else taken a ps

taken-append : (a : Text) (ps qs : List Posting) → taken a (ps ++ qs) ≡ taken a ps + taken a qs
taken-append a [] qs = omega arith
taken-append a (p ∷ ps) qs = ground (arith, taken-append a ps qs)

taken-cons :
    (a : Text) (p : Posting) (ps : List Posting)
    → p.debit ≡ a
    → taken a (p ∷ ps) ≡ p.amount + taken a ps
taken-cons a p ps e =
    let same : same_text p.debit a ≡ true = ap (λ d. same_text d a) e ∙ same_text_refl a in
    rw same refl

payout_posting_lem :
    (slot : Slot) (ballot : Ballot) (ex : Exclusions) (t : Tournament) (p : Payout)
    → let q = payout_posting slot ballot ex t p in
      (q.debit ≡ pool_account t.id) × (q.amount ≡ p.amount)
unfolding payout_posting
payout_posting_lem slot ballot ex t p = ground arith

taken-payout_postings :
    (slot : Slot) (ballot : Ballot) (ex : Exclusions) (t : Tournament) (ps : List Payout)
    → sum_amounts ps < 2 ^ 63
    → taken (pool_account t.id) (payout_postings slot ballot ex t ps) ≡ sum_amounts ps
unfolding payout_postings
taken-payout_postings slot ballot ex t [] small = refl
taken-payout_postings slot ballot ex t (p ∷ ps) small =
    let rest = taken-payout_postings slot ballot ex t ps (omega arith) in
    let q = payout_posting slot ballot ex t p in
    let (from_pool, whole) = payout_posting_lem slot ballot ex t p in
    let tail = payout_postings slot ballot ex t ps in
    let head = taken-cons (pool_account t.id) q tail from_pool in
    if_ind (λ qs. taken (pool_account t.id) qs ≡ p.amount + sum_amounts ps) (signed_less 0 p.amount)
      (λ pays. omega (arith, head, whole, rest))
      (λ free.
        let none_left : p.amount ≡ 0 = ground (arith, small) in omega (arith, none_left, rest))

taken-rake_postings :
    (slot : Slot) (ballot : Ballot) (ex : Exclusions) (t : Tournament)
    → t.rake < 2 ^ 63
    → is_closed t.status ≡ true
    → taken (pool_account t.id) (rake_postings slot ballot ex t) ≡ t.rake
unfolding rake_postings
taken-rake_postings slot ballot ex t small shut = elim (Bool-cases (signed_less 0 t.rake)) [
  | inl pays ↦
      rw (shut, rake_postings) (rw pays (rw (same_text_refl (pool_account t.id)) (omega arith)))
  | inr free ↦
      let none_left : 0 ≡ t.rake = ground (arith, small) in
      rw (shut, rake_postings) (rw free none_left)
]

rake_postings-open :
    (slot : Slot) (ballot : Ballot) (ex : Exclusions) (t : Tournament)
    → is_closed t.status ≡ false
    → rake_postings slot ballot ex t ≡ []
unfolding rake_postings
rake_postings-open slot ballot ex t open_yet = rw (open_yet, rake_postings) refl

-- The figures that closing fixes.
closed_rake :
    (slot : Slot) (t : Tournament)
    → t.rules.rake_bps ≤ 10000
    → t.rules.entry_fee * length t.entries < 2 ^ 63
    → (slot' : Slot) (ballot : Ballot) (ex : Exclusions)
    → taken (pool_account t.id) (rake_postings slot' ballot ex (closed_record slot t))
      ≡ (compute_pool t).1
unfolding closed_record
closed_rake slot t rake fees slot' ballot ex =
    let u = closed_record slot t in
    let (fee_sum, split, rake_sum) = compute_pool_lem t rake fees in
    elim (Bool-cases (voids t)) [
      | inl void ↦
          let stays : is_closed u.status ≡ false =
            ap (λ b. is_closed (if b then Status.voided else Status.closed)) void in
          let no_rake : 0 ≡ (compute_pool t).1 = sym (
            rake_sum
            ∙ ap (λ b. if b then 0 else (compute_pool t).0 * t.rules.rake_bps / 10000) void) in
          ap (taken (pool_account t.id)) (rake_postings-open slot' ballot ex u stays) ∙ no_rake
      | inr held ↦
          let shut : is_closed u.status ≡ true =
            ap (λ b. is_closed (if b then Status.voided else Status.closed)) held in
          taken-rake_postings slot' ballot ex u (omega (arith, fee_sum, split)) shut
    ]

-- With at most 10000 basis points of rake and of prizes, fees below 2 ^ 63, and at least one prize
-- place and one standing, the postings that settle a tournament, as closing left it, take from its
-- pool account one entry fee per entry: all that its entrants paid in.
pub taken-settle_postings :
    (t : Tournament) (closed_in slot : Slot) (ballot : Ballot) (ex : Exclusions)
    → t.rules.rake_bps ≤ 10000
    → t.rules.entry_fee * length t.entries < 2 ^ 63
    → sum_points t.rules.prize_bps ≤ 10000
    → 0 < length t.rules.prize_bps
    → 0 < length (standings_of (closed_record closed_in t))
    → let u = closed_record closed_in t in
      taken (pool_account t.id) (settle_postings slot ballot ex u (compute_payouts u ex))
      ≡ t.rules.entry_fee * length t.entries
unfolding closed_record settle_postings compute_pool
taken-settle_postings t closed_in slot ballot ex rake fees points paid ranked =
    let u = closed_record closed_in t in
    let (fee_sum, split, rake_sum) = compute_pool_lem t rake fees in
    let sum : sum_amounts (compute_payouts u ex) ≡ (compute_pool t).2 =
      sum_amounts-compute_payouts u ex rake fees points paid ranked in
    let payouts = compute_payouts u ex in
    let ps = rake_postings slot ballot ex u in
    let qs = payout_postings slot ballot ex u payouts in
    omega (
      arith,
      taken-append (pool_account t.id) ps qs,
      closed_rake closed_in t rake fees slot ballot ex,
      taken-payout_postings slot ballot ex u payouts (omega (arith, sum, fee_sum, split)),
      sum,
      fee_sum,
      split,
    )
