-- ===== src/Tournament/Shares.antt =====
-- The payouts of a tournament add up to its pool.
use native.Mathlib.Nat.{mod-lt, div-add-mod, div-le_self, mul_comm}
use paxos_arena.Prelude.{
  ℕ, zero, suc, ◌+◌, ◌-◌, ◌*◌, ◌/◌, ◌%◌, ◌^◌, ◌≤◌, ◌<◌, ◌≡◌, refl, sym, ap, ◌∙◌, inl, inr, true,
  List, [], ◌∷◌, ◌++◌, length, if◌then◌else◌, if_ind, Bool-cases, Text, arith,
}
use paxos_arena.Ledger.{Money, add_money, neg_money}
use paxos_arena.Tournament.{Exclusions, Entry, Standing, Payout, Tournament, voids}
use paxos_arena.Tournament.Compute.{compute_pool, is_split}
use paxos_arena.Tournament.Money.{bps_lem, scale_bound, compute_pool_lem}
use paxos_arena.Tournament.Payouts.{
  refunds, share_rows, sum_shares, add_remainder, ties, tie_run, after_run, divide, split_groups,
  payout_rows, standings_of, prize_rows, compute_payouts,
}

-- Sums of naturals, which do not wrap around.
abbrev pub sum_of : List (Standing × Money) → ℕ
sum_of [] = 0
sum_of ((r, v) ∷ rows) = v + sum_of rows

abbrev pub sum_amounts : List Payout → ℕ
sum_amounts [] = 0
sum_amounts (p ∷ ps) = p.amount + sum_amounts ps

abbrev pub sum_points : List ℕ → ℕ
sum_points [] = 0
sum_points (b ∷ bs) = b + sum_points bs

times_suc : (a n : ℕ) → a * suc n ≡ a + a * n
times_suc a n = grind arith

times_add : (a b c : ℕ) → a * (b + c) ≡ a * b + a * c
times_add a b c = grind arith

share_bound :
    (pool : Money) (bs : List ℕ) (rows : List Standing)
    → pool < 2 ^ 63
    → sum_points bs ≤ 10000
    → 10000 * sum_of (share_rows pool bs rows) ≤ pool * sum_points bs
unfolding share_rows
share_bound pool [] rows small points = omega arith
share_bound pool (b ∷ bs) [] small points = omega arith
share_bound pool (b ∷ bs) (r ∷ rows) small points = omega (
  arith,
  bps_lem pool b small (omega arith),
  times_add pool b (sum_points bs),
  share_bound pool bs rows small (omega arith),
)

sum_shares_lem :
    (rows : List (Standing × Money)) → sum_of rows < 2 ^ 64 → sum_shares rows ≡ sum_of rows
unfolding sum_shares add_money
sum_shares_lem [] small = refl
sum_shares_lem ((r, v) ∷ rows) small = omega (arith, sum_shares_lem rows (omega arith))

sum_of-add_remainder :
    (pool : Money) (rows : List (Standing × Money))
    → pool < 2 ^ 63
    → sum_of rows ≤ pool
    → 0 < length rows
    → sum_of (add_remainder pool rows) ≡ pool
unfolding add_remainder add_money neg_money
sum_of-add_remainder pool [] small bound full = absurd (omega arith)
sum_of-add_remainder pool ((r, v) ∷ rows) small bound full =
    omega (arith, sum_shares_lem ((r, v) ∷ rows) (omega arith))

sum_of-append : (xs ys : List (Standing × Money)) → sum_of (xs ++ ys) ≡ sum_of xs + sum_of ys
sum_of-append [] ys = omega arith
sum_of-append ((r, v) ∷ xs) ys = omega (arith, sum_of-append xs ys)

sum_of-run :
    (r : Standing) (rows : List (Standing × Money))
    → sum_of (tie_run r rows) + sum_of (after_run r rows) ≡ sum_of rows
unfolding tie_run after_run
sum_of-run r [] = refl
sum_of-run r ((q, v) ∷ rows) = elim (Bool-cases (ties r q)) [
  | inl e ↦ rw e (omega (arith, sum_of-run r rows))
  | inr e ↦ rw e (omega arith)
]

length-after_run :
    (r : Standing) (rows : List (Standing × Money)) → length (after_run r rows) ≤ length rows
unfolding after_run
length-after_run r [] = omega arith
length-after_run r ((q, v) ∷ rows) = elim (Bool-cases (ties r q)) [
  | inl e ↦ rw e (omega (arith, length-after_run r rows))
  | inr e ↦ rw e (omega arith)
]

sum_of-divide :
    (k : ℕ) (each rem : Money) (rows : List (Standing × Money))
    → each + 1 < 2 ^ 64
    → rem ≤ k + length rows
    → sum_of (divide k each rem rows) ≡ each * length rows + (rem - k)
unfolding divide
sum_of-divide k each rem [] small fits = omega arith
sum_of-divide k each rem ((r, v) ∷ rows) small fits =
    ground
      (arith, sum_of-divide (suc k) each rem rows small (omega arith), times_suc each (length rows))

-- A group is divided without a remainder left over.
sum_of-group :
    (r : Standing) (v : Money) (rows : List (Standing × Money))
    → let group = (r, v) ∷ rows in
      (total : Money)
      → total < 2 ^ 63
      → sum_of (divide 0 (total / length group) (total % length group) group) ≡ total
sum_of-group r v rows total small =
    let n = suc (length rows) in
    let low : total % n < n = mod-lt total (omega arith) in
    omega (
      arith,
      sum_of-divide 0 (total / n) (total % n) ((r, v) ∷ rows) (omega (arith, div-le_self total n))
          (omega (arith, low)),
      div-add-mod total n,
      mul_comm n (total / n),
    )

sum_of-split_groups :
    (fuel : ℕ) (rows : List (Standing × Money))
    → length rows ≤ fuel
    → sum_of rows < 2 ^ 63
    → sum_of (split_groups fuel rows) ≡ sum_of rows
unfolding split_groups
sum_of-split_groups zero [] enough small = refl
sum_of-split_groups zero (r ∷ rows) enough small = absurd (omega arith)
sum_of-split_groups (suc fuel) [] enough small = refl
sum_of-split_groups (suc fuel) ((r, v) ∷ rows) enough small =
    let run = tie_run r rows in
    let rest = after_run r rows in
    let group = (r, v) ∷ run in
    let total = sum_shares group in
    let parts = sum_of-run r rows in
    let whole : total ≡ sum_of group = sum_shares_lem group (omega (arith, parts)) in
    omega (
      arith,
      sum_of-append (divide 0 (total / length group) (total % length group) group)
          (split_groups fuel rest),
      sum_of-group r v run total (omega (arith, parts, whole)),
      sum_of-split_groups fuel rest (omega (arith, length-after_run r rows)) (omega (arith, parts)),
      parts,
      whole,
    )

sum_amounts-payout_rows :
    (tid : Text) (ex : Exclusions) (entries : List Entry) (rows : List (Standing × Money))
    → sum_amounts (payout_rows tid ex entries rows) ≡ sum_of rows
unfolding payout_rows
sum_amounts-payout_rows tid ex entries [] = refl
sum_amounts-payout_rows tid ex entries ((r, v) ∷ rows) =
    omega (arith, sum_amounts-payout_rows tid ex entries rows)

sum_amounts-refunds :
    (tid : Text) (fee version : ℕ) (es : List Entry)
    → sum_amounts (refunds tid fee version es) ≡ fee * length es
unfolding refunds
sum_amounts-refunds tid fee version [] = omega arith
sum_amounts-refunds tid fee version (e ∷ es) =
    omega (arith, sum_amounts-refunds tid fee version es, times_suc fee (length es))

length-share_rows :
    (pool : Money) (bs : List ℕ) (rows : List Standing)
    → 0 < length bs
    → 0 < length rows
    → 0 < length (share_rows pool bs rows)
unfolding share_rows
length-share_rows pool [] rows hb hr = absurd (omega arith)
length-share_rows pool (b ∷ bs) [] hb hr = absurd (omega arith)
length-share_rows pool (b ∷ bs) (r ∷ rows) hb hr = omega arith

sum_of-prize_rows :
    (t : Tournament)
    → (compute_pool t).2 < 2 ^ 63
    → sum_points t.rules.prize_bps ≤ 10000
    → 0 < length t.rules.prize_bps
    → 0 < length (standings_of t)
    → sum_of (prize_rows t) ≡ (compute_pool t).2
unfolding prize_rows
sum_of-prize_rows t small points paid ranked =
    let pool = (compute_pool t).2 in
    let bs = t.rules.prize_bps in
    let rows = share_rows pool bs (standings_of t) in
    let shares = add_remainder pool rows in
    let low : sum_of rows ≤ pool = omega (
      arith,
      share_bound pool bs (standings_of t) small points,
      scale_bound pool (sum_points bs) points,
    ) in
    let full : sum_of shares ≡ pool =
      sum_of-add_remainder pool rows small low
        (length-share_rows pool bs (standings_of t) paid ranked) in
    if_ind (λ rs. sum_of rs ≡ pool) (is_split t.rules.tie_break)
      (λ e. sum_of-split_groups (length shares) shares (omega arith) (omega (arith, full)) ∙ full)
      (λ e. full)

pool_small :
    (t : Tournament)
    → t.rules.rake_bps ≤ 10000
    → t.rules.entry_fee * length t.entries < 2 ^ 63
    → (compute_pool t).2 < 2 ^ 63
pool_small t rake fees =
    let (fee_sum, split, rake_sum) = compute_pool_lem t rake fees in omega (arith, fee_sum, split)

void_pool :
    (t : Tournament)
    → t.rules.rake_bps ≤ 10000
    → t.rules.entry_fee * length t.entries < 2 ^ 63
    → voids t ≡ true
    → (compute_pool t).2 ≡ t.rules.entry_fee * length t.entries
void_pool t rake fees void =
    let (fee_sum, split, rake_sum) = compute_pool_lem t rake fees in
    let no_rake : (compute_pool t).1 ≡ 0 =
      rake_sum ∙ ap (λ b. if b then 0 else (compute_pool t).0 * t.rules.rake_bps / 10000) void in
    omega (arith, fee_sum, split, no_rake)

-- With at most 10000 basis points of rake and of prizes, fees below 2 ^ 63, and at least one prize
-- place and one standing, the amounts of the payouts add up, without overflow, to the pool: to the
-- prizes under either tie break, and to all the fees when the tournament voids.
pub sum_amounts-compute_payouts :
    (t : Tournament) (ex : Exclusions)
    → t.rules.rake_bps ≤ 10000
    → t.rules.entry_fee * length t.entries < 2 ^ 63
    → sum_points t.rules.prize_bps ≤ 10000
    → 0 < length t.rules.prize_bps
    → 0 < length (standings_of t)
    → sum_amounts (compute_payouts t ex) ≡ (compute_pool t).2
unfolding compute_payouts
sum_amounts-compute_payouts t ex rake fees points paid ranked =
    let small : (compute_pool t).2 < 2 ^ 63 = pool_small t rake fees in
    if_ind (λ ps. sum_amounts ps ≡ (compute_pool t).2) (voids t)
      (λ e.
        sum_amounts-refunds t.id t.rules.entry_fee ex.version t.entries
        ∙ sym (void_pool t rake fees e))
      (λ e.
        sum_amounts-payout_rows t.id ex t.entries (prize_rows t)
        ∙ sum_of-prize_rows t small points paid ranked)
