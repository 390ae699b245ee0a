-- ===== src/Ledger/Sums.antt =====
-- Moving money keeps the sum of a table of balances.
use paxos_arena.Prelude.{
  ◌+◌, ◌%◌, ◌^◌, ◌<◌, ◌≡◌, refl, true, false, List, [], ◌∷◌, Text, same_text, put, Bool-cases, inl,
  inr, arith,
}
use paxos_arena.Ledger.{Money, Posting, add_money, neg_money, amount_of}
use paxos_arena.Ledger.Book.{bump, move_money}
use paxos_arena.Ledger.Check.{total}

amount_of_nil : (a : Text) → amount_of a [] ≡ 0
unfolding amount_of
amount_of_nil a = refl

amount_of_hit :
    (a j : Text) (w : Money) (m : List (Text × Money))
    → same_text j a ≡ true
    → amount_of a ((j, w) ∷ m) ≡ w
unfolding amount_of
amount_of_hit a j w m e = rw (e, amount_of) refl

amount_of_miss :
    (a j : Text) (w : Money) (m : List (Text × Money))
    → same_text j a ≡ false
    → amount_of a ((j, w) ∷ m) ≡ amount_of a m
unfolding amount_of
amount_of_miss a j w m e = rw (e, amount_of) refl

total_bound : (m : List (Text × Money)) → total m < 2 ^ 64
unfolding total add_money
total_bound [] = omega arith
total_bound ((j, w) ∷ m) = omega arith

-- What an entry gains is what the sum gains.
total-put :
    (a : Text) (v : Money) (m : List (Text × Money))
    → (total (put a v m) + amount_of a m) % 2 ^ 64 ≡ (v + total m) % 2 ^ 64
unfolding total add_money
total-put a v [] = rw (amount_of_nil a) (omega arith)
total-put a v ((j, w) ∷ m) = elim (Bool-cases (same_text j a)) [
  | inl e ↦ rw (amount_of_hit a j w m e) (rw e (omega arith))
  | inr e ↦ rw (amount_of_miss a j w m e) (rw e (omega (arith, total-put a v m)))
]

total-bump :
    (a : Text) (d : Money) (m : List (Text × Money)) → total (bump a d m) ≡ add_money (total m) d
unfolding bump add_money
total-bump a d m =
    let v = (amount_of a m + d) % 2 ^ 64 in
    omega (arith, total-put a v m, total_bound m, total_bound (put a v m))

pub total-move_money : (p : Posting) (m : List (Text × Money)) → total (move_money p m) ≡ total m
unfolding move_money add_money neg_money
total-move_money p m =
    let d = bump p.debit (neg_money p.amount) m in
    omega (
      arith,
      total-bump p.credit p.amount d,
      total-bump p.debit (neg_money p.amount) m,
      total_bound m,
    )
