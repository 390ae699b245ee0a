-- ===== src/Ledger/Check.antt =====
-- internal/ledger/ledger.go: CheckBalances and Check.
use paxos_arena.Prelude.{
  ℕ, suc, ◌+◌, ◌%◌, ◌^◌, ◌⊎◌, inl, inr, not, Option, none, some, List, [], ◌∷◌, length, ◌==◌,
  if◌then◌else◌, Text, text_less, same_text, find, put, has,
}
use paxos_arena.Ledger.{Money, Posting, Problem, validate, add_money, amount_of}
use paxos_arena.Ledger.Book.{Book, move_money}

-- The sum of `CheckBalances`.
unfoldable pub total : List (Text × Money) → Money
total [] = 0
total ((a, v) ∷ m) = add_money v (total m)

unfoldable pub check_balances : Book → Option Problem
check_balances b =
    if total b.balances == 0 then none else some (Problem.wrong_sum (total b.balances))

-- The loop of `Check` over the postings: the first problem, or the derived balances.
unfoldable pub check_from :
    ℕ
    → List Posting
    → List (Text × ℕ)
    → List (Text × Unit {0})
    → List (Text × Money)
    → Problem ⊎ List (Text × Money)
check_from i [] index seen derived = inr derived
check_from i (p ∷ ps) index seen derived =
    let rest = check_from (suc i) ps index (put p.key tt seen) (move_money p derived) in
    if not (p.seq == (i % 2 ^ 64 + 1) % 2 ^ 64)
    then inl (Problem.wrong_seq (i + 1) p.seq)
    else elim (validate p) [
      | some e ↦ inl e
      | none ↦
          if has p.key seen then inl (Problem.posted_twice p.key) else elim (find p.key index) [
            | none ↦ inl (Problem.not_indexed p.key (i + 1))
            | some j ↦ if j == i then rest else inl (Problem.not_indexed p.key (i + 1))
          ]
    ]

-- `sortedAccounts`: the accounts of both maps, each once, in order.
unfoldable pub add_account : Text → List Text → List Text
add_account a [] = a ∷ []
add_account a (b ∷ bs) =
    if same_text a b then b ∷ bs else if text_less a b then a ∷ b ∷ bs else b ∷ add_account a bs

unfoldable pub add_accounts : List (Text × Money) → List Text → List Text
add_accounts [] acc = acc
add_accounts ((a, v) ∷ m) acc = add_accounts m (add_account a acc)

unfoldable pub first_difference :
    List Text → List (Text × Money) → List (Text × Money) → Option Problem
first_difference [] m d = none
first_difference (a ∷ xs) m d =
    if amount_of a m == amount_of a d
    then first_difference xs m d
    else some (Problem.wrong_balance a (amount_of a m) (amount_of a d))

-- `Check`: none when the book is consistent.
unfoldable pub check : Book → Option Problem
unfolding check_balances
check b = elim (check_from 0 b.postings b.by_key [] []) [
  | inl e ↦ some e
  | inr derived ↦
      if not (length b.by_key == length b.postings)
      then some (Problem.index_size (length b.by_key) (length b.postings))
      else elim (check_balances b) [
        | some e ↦ some e
        | none ↦
            first_difference (add_accounts derived (add_accounts b.balances [])) b.balances derived
      ]
]
