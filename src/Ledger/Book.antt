-- ===== src/Ledger/Book.antt =====
-- internal/ledger/ledger.go: Post and the readers of Book.
use paxos_arena.Prelude.{
  ℕ, zero, suc, ◌+◌, ◌%◌, ◌^◌, Bool, true, false, Option, none, some, List, [], ◌∷◌, ◌++◌, length,
  if◌then◌else◌, Text, same_text, find, put, has,
}
use paxos_arena.Ledger.{
  Money, Posting, zero_posting, Problem, validate, add_money, neg_money, amount_of,
}

pub record Book : Type 0 where
  pub postings : List Posting
  pub by_key : List (Text × ℕ)
  pub balances : List (Text × Money)

abbrev pub new_book : Book
new_book = record { postings = []; by_key = []; balances = [] }

-- `b.postings[i]`; an index out of range, which would panic, gives the zero value.
unfoldable pub at : ℕ → List Posting → Posting
at i [] = zero_posting
at zero (p ∷ ps) = p
at (suc i) (p ∷ ps) = at i ps

-- `balances[a] += d`.
unfoldable pub bump : Text → Money → List (Text × Money) → List (Text × Money)
bump a d m = put a (add_money (amount_of a m) d) m

unfoldable pub move_money : Posting → List (Text × Money) → List (Text × Money)
unfolding bump
move_money p m = bump p.credit p.amount (bump p.debit (neg_money p.amount) m)

unfoldable pub append_posting : Posting → Book → Book
unfolding move_money
append_posting p b = record {
  postings = b.postings ++ p ∷ [];
  by_key = put p.key (length b.postings) b.by_key;
  balances = move_money p b.balances;
}

abbrev pub numbered : Book → Posting → Posting
numbered b p = record p { seq = (length b.postings % 2 ^ 64 + 1) % 2 ^ 64 }

-- `Post`: the book, the posting, whether it was appended, and the error.
unfoldable pub post : Book → Posting → Book × Posting × Bool × Option Problem
unfolding append_posting at
post b p = elim (validate p) [
  | some e ↦ (b, zero_posting, false, some e)
  | none ↦ elim (find p.key b.by_key) [
    | some i ↦ (b, at i b.postings, false, none)
    | none ↦ (append_posting (numbered b p) b, numbered b p, true, none)
  ]
]

-- A book after a list of Post calls, from the first to the last.
unfoldable pub post_all : Book → List Posting → Book
post_all b [] = b
post_all b (p ∷ ps) = post_all (post b p).0 ps

unfoldable pub has_posting : Book → Text → Bool
has_posting b k = has k b.by_key

unfoldable pub get : Book → Text → Option Posting
unfolding at
get b k = elim (find k b.by_key) [ none ↦ none | some i ↦ some (at i b.postings) ]

unfoldable pub balance : Book → Text → Money
unfolding amount_of
balance b a = amount_of a b.balances

unfoldable pub drop : ℕ → List Posting → List Posting
drop i [] = []
drop zero (p ∷ ps) = p ∷ ps
drop (suc i) (p ∷ ps) = drop i ps

-- A negative argument is clamped to 0, so an argument here is a natural number.
unfoldable pub postings_since : Book → ℕ → List Posting
unfolding drop
postings_since b n = drop n b.postings

unfoldable pub of_tournament : Text → List Posting → List Posting
of_tournament id [] = []
of_tournament id (p ∷ ps) =
    if same_text p.tournament id then p ∷ of_tournament id ps else of_tournament id ps

unfoldable pub for_tournament : Book → Text → List Posting
unfolding of_tournament
for_tournament b id = of_tournament id b.postings
