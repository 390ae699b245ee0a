-- ===== src/Ledger/Tests.antt =====
-- A book with an entry fee, at which the theorems apply.
use paxos_arena.Prelude.{◌≡◌, refl, false, none, [], ◌∷◌, same_text, if◌then◌else◌}
use paxos_arena.Ledger.{Posting, zero_posting, validate, add_money, neg_money}
use paxos_arena.Ledger.Book.{new_book, post, post_all, balance}
use paxos_arena.Ledger.Check.{check}
use paxos_arena.Ledger.Laws.{check-post_all}
use paxos_arena.Ledger.Posts.{post_again, balance-post}

-- Account 112 pays 500 into account 80 under key 102.
abbrev fee : Posting
fee = record zero_posting {
  key = 102 ∷ [];
  kind = 1;
  debit = 112 ∷ [];
  credit = 80 ∷ [];
  amount = 500;
}

-- Another player's fee, and a retry of the first with another amount.
abbrev fee2 : Posting
fee2 = record fee { key = 103 ∷ []; debit = 113 ∷ [] }

abbrev retry : Posting
retry = record fee { amount = 900 }

fee_valid : validate fee ≡ none
unfolding validate
fee_valid = refl

retry_valid : validate retry ≡ none
unfolding validate
retry_valid = refl

check-post_all_example : check (post_all new_book (fee ∷ fee2 ∷ retry ∷ zero_posting ∷ [])) ≡ none
check-post_all_example = check-post_all (fee ∷ fee2 ∷ retry ∷ zero_posting ∷ [])

post_again_example :
    post (post new_book fee).0 retry ≡ ((post new_book fee).0, (post new_book fee).1, false, none)
post_again_example = post_again new_book fee retry fee_valid retry_valid refl

balance-post_example : balance (post new_book fee).0 (80 ∷ []) ≡ (
    if same_text (80 ∷ []) (80 ∷ [])
    then add_money (balance new_book (80 ∷ [])) 500
    else if same_text (112 ∷ []) (80 ∷ [])
    then add_money (balance new_book (80 ∷ [])) (neg_money 500)
    else balance new_book (80 ∷ []))
balance-post_example = balance-post new_book fee (80 ∷ []) fee_valid refl
