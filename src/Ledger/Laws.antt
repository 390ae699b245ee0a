-- ===== src/Ledger/Laws.antt =====
-- What a book promises: it is always consistent, and a key is posted once.
use mathlib.Core.Path.{subst}
use paxos_arena.Prelude.{
  ℕ, suc, ◌+◌, ◌≡◌, refl, sym, ◌∙◌, ap, inr, Bool, true, false, Option, none, some, List, [], ◌∷◌,
  ◌++◌, length, length-append, Text, find, put, has-find, length-put, ◌==◌, arith,
}
use paxos_arena.Ledger.{Money, Posting, Problem, validate, zero_posting}
use paxos_arena.Ledger.Book.{
  Book, new_book, at, move_money, append_posting, numbered, post, post_all,
}
use paxos_arena.Ledger.Check.{
  total, check_balances, check_from, first_difference, add_accounts, check,
}
use paxos_arena.Ledger.Sums.{total-move_money}
use paxos_arena.Ledger.Index.{Good, Good-append, derive, derive-append, check_from-Good}

-- The index, the balances and the numbers of a book are those of its postings.
pub record IsConsistent (b : Book) : Type 0 where
  pub good : Good 0 b.postings b.by_key []
  pub size : length b.by_key ≡ length b.postings
  pub derived : derive b.postings [] ≡ b.balances
  pub zero_sum : total b.balances ≡ 0

new_book-IsConsistent : IsConsistent new_book
unfolding derive total
new_book-IsConsistent = record { good = tt; size = refl; derived = refl; zero_sum = refl }

append_posting-IsConsistent :
    (b : Book) (p : Posting)
    → validate p ≡ none
    → find p.key b.by_key ≡ none
    → IsConsistent b
    → IsConsistent (append_posting (numbered b p) b)
unfolding append_posting validate
append_posting-IsConsistent b p ok new h =
    let q = numbered b p in
    let first : 0 + length b.postings ≡ length b.postings = omega arith in
    record {
      good =
          subst (λ n. Good 0 (b.postings ++ q ∷ []) (put q.key n b.by_key) []) first
            (Good-append 0 b.postings b.by_key [] q h.good (omega arith) ok new refl);
      size =
          length-put q.key (length b.postings) b.by_key (has-find q.key b.by_key new)
          ∙ ap suc h.size
          ∙ sym (omega (arith, length-append b.postings (q ∷ [])));
      derived = derive-append b.postings q [] ∙ ap (move_money q) h.derived;
      zero_sum = total-move_money q b.balances ∙ h.zero_sum;
    }

post-IsConsistent : (b : Book) (p : Posting) → IsConsistent b → IsConsistent (post b p).0
unfolding post
post-IsConsistent b p h = go (validate p) refl
  where
    inner :
        validate p ≡ none
        → (o : Option ℕ) → find p.key b.by_key ≡ o
        → IsConsistent
            (elim o as (λ _. Book × Posting × Bool × Option Problem) [
              | none ↦ (append_posting (numbered b p) b, numbered b p, true, none)
              | some i ↦ (b, at i b.postings, false, none)
            ]).0
    inner ok none e = append_posting-IsConsistent b p ok e h
    inner ok (some i) e = h

    go :
        (o : Option Problem)
        → validate p ≡ o
        → IsConsistent
            (elim o as (λ _. Book × Posting × Bool × Option Problem) [
              | none ↦ elim (find p.key b.by_key) [
                | none ↦ (append_posting (numbered b p) b, numbered b p, true, none)
                | some i ↦ (b, at i b.postings, false, none)
              ]
              | some e ↦ (b, zero_posting, false, some e)
            ]).0
    go none ok = inner ok (find p.key b.by_key) refl
    go (some e) ok = h

post_all-IsConsistent :
    (b : Book) (ps : List Posting) → IsConsistent b → IsConsistent (post_all b ps)
unfolding post_all
post_all-IsConsistent b [] h = h
post_all-IsConsistent b (p ∷ ps) h = post_all-IsConsistent (post b p).0 ps (post-IsConsistent b p h)

first_difference_same : (xs : List Text) (m : List (Text × Money)) → first_difference xs m m ≡ none
unfolding first_difference
first_difference_same [] m = refl
first_difference_same (a ∷ xs) m = ground (arith, first_difference_same xs m)

check_balances-zero : (b : Book) → total b.balances ≡ 0 → check_balances b ≡ none
unfolding check_balances
check_balances-zero b e = rw (e, check_balances) refl

check-IsConsistent : (b : Book) → IsConsistent b → check b ≡ none
unfolding check
check-IsConsistent b h =
    let loop : check_from 0 b.postings b.by_key [] [] ≡ inr b.balances =
      check_from-Good 0 b.postings b.by_key [] [] h.good ∙ ap inr h.derived in
    let e : (length b.by_key == length b.postings) ≡ true = ground (arith, h.size) in
    rw (loop, check)
      (rw e (
        rw (check_balances-zero b h.zero_sum) (
          first_difference_same (add_accounts b.balances (add_accounts b.balances [])) b.balances)))

-- After any list of Post calls on a new book, valid or not and with any repetition of keys, Check
-- finds no problem.
pub check-post_all : (ps : List Posting) → check (post_all new_book ps) ≡ none
check-post_all ps =
    check-IsConsistent (post_all new_book ps)
      (post_all-IsConsistent new_book ps new_book-IsConsistent)
