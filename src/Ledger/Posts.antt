-- ===== src/Ledger/Posts.antt =====
-- What one Post call does: once per key, and to the two accounts it names.
use paxos_arena.Prelude.{
  ℕ, ◌≡◌, refl, ◌∙◌, ap, inl, inr, true, false, none, some, List, [], ◌∷◌, ◌++◌, length,
  Option-cases, Bool-cases, Text, same_text, eq_of_same_text, find, put, find-put_same,
  find-put_other, if◌then◌else◌, arith,
}
use paxos_arena.Ledger.{Money, Posting, validate, amount_of, add_money, neg_money}
use paxos_arena.Ledger.Book.{Book, at, bump, move_money, append_posting, numbered, post, balance}

at-append : (ps : List Posting) (p : Posting) → at (length ps) (ps ++ p ∷ []) ≡ p
unfolding at
at-append [] p = refl
at-append (q ∷ ps) p = at-append ps p

post_new :
    (b : Book) (p : Posting)
    → validate p ≡ none
    → find p.key b.by_key ≡ none
    → post b p ≡ (append_posting (numbered b p) b, numbered b p, true, none)
unfolding post
post_new b p ok new = rw (ok, post) (rw new refl)

post_seen :
    (b : Book) (p : Posting) (i : ℕ)
    → validate p ≡ none
    → find p.key b.by_key ≡ some i
    → post b p ≡ (b, at i b.postings, false, none)
unfolding post
post_seen b p i ok seen = rw (ok, post) (rw seen refl)

-- After a valid Post, any valid Post under the same key changes nothing and returns the posting
-- that the first returned, as not appended and without an error.
pub post_again :
    (b : Book) (p q : Posting)
    → validate p ≡ none
    → validate q ≡ none
    → q.key ≡ p.key
    → post (post b p).0 q ≡ ((post b p).0, (post b p).1, false, none)
unfolding append_posting
post_again b p q ok ok' same = elim (Option-cases (find p.key b.by_key)) [
  | inl new ↦
      let b' = append_posting (numbered b p) b in
      let there : find q.key b'.by_key ≡ some (length b.postings) =
        rw same (find-put_same p.key (length b.postings) b.by_key) in
      let again : post b' q ≡ (b', numbered b p, false, none) =
        post_seen b' q (length b.postings) ok' there
        ∙ ap (λ r. (b', r, false, none)) (at-append b.postings (numbered b p)) in
      rw (post_new b p ok new) again
  | inr (i, seen) ↦ rw (post_seen b p i ok seen) (post_seen b q i ok' (rw same seen))
]

amount_of_found :
    (a : Text) (v : Money) (m : List (Text × Money)) → find a m ≡ some v → amount_of a m ≡ v
unfolding amount_of
amount_of_found a v m h = rw (h, amount_of) refl

amount_of_alike :
    (a : Text) (m k : List (Text × Money)) → find a m ≡ find a k → amount_of a m ≡ amount_of a k
unfolding amount_of
amount_of_alike a m k h = rw (h, amount_of) refl

amount_of-bump :
    (k a : Text) (d : Money) (m : List (Text × Money))
    → amount_of a (bump k d m)
      ≡ (if same_text k a then add_money (amount_of a m) d else amount_of a m)
unfolding bump
amount_of-bump k a d m = elim (Bool-cases (same_text k a)) [
  | inl e ↦ rw e (hit (eq_of_same_text k a e))
  | inr e ↦ rw e (
      amount_of_alike a (put k (add_money (amount_of k m) d) m) m
        (find-put_other k a (add_money (amount_of k m) d) m e))
]
  where
    hit : k ≡ a → amount_of a (bump k d m) ≡ add_money (amount_of a m) d
    hit q = rw q (
        amount_of_found a (add_money (amount_of a m) d) (put a (add_money (amount_of a m) d) m)
          (find-put_same a (add_money (amount_of a m) d) m))

validate-apart : (p : Posting) → validate p ≡ none → same_text p.debit p.credit ≡ false
unfolding validate
validate-apart p ok = ground arith

-- A valid posting under a new key takes its amount from the debit account, gives it to the credit
-- account, and leaves the balance of every other account as it was.
pub balance-post :
    (b : Book) (p : Posting) (a : Text)
    → validate p ≡ none
    → find p.key b.by_key ≡ none
    → balance (post b p).0 a ≡ (
        if same_text p.credit a
        then add_money (balance b a) p.amount
        else if same_text p.debit a
        then add_money (balance b a) (neg_money p.amount)
        else balance b a)
unfolding balance append_posting move_money
balance-post b p a ok new =
    let m = bump p.debit (neg_money p.amount) b.balances in
    let apart = validate-apart p ok in
    let first_move = amount_of-bump p.debit a (neg_money p.amount) b.balances in
    rw (post_new b p ok new) (
      amount_of-bump p.credit a p.amount m ∙ elim (Bool-cases (same_text p.credit a)) [
        | inl e ↦
            let missed : same_text p.debit a ≡ false = rw (eq_of_same_text p.credit a e) at apart in
            rw e (rw (first_move, missed) refl)
        | inr e ↦ rw e first_move
      ])
