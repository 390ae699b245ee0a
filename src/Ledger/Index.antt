-- ===== src/Ledger/Index.antt =====
-- What the loop of `Check` reads in a book, kept by an append.
use paxos_arena.Prelude.{
  ℕ, suc, ◌+◌, ◌%◌, ◌^◌, ◌≡◌, refl, sym, ◌∙◌, inl, inr, Bool, true, false, none, some, List, [],
  ◌∷◌, ◌++◌, length, Bool-cases, Text, same_text, eq_of_same_text, find, put, has, has-put,
  find-put_same, find-put_other, ◌==◌, arith,
}
use paxos_arena.Ledger.{Money, Posting, validate}
use paxos_arena.Ledger.Book.{move_money}
use paxos_arena.Ledger.Check.{check_from}

-- From position `i` on, every posting is numbered and valid, its key was not seen before, and the
-- index has it at its position.
abbrev pub Good : ℕ → List Posting → List (Text × ℕ) → List (Text × Unit {0}) → Type 0
Good i [] index seen = Unit
Good i (p ∷ ps) index seen =
    (p.seq ≡ (i % 2 ^ 64 + 1) % 2 ^ 64)
    × (validate p ≡ none)
    × (has p.key seen ≡ false)
    × (find p.key index ≡ some i)
    × Good (suc i) ps index (put p.key tt seen)

-- The balances that `Check` derives.
unfoldable pub derive : List Posting → List (Text × Money) → List (Text × Money)
derive [] d = d
derive (p ∷ ps) d = derive ps (move_money p d)

pub derive-append :
    (ps : List Posting) (p : Posting) (d : List (Text × Money))
    → derive (ps ++ p ∷ []) d ≡ move_money p (derive ps d)
unfolding derive
derive-append [] p d = refl
derive-append (q ∷ ps) p d = derive-append ps p (move_money q d)

pub check_from-Good :
    (i : ℕ) (ps : List Posting) (index : List (Text × ℕ)) (seen : List (Text × Unit {0}))
    (d : List (Text × Money))
    → Good i ps index seen
    → check_from i ps index seen d ≡ inr (derive ps d)
unfolding check_from derive
check_from-Good i [] index seen d h = refl
check_from-Good i (p ∷ ps) index seen d (num, ok, new, found, rest) =
    let ih = check_from-Good (suc i) ps index (put p.key tt seen) (move_money p d) rest in
    let n : (p.seq == (i % 2 ^ 64 + 1) % 2 ^ 64) ≡ true = ground arith in
    let k : (i == i) ≡ true = ground arith in rw (n, ok, new, found, k) ih

-- Keys that an index does not treat alike differ, in both orders.
keys_apart :
    (k j : Text) (i : ℕ) (index : List (Text × ℕ))
    → find k index ≡ none
    → find j index ≡ some i
    → (same_text k j ≡ false) × (same_text j k ≡ false)
keys_apart k j i index p q = (
  elim (Bool-cases (same_text k j)) [ inl e ↦ clash (eq_of_same_text k j e) | inr e ↦ e ],
  elim (Bool-cases (same_text j k)) [ inl e ↦ clash (sym (eq_of_same_text j k e)) | inr e ↦ e ],
)
  where
    clash : {b : Bool} → k ≡ j → b ≡ false
    clash e = cc

-- A posting with a key that the index does not have.
pub Good-append :
    (i : ℕ) (ps : List Posting) (index : List (Text × ℕ)) (seen : List (Text × Unit {0}))
    (p : Posting)
    → Good i ps index seen
    → p.seq ≡ ((i + length ps) % 2 ^ 64 + 1) % 2 ^ 64
    → validate p ≡ none
    → find p.key index ≡ none
    → has p.key seen ≡ false
    → Good i (ps ++ p ∷ []) (put p.key (i + length ps) index) seen
Good-append i [] index seen p h num ok none_there new =
    let e : i + 0 ≡ i = omega arith in
    (omega (arith, num), ok, new, rw e (find-put_same p.key i index), tt)
Good-append i (q ∷ ps) index seen p (num', ok', new', found', rest') num ok none_there new =
    let (apart, apart') = keys_apart p.key q.key i index none_there found' in
    let e : i + suc (length ps) ≡ suc i + length ps = omega arith in
    (
      num',
      ok',
      new',
      find-put_other p.key q.key (i + suc (length ps)) index apart ∙ found',
      rw e (
          Good-append (suc i) ps index (put q.key tt seen) p rest' (omega (arith, num)) ok
            none_there (has-put q.key p.key tt seen apart' new)),
    )
