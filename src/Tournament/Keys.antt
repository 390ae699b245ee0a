-- ===== src/Tournament/Keys.antt =====
-- Posting keys are unambiguous: what validID is for.
use paxos_arena.Prelude.{
  ℕ, zero, suc, ◌+◌, ◌*◌, ◌≡◌, refl, sym, ap, ◌∙◌, inl, inr, true, [], ◌∷◌, ◌++◌, if◌then◌else◌,
  ◌==◌, Bool-cases, Text, arith,
}
use paxos_arena.Ledger.Names.{
  fee_key, rake_key, prize_key, withheld_key, refund_key, claim_key, int_text,
}
use paxos_arena.Tournament.Shapes.{every, id_char, valid_id}

-- What a posting is for, one for each kind.
pub data Purpose : Type 0 where
  of_fee of_rake of_prize of_withheld of_refund of_claim : Purpose

unfoldable pub key_of : Purpose → Text → Text → ℕ → Text
unfolding fee_key rake_key prize_key withheld_key refund_key claim_key
key_of Purpose.of_fee tid pid place = fee_key tid pid
key_of Purpose.of_rake tid pid place = rake_key tid
key_of Purpose.of_prize tid pid place = prize_key tid pid place
key_of Purpose.of_withheld tid pid place = withheld_key tid pid place
key_of Purpose.of_refund tid pid place = refund_key tid pid
key_of Purpose.of_claim tid pid place = claim_key tid pid

-- The player that a key names; a rake names none.
abbrev pub named_player : Purpose → Text → Text
named_player Purpose.of_rake pid = []
named_player _ pid = pid

-- The first two bytes of a key tell its purpose.
prefix : Text → ℕ
prefix (c ∷ d ∷ t) = c * 256 + d
prefix _ = 0

purpose_of : ℕ → Purpose
purpose_of n =
    if n == 26213
    then Purpose.of_fee
    else if n == 29281
    then Purpose.of_rake
    else if n == 28786
    then Purpose.of_prize
    else if n == 30569
    then Purpose.of_withheld
    else if n == 29285
    then Purpose.of_refund
    else Purpose.of_claim

purpose_of-key_of :
    (k : Purpose) (tid pid : Text) (n : ℕ) → purpose_of (prefix (key_of k tid pid n)) ≡ k
unfolding purpose_of prefix key_of
purpose_of-key_of Purpose.of_fee tid pid n = refl
purpose_of-key_of Purpose.of_rake tid pid n = refl
purpose_of-key_of Purpose.of_prize tid pid n = refl
purpose_of-key_of Purpose.of_withheld tid pid n = refl
purpose_of-key_of Purpose.of_refund tid pid n = refl
purpose_of-key_of Purpose.of_claim tid pid n = refl

head_of : Text → ℕ
head_of [] = 0
head_of (c ∷ t) = c

tail_of : Text → Text
tail_of [] = []
tail_of (c ∷ t) = t

skip_bytes : ℕ → Text → Text
skip_bytes zero t = t
skip_bytes (suc n) t = skip_bytes n (tail_of t)

id_char-colon : (c : ℕ) → id_char c ≡ true → b':' ≡ c → ⊥
id_char-colon c h e = ground arith

every-head : (c : ℕ) (t : Text) → every id_char (c ∷ t) ≡ true → id_char c ≡ true
unfolding every
every-head c t h = elim (Bool-cases (id_char c)) [ inl e ↦ e | inr e ↦ absurd (cc (rw e at h)) ]

every-tail : (c : ℕ) (t : Text) → every id_char (c ∷ t) ≡ true → every id_char t ≡ true
unfolding every
every-tail c t h = rw (every-head c t h) at h

-- An identifier in front of a colon can be read back.
split_colon :
    (a b x y : Text)
    → every id_char a ≡ true
    → every id_char b ≡ true
    → a ++ b':' ∷ x ≡ b ++ b':' ∷ y
    → (a ≡ b) × (x ≡ y)
unfolding head_of tail_of
split_colon [] [] x y ha hb e = (refl, ap tail_of e)
split_colon [] (d ∷ b) x y ha hb e = absurd (id_char-colon d (every-head d b hb) (ap head_of e))
split_colon (c ∷ a) [] x y ha hb e =
    absurd (id_char-colon c (every-head c a ha) (sym (ap head_of e)))
split_colon (c ∷ a) (d ∷ b) x y ha hb e =
    let same : c ≡ d = ap head_of e in
    let (rest, after) =
      split_colon a b x y (every-tail c a ha) (every-tail d b hb) (ap tail_of e) in
    (rw (same, rest) refl, after)

valid_id-every : (s : Text) → valid_id s ≡ true → every id_char s ≡ true
unfolding valid_id
valid_id-every s h = ground arith

-- The identifiers of two keys of one purpose.
same_purpose :
    (k : Purpose) (tid pid tid' pid' : Text) (n n' : ℕ)
    → every id_char tid ≡ true
    → every id_char pid ≡ true
    → every id_char tid' ≡ true
    → every id_char pid' ≡ true
    → key_of k tid pid n ≡ key_of k tid' pid' n'
    → (tid ≡ tid') × (named_player k pid ≡ named_player k pid')
unfolding key_of skip_bytes tail_of
same_purpose Purpose.of_fee tid pid tid' pid' n n' ht hp ht' hp' e =
    split_colon tid tid' pid pid' ht ht' (ap (skip_bytes 4) e)
same_purpose Purpose.of_rake tid pid tid' pid' n n' ht hp ht' hp' e = (ap (skip_bytes 5) e, refl)
same_purpose Purpose.of_prize tid pid tid' pid' n n' ht hp ht' hp' e =
    let (t, rest) =
      split_colon tid tid' (pid ++ b':' ∷ int_text n) (pid' ++ b':' ∷ int_text n') ht ht'
        (ap (skip_bytes 6) e) in
    (t, (split_colon pid pid' (int_text n) (int_text n') hp hp' rest).0)
same_purpose Purpose.of_withheld tid pid tid' pid' n n' ht hp ht' hp' e =
    let (t, rest) =
      split_colon tid tid' (pid ++ b':' ∷ int_text n) (pid' ++ b':' ∷ int_text n') ht ht'
        (ap (skip_bytes 9) e) in
    (t, (split_colon pid pid' (int_text n) (int_text n') hp hp' rest).0)
same_purpose Purpose.of_refund tid pid tid' pid' n n' ht hp ht' hp' e =
    split_colon tid tid' pid pid' ht ht' (ap (skip_bytes 7) e)
same_purpose Purpose.of_claim tid pid tid' pid' n n' ht hp ht' hp' e =
    split_colon tid tid' pid pid' ht ht' (ap (skip_bytes 6) e)

-- For well-formed tournament and player identifiers, two posting keys are equal only when their
-- purposes are, and with them the tournaments and the players that they name.
pub key_of-distinct :
    (k k' : Purpose) (tid pid tid' pid' : Text) (n n' : ℕ)
    → valid_id tid ≡ true
    → valid_id pid ≡ true
    → valid_id tid' ≡ true
    → valid_id pid' ≡ true
    → key_of k tid pid n ≡ key_of k' tid' pid' n'
    → (k ≡ k') × (tid ≡ tid') × (named_player k pid ≡ named_player k' pid')
key_of-distinct k k' tid pid tid' pid' n n' ht hp ht' hp' e =
    let same : k ≡ k' =
      sym (purpose_of-key_of k tid pid n)
      ∙ ap (λ t. purpose_of (prefix t)) e
      ∙ purpose_of-key_of k' tid' pid' n' in
    let alike : key_of k tid pid n ≡ key_of k tid' pid' n' =
      e ∙ ap (λ j. key_of j tid' pid' n') (sym same) in
    let (t, p) =
      same_purpose k tid pid tid' pid' n n' (valid_id-every tid ht) (valid_id-every pid hp)
        (valid_id-every tid' ht') (valid_id-every pid' hp') alike in
    (same, t, p ∙ ap (λ j. named_player j pid') same)
