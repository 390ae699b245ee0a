-- ===== src/Prelude/Strings.antt =====
-- Strings as lists of bytes, and Go maps with string keys.
use Prim.Native.Nat.{ℕ, suc}
use mathlib.Core.Path.{◌≡◌, refl}
use mathlib.Core.Bool.{Bool, true, false, ◌&&◌, ◌||◌}
use mathlib.Core.Option.{Option, none, some}
use mathlib.Core.List.{List, [], ◌∷◌}
use mathlib.Core.Logic.{inl, inr}
use native.Mathlib.Omega.{arith}
use paxos_arena.Prelude.Tests.{◌==◌, ltb, if◌then◌else◌, Bool-cases}
use paxos_arena.Prelude.Lists.{length}

abbrev pub Text : Type 0
Text = List ℕ

abbrev pub same_text : Text → Text → Bool
same_text [] [] = true
same_text [] (b ∷ t) = false
same_text (a ∷ s) [] = false
same_text (a ∷ s) (b ∷ t) = a == b && same_text s t

-- Go's `<` on strings.
abbrev pub text_less : Text → Text → Bool
text_less [] [] = false
text_less [] (b ∷ t) = true
text_less (a ∷ s) [] = false
text_less (a ∷ s) (b ∷ t) = ltb a b || (a == b && text_less s t)

pub same_text_refl : (s : Text) → same_text s s ≡ true
same_text_refl [] = refl
same_text_refl (a ∷ s) = ground (arith, same_text_refl s)

pub eq_of_same_text : (s t : Text) → same_text s t ≡ true → s ≡ t
eq_of_same_text [] [] h = refl
eq_of_same_text [] (b ∷ t) h = cc
eq_of_same_text (a ∷ s) [] h = cc
eq_of_same_text (a ∷ s) (b ∷ t) h =
    let e : a ≡ b = ground arith in
    let q : same_text s t ≡ true = ground arith in rw (e, eq_of_same_text s t q) refl

module _ {V : Type 0} where
  abbrev pub find : Text → List (Text × V) → Option V
  find k [] = none
  find k ((j, v) ∷ m) = if same_text j k then some v else find k m

  abbrev pub put : Text → V → List (Text × V) → List (Text × V)
  put k v [] = (k, v) ∷ []
  put k v ((j, w) ∷ m) = if same_text j k then (k, v) ∷ m else (j, w) ∷ put k v m

  abbrev pub has : Text → List (Text × V) → Bool
  has k [] = false
  has k ((j, v) ∷ m) = same_text j k || has k m

  pub has-find : (k : Text) (m : List (Text × V)) → find k m ≡ none → has k m ≡ false
  has-find k [] h = refl
  has-find k ((j, v) ∷ m) h = elim (Bool-cases (same_text j k)) [
    | inl e ↦ cc
    | inr e ↦ rw e (has-find k m (rw e at h))
  ]

  pub length-put :
      (k : Text) (v : V) (m : List (Text × V))
      → has k m ≡ false
      → length (put k v m) ≡ suc (length m)
  length-put k v [] h = refl
  length-put k v ((j, w) ∷ m) h = elim (Bool-cases (same_text j k)) [
    | inl e ↦ cc
    | inr e ↦ rw e (omega (arith, length-put k v m (rw e at h)))
  ]

  pub find-put_same : (k : Text) (v : V) (m : List (Text × V)) → find k (put k v m) ≡ some v
  find-put_same k v [] = rw (same_text_refl k) refl
  find-put_same k v ((j, w) ∷ m) = elim (Bool-cases (same_text j k)) [
    | inl e ↦ rw e (rw (same_text_refl k) refl)
    | inr e ↦ rw e (rw e (find-put_same k v m))
  ]

  pub find-put_other :
      (k j : Text) (v : V) (m : List (Text × V))
      → same_text k j ≡ false
      → find j (put k v m) ≡ find j m
  find-put_other k j v [] h = rw h refl
  find-put_other k j v ((i, w) ∷ m) h = elim (Bool-cases (same_text i k)) [
    | inl e ↦ rw e (rw (h, eq_of_same_text i k e) (rw h refl))
    | inr e ↦ rw e (elim (Bool-cases (same_text i j)) [
      | inl d ↦ rw d refl
      | inr d ↦ rw d (find-put_other k j v m h)
    ])
  ]

  pub has-put :
      (k j : Text) (v : V) (m : List (Text × V))
      → same_text k j ≡ false
      → has j m ≡ false
      → has j (put k v m) ≡ false
  has-put k j v [] h none_there = rw h refl
  has-put k j v ((i, w) ∷ m) h none_there = elim (Bool-cases (same_text i k)) [
    | inl e ↦ rw (e, h) (ground arith)
    | inr e ↦ rw e (ground (arith, has-put k j v m h))
  ]
