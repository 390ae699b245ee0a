-- ===== src/Prelude/Votes.antt =====
-- Majorities: how many members of a list pass a test, and why two majorities share a member.
use Prim.Native.Nat.{ℕ, ◌+◌, ◌≤◌, ◌<◌}
use mathlib.Core.Path.{◌≡◌}
use mathlib.Core.Logic.{inl, inr}
use mathlib.Core.List.{List, [], ◌∷◌}
use mathlib.Core.Bool.{Bool, true, false, ◌&&◌}
use native.Mathlib.Omega.{arith}
use paxos_arena.Prelude.Tests.{if◌then◌else◌, Bool-cases}
use paxos_arena.Prelude.Lists.{length, Elem, All, has_key, IsMap}

abbrev pub count : (ℕ → Bool) → List ℕ → ℕ
count f [] = 0
count f (x ∷ xs) = (if f x then 1 else 0) + count f xs

-- Two tests that together pass more often than there are members pass on one member.
pub count_overlap :
    (f g : ℕ → Bool) (xs : List ℕ)
    → length xs < count f xs + count g xs
    → (a : ℕ) × (f a ≡ true) × (g a ≡ true)
count_overlap f g [] h = absurd (omega arith)
count_overlap f g (x ∷ xs) h = elim (Bool-cases (f x && g x)) [
  | inl both ↦ (x, ground arith, ground arith)
  | inr not_both ↦ count_overlap f g xs (ground arith)
]

count_mono :
    (f g : ℕ → Bool) (xs : List ℕ) → ((a : ℕ) → f a ≡ true → g a ≡ true) → count f xs ≤ count g xs
count_mono f g [] h = omega arith
count_mono f g (x ∷ xs) h = ground (arith, h x, count_mono f g xs h)

count_more :
    (f g : ℕ → Bool) (k : ℕ) (xs : List ℕ)
    → ((a : ℕ) → f a ≡ true → g a ≡ true)
    → f k ≡ false
    → g k ≡ true
    → Elem k xs
    → count f xs + 1 ≤ count g xs
count_more f g k [] h fk gk e = absurd e
count_more f g k (x ∷ xs) h fk gk (inl e) = ground (arith, h x, count_mono f g xs h)
count_more f g k (x ∷ xs) h fk gk (inr e) = ground (arith, h x, count_more f g k xs h fk gk e)

-- A map whose keys are members counts at least its own size among them.
pub length-le-count :
    {V : Type 0} (m : List (ℕ × V)) (xs : List ℕ)
    → IsMap m
    → All (λ e. Elem e.0 xs) m
    → length m ≤ count (λ a. has_key a m) xs
length-le-count [] xs u h = omega arith
length-le-count ((k, v) ∷ m) xs u h = omega (
  arith,
  length-le-count m xs u.1 h.1,
  count_more (λ a. has_key a m) (λ a. has_key a ((k, v) ∷ m)) k xs (λ a e. ground arith) u.0
      (ground arith) h.0,
)
