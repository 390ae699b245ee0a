-- ===== src/Prelude/Signed.antt =====
-- Signed machine integers as residues modulo 2 ^ 64, in two's complement.
use Prim.Native.Nat.{ℕ, ◌+◌, ◌%◌, ◌^◌, ◌<◌}
use mathlib.Core.Path.{◌≡◌}
use mathlib.Core.Bool.{Bool}
use native.Mathlib.Omega.{arith}
use paxos_arena.Prelude.Tests.{ltb, leb}

abbrev pub is_negative : ℕ → Bool
is_negative a = leb (2 ^ 63) a

-- `<` on int64.
abbrev pub signed_less : ℕ → ℕ → Bool
signed_less a b = ltb ((a + 2 ^ 63) % 2 ^ 64) ((b + 2 ^ 63) % 2 ^ 64)

-- On numbers that are not negative it is the order of the naturals.
pub signed_less_lem : (a b : ℕ) → a < 2 ^ 63 → b < 2 ^ 63 → signed_less a b ≡ ltb a b
signed_less_lem a b p q = ground arith
