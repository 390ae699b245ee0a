-- ===== src/Game/Draws.antt =====
-- What a draw of the shuffle promises: a value below its limit.
use mathlib.Core.Path.{subst}
use native.Mathlib.Nat.{mod-lt, div-add-mod'}
use paxos_arena.Prelude.{
  Text, ℕ, zero, suc, ◌+◌, ◌-◌, ◌*◌, ◌/◌, ◌%◌, ◌^◌, ◌<◌, ◌≤◌, ◌≡◌, refl, ap, inl, inr, Bool-cases,
  [], if_ind, leb, ◌==◌, arith,
}
use paxos_arena.Game.Deck.{
  Stream, digest_size, byte_at, refill, next_byte, next32, stream_at, Draws, draw_at, take_draw,
  limit_of,
}

-- What a draw from the k-th value on is, when the loop returns `x` with the values up to the k'-th
-- taken: the first value below the limit.
pub record IsFirst (next : ℕ → ℕ) (limit k x k' : ℕ) : Type 0 where
  pub taken : k < k'
  pub value : next (k' - 1) ≡ x
  pub below : x < limit
  pub refused : (i : ℕ) → k ≤ i → suc i < k' → limit ≤ next i

abbrev First : (ℕ → ℕ) → ℕ → ℕ → ℕ × ℕ → Type 0
First next limit k (x, k') = IsFirst next limit k x k'

now-First : (next : ℕ → ℕ) (limit k : ℕ) → next k < limit → First next limit k (next k, suc k)
now-First next limit k low = record {
  taken = omega arith;
  value = ap next (omega arith);
  below = low;
  refused = λ i from to. absurd (omega arith);
}

later-First :
    (next : ℕ → ℕ) (limit k : ℕ) (r : ℕ × ℕ)
    → limit ≤ next k
    → First next limit (suc k) r
    → First next limit k r
later-First next limit k (x, k') big f = record {
  taken = omega (arith, f.taken);
  value = f.value;
  below = f.below;
  refused = λ i from to. elim (Bool-cases (k == i)) [
    | inl e ↦ let same : k ≡ i = ground arith in subst (λ j. limit ≤ next j) same big
    | inr e ↦ f.refused i (ground arith) to
  ];
}

-- The loop stops within its fuel when a value that the limit lets through comes in time.
take_draw-First :
    (fuel : ℕ) (next : ℕ → ℕ) (limit k m : ℕ)
    → k ≤ m
    → m < k + fuel
    → next m < limit
    → First next limit k (take_draw fuel next limit k)
unfolding take_draw
take_draw-First zero next limit k m low small hit = absurd (omega arith)
take_draw-First (suc fuel) next limit k m low small hit = elim (Bool-cases (leb limit (next k))) [
  | inl big ↦ elim (Bool-cases (m == k)) [
    | inl e ↦
        let same : m ≡ k = ground arith in
        let here : next k < limit = rw (← same) hit in absurd (ground arith)
    | inr e ↦ rw big (
        later-First next limit k (take_draw fuel next limit (suc k)) (ground arith)
          (take_draw-First fuel next limit (suc k) m (ground arith) (ground arith) hit))
  ]
  | inr fits ↦ rw fits (now-First next limit k (ground arith))
]

-- The largest multiple of `n` that is at most 2 ^ 32.
pub record IsLargest (n limit : ℕ) : Type 0 where
  pub times : ℕ
  pub multiple : limit ≡ times * n
  pub within : limit ≤ 2 ^ 32
  pub next_over : 2 ^ 32 < limit + n

limit_of-IsLargest : (n : ℕ) → 0 < n → IsLargest n (limit_of n)
limit_of-IsLargest n low =
    let split : 2 ^ 32 / n * n + 2 ^ 32 % n ≡ 2 ^ 32 = div-add-mod' (2 ^ 32) n in
    let small = mod-lt (2 ^ 32) low in
    record {
      times = 2 ^ 32 / n;
      multiple = omega (arith, split);
      within = omega arith;
      next_over = omega (arith, small);
    }

-- When values below 2 ^ 31 come in time, a draw for a bound of 1 to 2 ^ 31 takes the values of the
-- stream up to the first that is below its limit, and the limit is the largest multiple of the bound
-- that is at most 2 ^ 32.
pub take_draw_lem :
    {digest : Text → Text} {seed : Text} (d : Draws digest seed) (n k : ℕ)
    → 0 < n
    → n ≤ 2 ^ 31
    → let (x, k') = take_draw (d.wait k) (draw_at digest seed) (limit_of n) k in
      IsFirst (draw_at digest seed) (limit_of n) k x k' × IsLargest n (limit_of n)
take_draw_lem {digest} {seed} d n k low high =
    let (j, small, hit) = d.soon k in
    (
      take_draw-First (d.wait k) (draw_at digest seed) (limit_of n) k (k + j) (omega arith)
          (omega arith) (omega (arith, mod-lt (2 ^ 32) low)),
      limit_of-IsLargest n low,
    )

-- With a digest that has no byte, a stream has none, and its values are 0.
abbrev IsBlank : ℕ × Stream → Type 0
IsBlank (x, st) = (x ≡ 0) × (st.buf ≡ [])

abbrev read_byte : Stream → ℕ × Stream
read_byte st = (byte_at st.off st.buf, record st { off = suc st.off })

read_byte-IsBlank : (st : Stream) → st.buf ≡ [] → IsBlank (read_byte st)
unfolding byte_at
read_byte-IsBlank st e = (ap (byte_at st.off) e, e)

next_byte-IsBlank :
    (seed : Text) (st : Stream) → st.buf ≡ [] → IsBlank (next_byte (λ t. []) seed st)
unfolding next_byte refill
next_byte-IsBlank seed st e =
    if_ind (λ u. IsBlank (read_byte u)) (st.off == digest_size)
      (λ _. read_byte-IsBlank (record { block = (st.block + 1) % 2 ^ 64; buf = []; off = 0 }) refl)
      (λ _. read_byte-IsBlank st e)

next32-IsBlank : (seed : Text) (st : Stream) → st.buf ≡ [] → IsBlank (next32 (λ t. []) seed st)
unfolding next32
next32-IsBlank seed st e =
    let next : Stream → Stream = λ u. (next_byte (λ t. []) seed u).1 in
    let s1 = next_byte-IsBlank seed st e in
    let s2 = next_byte-IsBlank seed (next st) s1.1 in
    let s3 = next_byte-IsBlank seed (next (next st)) s2.1 in
    let s4 = next_byte-IsBlank seed (next (next (next st))) s3.1 in
    (omega (arith, s1.0, s2.0, s3.0, s4.0), s4.1)

stream_at-blank : (seed : Text) (k : ℕ) → (stream_at (λ t. []) seed k).buf ≡ []
unfolding stream_at
stream_at-blank seed zero = refl
stream_at-blank seed (suc k) =
    (next32-IsBlank seed (stream_at (λ t. []) seed k) (stream_at-blank seed k)).1

pub draw_at-blank : (seed : Text) (k : ℕ) → draw_at (λ t. []) seed k ≡ 0
unfolding draw_at
draw_at-blank seed k = (next32-IsBlank seed (stream_at (λ t. []) seed k) (stream_at-blank seed k)).0

-- The draws of that digest.
abbrev pub no_draws : (seed : Text) → Draws (λ t. []) seed
no_draws seed = record {
  wait = λ k. 1;
  soon = λ k. (0, omega arith, omega (arith, draw_at-blank seed (k + 0)));
}
