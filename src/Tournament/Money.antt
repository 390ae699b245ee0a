-- ===== src/Tournament/Money.antt =====
-- Rakes and pools lose no money and do not overflow.
use paxos_arena.Prelude.{
  ℕ, ◌+◌, ◌*◌, ◌/◌, ◌%◌, ◌^◌, ◌≤◌, ◌<◌, ◌≡◌, refl, ap, ◌∙◌, inl, inr, length, if◌then◌else◌,
  Bool-cases, arith,
}
use paxos_arena.Tournament.{Tournament, voids}
use paxos_arena.Tournament.Compute.{bps, compute_pool}

scale_split : (q r b : ℕ) → (10000 * q + r) * b ≡ 10000 * (q * b) + r * b
scale_split q r b = grind arith

pub scale_bound : (x b : ℕ) → b ≤ 10000 → x * b ≤ x * 10000
scale_bound x b h = grind arith

-- Below 2 ^ 63, and for a share of at most 10000 basis points, `bps` is the floor of x * b / 10000.
pub bps_lem : (x b : ℕ) → x < 2 ^ 63 → b ≤ 10000 → bps x b ≡ x * b / 10000
unfolding bps
bps_lem x b hx hb =
    let q = x / 10000 in
    let r = x % 10000 in
    let e : x * b ≡ 10000 * (q * b) + r * b = ap (λ y. y * b) (omega arith) ∙ scale_split q r b in
    omega (arith, e, scale_bound q b hb, scale_bound r b hb)

-- With at most 10000 basis points of rake and fees below 2 ^ 63, the fees are one entry fee per
-- entry, rake and pool add up to the fees, and a void tournament takes no rake.
pub compute_pool_lem :
    (t : Tournament)
    → t.rules.rake_bps ≤ 10000
    → t.rules.entry_fee * length t.entries < 2 ^ 63
    → let (fees, rake, pool) = compute_pool t in
      (fees ≡ t.rules.entry_fee * length t.entries)
      × (rake + pool ≡ fees)
      × (rake ≡ (if voids t then 0 else fees * t.rules.rake_bps / 10000))
unfolding compute_pool
compute_pool_lem t hb hf = elim (Bool-cases (voids t)) [
  | inl e ↦ rw e (omega arith, omega arith, refl)
  | inr e ↦
      let fees = t.rules.entry_fee * length t.entries % 2 ^ 64 in
      let b = t.rules.rake_bps in
      let rake : bps fees b ≡ fees * b / 10000 = bps_lem fees b (omega arith) hb in
      rw e (omega arith, omega (arith, rake, scale_bound fees b hb), rake)
]
