-- ===== src/Replog/Validity/Bounds.antt =====
-- What holds of a configuration in which `Validate` of internal/replog/config.go finds no problem.
use paxos_arena.Prelude.{
  ℕ, ◌^◌, ◌≤◌, ◌<◌, ◌≡◌, ◌≢◌, refl, Bool, true, false, not, ◌||◌, Option, none, some, List, [], ◌∷◌,
  length, if◌then◌else◌, signed_less, ◌==◌, Bool-cases, ◌⊎◌, inl, inr, arith,
}
use paxos_arena.Paxos.{NodeId}
use paxos_arena.Replog.State.{Config}
use paxos_arena.Replog.Plumbing.{member}
use paxos_arena.Replog.Validity.{
  ConfigProblem, default_to, with_defaults, check_peers, check_settings, after_peers, check_config,
  validate_config,
}

-- No peer is 0 or was seen before.
abbrev pub IsFresh : List NodeId → List NodeId → Type 0
IsFresh [] seen = Unit
IsFresh (p ∷ ps) seen = (p ≢ 0) × (member p seen ≡ false) × IsFresh ps (p ∷ seen)

check_peers-IsFresh :
    (self : NodeId) (ps seen : List NodeId) (s b : Bool)
    → check_peers self ps seen s ≡ inr b
    → IsFresh ps seen × (b ≡ (member self ps || s))
unfolding check_peers member
check_peers-IsFresh self [] seen s b h = (tt, cc)
check_peers-IsFresh self (p ∷ ps) seen s b h = elim (Bool-cases (p == 0)) [
  | inl z ↦ absurd (clash (rw z at h))
  | inr z ↦ elim (Bool-cases (member p seen)) [
    | inl old ↦ absurd (clash (rw (z, old) at h))
    | inr new ↦
        let (f, e) = check_peers-IsFresh self ps (p ∷ seen) (p == self || s) b (rw (z, new) at h) in
        (((λ e'. ground arith), new, f), ground (arith, e))
  ]
]
  where
    clash : {e : ConfigProblem} → ◌≡◌ {A = ConfigProblem ⊎ Bool} (inl e) (inr b) → ⊥
    clash q = cc

-- Each duration and size is a 64-bit word.
pub record IsWide (c : Config) : Type 0 where
  pub beat_wide : c.heartbeat_interval < 2 ^ 64
  pub low_wide : c.election_timeout_min < 2 ^ 64
  pub high_wide : c.election_timeout_max < 2 ^ 64
  pub lease_wide : c.lease_duration < 2 ^ 64
  pub window_wide : c.window < 2 ^ 64
  pub batch_wide : c.learn_batch < 2 ^ 64
  pub queue_wide : c.queue_limit < 2 ^ 64

-- No duration and no size is negative, and they are in their order.
pub record IsSettled (c : Config) : Type 0 where
  pub beats : 0 < c.heartbeat_interval
  pub beat_first : c.heartbeat_interval ≤ c.election_timeout_min
  pub low_first : c.election_timeout_min ≤ c.election_timeout_max
  pub high_small : c.election_timeout_max < 2 ^ 63
  pub lease_small : c.lease_duration ≤ c.election_timeout_min
  pub some_window : 0 < c.window
  pub window_small : c.window < 2 ^ 63
  pub some_batch : 0 < c.learn_batch
  pub batch_small : c.learn_batch < 2 ^ 63
  pub some_queue : 0 < c.queue_limit
  pub queue_small : c.queue_limit < 2 ^ 63

signed_pos : (x : ℕ) → x < 2 ^ 64 → signed_less 0 x ≡ true → (0 < x) × (x < 2 ^ 63)
signed_pos x w h = (ground arith, ground arith)

signed_one : (x : ℕ) → x < 2 ^ 64 → signed_less x 1 ≡ false → (0 < x) × (x < 2 ^ 63)
signed_one x w h = (ground arith, ground arith)

signed_natural : (x : ℕ) → x < 2 ^ 64 → signed_less x 0 ≡ false → x < 2 ^ 63
signed_natural x w h = ground arith

-- What is at least a number that is not negative is not negative.
signed_above :
    (x y : ℕ) → x < 2 ^ 63 → y < 2 ^ 64 → signed_less y x ≡ false → (x ≤ y) × (y < 2 ^ 63)
signed_above x y s w h = (ground arith, ground arith)

-- The tests of `check_settings`, all passed.
record AllPass (c : Config) : Type 0 where
  beat_test : signed_less 0 c.heartbeat_interval ≡ true
  low_test : signed_less c.election_timeout_min c.heartbeat_interval ≡ false
  high_test : signed_less c.election_timeout_max c.election_timeout_min ≡ false
  sign_test : signed_less c.lease_duration 0 ≡ false
  lease_test : signed_less c.election_timeout_min c.lease_duration ≡ false
  window_test : signed_less c.window 1 ≡ false
  batch_test : signed_less c.learn_batch 1 ≡ false
  queue_test : signed_less c.queue_limit 1 ≡ false

refused_then :
    (e : ConfigProblem) (b : Bool) (rest : Option ConfigProblem)
    → (if b then some e else rest) ≡ none
    → (b ≡ false) × (rest ≡ none)
refused_then e true rest h = cc
refused_then e false rest h = (refl, h)

check_settings_tests : (c : Config) → check_settings c ≡ none → AllPass c
unfolding check_settings
check_settings_tests c h =
    let (a, h1) = refused_then _ _ _ h in
    let (b, h2) = refused_then _ _ _ h1 in
    let (d, h3) = refused_then _ _ _ h2 in
    let (e, h4) = refused_then _ _ _ h3 in
    let (f, h5) = refused_then _ _ _ h4 in
    let (g, h6) = refused_then _ _ _ h5 in
    let (i, h7) = refused_then _ _ _ h6 in
    let (j, h8) = refused_then _ _ _ h7 in
    record {
      beat_test = of_not _ a;
      low_test = b;
      high_test = d;
      sign_test = e;
      lease_test = f;
      window_test = g;
      batch_test = i;
      queue_test = j;
    }
  where
    of_not : (b : Bool) → not b ≡ false → b ≡ true
    of_not true q = refl
    of_not false q = cc

check_settings_lem : (c : Config) → IsWide c → check_settings c ≡ none → IsSettled c
check_settings_lem c w h =
    let t = check_settings_tests c h in
    let (beats, beat_small) = signed_pos c.heartbeat_interval w.beat_wide t.beat_test in
    let (low, low_small) =
      signed_above c.heartbeat_interval c.election_timeout_min beat_small w.low_wide t.low_test in
    let (high, high_small) =
      signed_above c.election_timeout_min c.election_timeout_max low_small w.high_wide
        t.high_test in
    let natural = signed_natural c.lease_duration w.lease_wide t.sign_test in
    let (lease, _) =
      signed_above c.lease_duration c.election_timeout_min natural w.low_wide t.lease_test in
    let (window, window_small) = signed_one c.window w.window_wide t.window_test in
    let (batch, batch_small) = signed_one c.learn_batch w.batch_wide t.batch_test in
    let (queue, queue_small) = signed_one c.queue_limit w.queue_wide t.queue_test in
    record {
      beats = beats;
      beat_first = low;
      low_first = high;
      high_small = high_small;
      lease_small = lease;
      some_window = window;
      window_small = window_small;
      some_batch = batch;
      batch_small = batch_small;
      some_queue = queue;
      queue_small = queue_small;
    }

default_to_wide : (d x : ℕ) → d < 2 ^ 64 → x < 2 ^ 64 → default_to d x < 2 ^ 64
default_to_wide d x p q = ground arith

with_defaults-IsWide : (c : Config) → IsWide c → IsWide (with_defaults c)
unfolding with_defaults
with_defaults-IsWide c w = record {
  beat_wide = default_to_wide _ _ (omega arith) w.beat_wide;
  low_wide = default_to_wide _ _ (omega arith) w.low_wide;
  high_wide = default_to_wide _ _ (omega arith) w.high_wide;
  lease_wide = w.lease_wide;
  window_wide = default_to_wide _ _ (omega arith) w.window_wide;
  batch_wide = default_to_wide _ _ (omega arith) w.batch_wide;
  queue_wide = default_to_wide _ _ (omega arith) w.queue_wide;
}

after_peers_lem :
    (c : Config) (r : ConfigProblem ⊎ Bool)
    → after_peers c r ≡ none
    → (r ≡ inr true) × (check_settings c ≡ none)
unfolding after_peers
after_peers_lem c (inl e) h = cc
after_peers_lem c (inr false) h = cc
after_peers_lem c (inr true) h = (refl, h)

check_config_lem :
    (c : Config)
    → check_config c ≡ none
    → (c.self ≢ 0) × (member c.self c.peers ≡ true) × IsFresh c.peers [] × (check_settings c ≡ none)
unfolding check_config
check_config_lem c h =
    let z : (c.self == 0) ≡ false = ground arith in
    let some_peer : (length c.peers == 0) ≡ false = ground arith in
    let left : after_peers c (check_peers c.self c.peers [] false) ≡ none =
      rw (z, some_peer) at h in
    let (found, settings) = after_peers_lem c (check_peers c.self c.peers [] false) left in
    let (fresh_peers, seen) = check_peers-IsFresh c.self c.peers [] false true found in
    ((λ e. ground arith), ground (arith, seen), fresh_peers, settings)

-- A configuration of 64-bit words in which Validate finds no problem has, with its defaults filled
-- in, a non-zero self among distinct non-zero peers, a positive window, batch and queue limit, a
-- lease that is not negative, and a positive heartbeat interval, a lease and election timeouts in
-- their order, all read as signed numbers.
pub validate_config_lem :
    (c : Config)
    → IsWide c
    → validate_config c ≡ none
    → let d = with_defaults c in
      (d.self ≢ 0) × (member d.self d.peers ≡ true) × IsFresh d.peers [] × IsSettled d
unfolding validate_config
validate_config_lem c wide h =
    let (own, among, fresh_peers, settings) = check_config_lem (with_defaults c) h in
    let settled = check_settings_lem (with_defaults c) (with_defaults-IsWide c wide) settings in
    (own, among, fresh_peers, settled)
