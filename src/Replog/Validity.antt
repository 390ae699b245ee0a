-- ===== src/Replog/Validity.antt =====
-- internal/replog/config.go: the defaults of a configuration and its validation.
pub mod Bounds
use paxos_arena.Prelude.{
  ℕ, ◌*◌, ◌^◌, ◌≤◌, ◌<◌, ◌≡◌, ◌≢◌, refl, Bool, true, false, not, ◌||◌, Option, none, some, List, [],
  ◌∷◌, length, if◌then◌else◌, signed_less, ◌==◌, Bool-cases, ◌⊎◌, inl, inr, arith,
}
use paxos_arena.Paxos.{NodeId}
use paxos_arena.Replog.State.{Config}
use paxos_arena.Replog.Plumbing.{member}

pub data ConfigProblem : Type 0 where
  zero_self no_peers zero_peer : ConfigProblem
  peer_twice : NodeId → ConfigProblem
  self_not_peer : NodeId → ConfigProblem
  bad_heartbeat_interval bad_election_timeout_min bad_election_timeout_max : ConfigProblem
  negative_lease bad_lease bad_window bad_batch bad_queue : ConfigProblem

abbrev pub default_to : ℕ → ℕ → ℕ
default_to d x = if x == 0 then d else x

-- `withDefaults`, in nanoseconds.
unfoldable pub with_defaults : Config → Config
with_defaults c = record c {
  heartbeat_interval = default_to (50 * 10 ^ 6) c.heartbeat_interval;
  election_timeout_min = default_to (150 * 10 ^ 6) c.election_timeout_min;
  election_timeout_max = default_to (300 * 10 ^ 6) c.election_timeout_max;
  window = default_to 64 c.window;
  learn_batch = default_to 256 c.learn_batch;
  queue_limit = default_to 1024 c.queue_limit;
}

-- The loop of `Validate` over the peers: the first problem, or `selfSeen`.
unfoldable pub check_peers : NodeId → List NodeId → List NodeId → Bool → ConfigProblem ⊎ Bool
check_peers self [] seen self_seen = inr self_seen
check_peers self (p ∷ ps) seen self_seen =
    let rest = check_peers self ps (p ∷ seen) (p == self || self_seen) in
    if p == 0
    then inl ConfigProblem.zero_peer
    else if member p seen
    then inl (ConfigProblem.peer_twice p)
    else rest

-- The end of `Validate`. The durations and sizes are residues modulo 2 ^ 64, read as signed numbers.
unfoldable pub check_settings : Config → Option ConfigProblem
check_settings c =
    if not (signed_less 0 c.heartbeat_interval)
    then some ConfigProblem.bad_heartbeat_interval
    else if signed_less c.election_timeout_min c.heartbeat_interval
    then some ConfigProblem.bad_election_timeout_min
    else if signed_less c.election_timeout_max c.election_timeout_min
    then some ConfigProblem.bad_election_timeout_max
    else if signed_less c.lease_duration 0
    then some ConfigProblem.negative_lease
    else if signed_less c.election_timeout_min c.lease_duration
    then some ConfigProblem.bad_lease
    else if signed_less c.window 1
    then some ConfigProblem.bad_window
    else if signed_less c.learn_batch 1
    then some ConfigProblem.bad_batch
    else if signed_less c.queue_limit 1
    then some ConfigProblem.bad_queue
    else none

-- What `Validate` goes on to after the loop over the peers.
unfoldable pub after_peers : Config → ConfigProblem ⊎ Bool → Option ConfigProblem
unfolding check_settings
after_peers c (inl e) = some e
after_peers c (inr self_seen) =
    if not self_seen then some (ConfigProblem.self_not_peer c.self) else check_settings c

unfoldable pub check_config : Config → Option ConfigProblem
unfolding check_peers after_peers
check_config c =
    if c.self == 0
    then some ConfigProblem.zero_self
    else if length c.peers == 0
    then some ConfigProblem.no_peers
    else after_peers c (check_peers c.self c.peers [] false)

-- `Validate`.
unfoldable pub validate_config : Config → Option ConfigProblem
unfolding check_config with_defaults
validate_config c = check_config (with_defaults c)
