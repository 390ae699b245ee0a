-- ===== src/Tournament/Tests.antt =====
-- A tournament of three entrants, at which the theorems apply.
use mathlib.Core.List.{Perm}
use paxos_arena.Prelude.{
  ℕ, ◌+◌, ◌*◌, ◌/◌, ◌≡◌, Bool, true, false, [], ◌∷◌, length, map, if◌then◌else◌, arith,
}
use paxos_arena.Paxos.{zero_ballot}
use paxos_arena.Tournament.{Status, TieBreak, Entry, Tournament, voids}
use paxos_arena.Tournament.Compute.{bps, compute_pool, compute_standings}
use paxos_arena.Tournament.Money.{bps_lem, compute_pool_lem}
use paxos_arena.Tournament.Rows.{line_of, entry_line}
use paxos_arena.Tournament.Ranking.{IsRanked, compute_standings-IsRanked}

-- Entrant `p` joined `p`-th, and scored `n` as number `s`.
abbrev entrant : ℕ → Bool → ℕ → ℕ → Entry
entrant p done n s = record {
  player = record { id = p ∷ []; jurisdiction = 84 ∷ 82 ∷ []; age = 30 };
  join_seq = p;
  exclusion_version = 1;
  scored = done;
  score = n;
  submit_seq = s;
  input_digest = [];
}

abbrev pub cup : Tournament
cup = record {
  id = 99 ∷ [];
  seed = 5;
  rules = record {
    entry_fee = 1001;
    rake_bps = 750;
    prize_bps = 6000 ∷ 4000 ∷ [];
    min_entrants = 2;
    max_entrants = 8;
    max_score = 100;
    min_age = 18;
    tie_break = TieBreak.split;
    exclusions = record { version = 1; jurisdictions = [] };
    game = [];
  };
  status = Status.opened;
  entries = entrant 1 true 80 2 ∷ entrant 2 false 0 0 ∷ entrant 3 true 80 1 ∷ [];
  fees = 0;
  rake = 0;
  pool = 0;
  standings = [];
  payouts = [];
  created_at = 1;
  closed_at = 0;
  settled_at = 0;
  ballot = zero_ballot;
}

bps_lem_example : bps 3003 750 ≡ 3003 * 750 / 10000
bps_lem_example = bps_lem 3003 750 (omega arith) (omega arith)

compute_pool_lem_example :
    let (fees, rake, pool) = compute_pool cup in
    (fees ≡ cup.rules.entry_fee * length cup.entries)
    × (rake + pool ≡ fees)
    × (rake ≡ (if voids cup then 0 else fees * cup.rules.rake_bps / 10000))
compute_pool_lem_example = compute_pool_lem cup (omega arith) (omega arith)

compute_standings-IsRanked_example :
    IsRanked (compute_standings cup)
    × Perm (map line_of (compute_standings cup)) (map entry_line cup.entries)
compute_standings-IsRanked_example = compute_standings-IsRanked cup
