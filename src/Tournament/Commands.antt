-- ===== src/Tournament/Commands.antt =====
-- internal/tournament/tournament.go, play.go and codec.go: commands and their results. The detail
-- texts of results are left out.
use paxos_arena.Prelude.{ℕ, Bool, true, false, [], ◌∷◌, Text}
use paxos_arena.Ledger.{Money}
use paxos_arena.Paxos.{Slot}
use paxos_arena.Game.{Move}
use paxos_arena.Tournament.{Exclusions, Player, Rules}
use paxos_arena.Tournament.Shapes.{canonical_exclusions}

pub record CreateTournament : Type 0 where
  pub id : Text
  pub seed : ℕ
  pub rules : Rules

pub record Join : Type 0 where
  pub tournament : Text
  pub player : Player

pub record SubmitScore : Type 0 where
  pub tournament : Text
  pub player : Text
  pub score : ℕ
  pub deal_seed : ℕ
  pub input_digest : Text

pub record Close : Type 0 where
  pub tournament : Text

pub record Settle : Type 0 where
  pub tournament : Text
  pub exclusions : Exclusions

pub record OpenSession : Type 0 where
  pub device : Text
  pub verifier : Text
  pub player : Text
  pub jurisdiction : Text
  pub age : ℕ

pub record Enter : Type 0 where
  pub tournament : Text
  pub player : Text
  pub seq : ℕ

pub record StartRound : Type 0 where
  pub tournament : Text
  pub player : Text
  pub seq : ℕ
  pub round : ℕ
  pub seed : Text

pub record PlayMove : Type 0 where
  pub tournament : Text
  pub player : Text
  pub seq : ℕ
  pub round : ℕ
  pub move_index : ℕ
  pub move : Move

pub record FinishRound : Type 0 where
  pub tournament : Text
  pub player : Text
  pub seq : ℕ
  pub round : ℕ

pub record ClaimPayout : Type 0 where
  pub tournament : Text
  pub player : Text
  pub seq : ℕ

-- `no_op` is a nil operation.
pub data Op : Type 0 where
  create_tournament : CreateTournament → Op
  join_tournament : Join → Op
  submit_score : SubmitScore → Op
  close_tournament : Close → Op
  settle_tournament : Settle → Op
  open_session : OpenSession → Op
  enter_tournament : Enter → Op
  start_round : StartRound → Op
  play_move : PlayMove → Op
  finish_round : FinishRound → Op
  claim_payout : ClaimPayout → Op
  no_op : Op

pub record Command : Type 0 where
  pub key : Text
  pub received_at : ℕ
  pub op : Op

pub data Code : Type 0 where
  ok_code key_reused invalid_key out_of_order invalid_op invalid_rules tournament_exists : Code
  unknown_tournament not_open tournament_full already_joined jurisdiction_excluded : Code
  underage invalid_player not_joined already_scored seed_mismatch score_out_of_range : Code
  not_closed invalid_exclusions ledger_conflict : Code
  invalid_device device_mismatch player_exists unknown_player stale_seq seq_gap : Code
  not_play_tournament play_intent_required invalid_round round_already_started : Code
  previous_round_unfinished round_not_started round_finished round_expired : Code
  move_index_mismatch illegal_move not_settled no_payout already_claimed : Code

abbrev pub is_ok : Code → Bool
is_ok Code.ok_code = true
is_ok _ = false

pub record PlayOutcome : Type 0 where
  pub player : Text
  pub new_player : Bool
  pub issued_at_ms : ℕ
  pub next_seq : ℕ
  pub round : ℕ
  pub move_index : ℕ
  pub join_seq : ℕ
  pub amount : Money

abbrev pub no_outcome : PlayOutcome
no_outcome = record {
  player = [];
  new_player = false;
  issued_at_ms = 0;
  next_seq = 0;
  round = 0;
  move_index = 0;
  join_seq = 0;
  amount = 0;
}

pub record Result : Type 0 where
  pub code : Code
  pub replayed : Bool
  pub slot : Slot
  pub seed : ℕ
  pub outcome : PlayOutcome

-- A result with a code and an outcome and nothing else: `playReject`, and `Result{Code, Play}`.
abbrev pub play_result : Code → PlayOutcome → Result
play_result c out = record { code = c; replayed = false; slot = 0; seed = 0; outcome = out }

-- `reject`, and `Result{Code: OK}`.
abbrev pub plain_result : Code → Result
plain_result c = play_result c no_outcome

-- `TournamentOf`.
unfoldable pub tournament_of : Op → Text
tournament_of (Op.create_tournament o) = o.id
tournament_of (Op.join_tournament o) = o.tournament
tournament_of (Op.submit_score o) = o.tournament
tournament_of (Op.close_tournament o) = o.tournament
tournament_of (Op.settle_tournament o) = o.tournament
tournament_of (Op.open_session o) = []
tournament_of (Op.enter_tournament o) = o.tournament
tournament_of (Op.start_round o) = o.tournament
tournament_of (Op.play_move o) = o.tournament
tournament_of (Op.finish_round o) = o.tournament
tournament_of (Op.claim_payout o) = o.tournament
tournament_of Op.no_op = []

unfoldable pub canonical : Op → Op
unfolding canonical_exclusions
canonical (Op.create_tournament o) =
    let rules = record o.rules { exclusions = canonical_exclusions o.rules.exclusions } in
    Op.create_tournament (record o { rules = rules })
canonical (Op.settle_tournament o) =
    Op.settle_tournament (record o { exclusions = canonical_exclusions o.exclusions })
canonical op = op

-- The zero value of a digest and of a seed, which have 32 bytes.
abbrev pub zero_bytes : Text
zero_bytes = zeros 32
  where
    zeros : ℕ → Text
    zeros ℕ.zero = []
    zeros (ℕ.suc n) = 0 ∷ zeros n

-- What `Fingerprint` leaves out: the values that a server draws.
unfoldable pub without_drawn : Op → Op
without_drawn (Op.create_tournament o) = Op.create_tournament (record o { seed = 0 })
without_drawn (Op.open_session o) = Op.open_session (record o { player = [] })
without_drawn (Op.start_round o) = Op.start_round (record o { seed = zero_bytes })
without_drawn op = op
