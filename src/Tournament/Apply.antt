-- ===== src/Tournament/Apply.antt =====
-- internal/tournament/state.go and codec.go: applying commands in slot order, once per key.
use paxos_arena.Prelude.{
  ℕ, zero, suc, ◌+◌, ◌%◌, ◌^◌, Bool, true, false, not, Option, none, some, List, [], ◌∷◌, ◌++◌,
  length, leb, if◌then◌else◌, Text, same_text, find, put, signed_less,
}
use paxos_arena.Paxos.{Slot, Ballot, zero_ballot}
use paxos_arena.Ledger.{Posting}
use paxos_arena.Ledger.Book.{postings_since}
use paxos_arena.Ledger.Names.{digits}
use paxos_arena.Tournament.Shapes.{valid_key}
use paxos_arena.Tournament.Commands.{
  Op, Command, Code, Result, is_ok, plain_result, tournament_of, canonical, without_drawn,
}
use paxos_arena.Tournament.State.{State, Host, PlayState, EventRecord, begin_changes, find_round}
use paxos_arena.Tournament.Entries.{create, join, score}
use paxos_arena.Tournament.Closing.{close, settle}
use paxos_arena.Tournament.Play.{open_session, enter_play}
use paxos_arena.Tournament.Moves.{start_round, play_move, finish_command}
use paxos_arena.Tournament.Claims.{claim_payout}

-- `OpName`.
unfoldable pub op_name : Op → Text
op_name (Op.create_tournament o) =
    b'c' ∷ b'r' ∷ b'e' ∷ b'a' ∷ b't' ∷ b'e' ∷ b'_' ∷ b't' ∷ b'o' ∷ b'u' ∷ b'r' ∷ b'n' ∷ b'a' ∷ b'm'
    ∷ b'e' ∷ b'n' ∷ b't' ∷ []
op_name (Op.join_tournament o) = b'j' ∷ b'o' ∷ b'i' ∷ b'n' ∷ []
op_name (Op.submit_score o) =
    b's' ∷ b'u' ∷ b'b' ∷ b'm' ∷ b'i' ∷ b't' ∷ b'_' ∷ b's' ∷ b'c' ∷ b'o' ∷ b'r' ∷ b'e' ∷ []
op_name (Op.close_tournament o) = b'c' ∷ b'l' ∷ b'o' ∷ b's' ∷ b'e' ∷ []
op_name (Op.settle_tournament o) = b's' ∷ b'e' ∷ b't' ∷ b't' ∷ b'l' ∷ b'e' ∷ []
op_name (Op.open_session o) =
    b'o' ∷ b'p' ∷ b'e' ∷ b'n' ∷ b'_' ∷ b's' ∷ b'e' ∷ b's' ∷ b's' ∷ b'i' ∷ b'o' ∷ b'n' ∷ []
op_name (Op.enter_tournament o) = b'e' ∷ b'n' ∷ b't' ∷ b'e' ∷ b'r' ∷ []
op_name (Op.start_round o) =
    b's' ∷ b't' ∷ b'a' ∷ b'r' ∷ b't' ∷ b'_' ∷ b'r' ∷ b'o' ∷ b'u' ∷ b'n' ∷ b'd' ∷ []
op_name (Op.play_move o) = b'p' ∷ b'l' ∷ b'a' ∷ b'y' ∷ b'_' ∷ b'm' ∷ b'o' ∷ b'v' ∷ b'e' ∷ []
op_name (Op.finish_round o) =
    b'f' ∷ b'i' ∷ b'n' ∷ b'i' ∷ b's' ∷ b'h' ∷ b'_' ∷ b'r' ∷ b'o' ∷ b'u' ∷ b'n' ∷ b'd' ∷ []
op_name (Op.claim_payout o) =
    b'c' ∷ b'l' ∷ b'a' ∷ b'i' ∷ b'm' ∷ b'_' ∷ b'p' ∷ b'a' ∷ b'y' ∷ b'o' ∷ b'u' ∷ b't' ∷ []
op_name Op.no_op = []

abbrev pub is_known : Op → Bool
is_known Op.no_op = false
is_known _ = true

-- `Fingerprint`.
unfoldable pub fingerprint : Host → Command → Text
unfolding without_drawn canonical op_name
fingerprint h cmd =
    let op = without_drawn (canonical cmd.op) in
    h.sha256 (op_name op ++ 0 ∷ (if is_known op then h.op_json op else []))

-- The switch of `execute`.
unfoldable pub run_op : Host → Slot → Ballot → ℕ → Op → State → State × Result
unfolding create join score close settle open_session enter_play start_round play_move
    finish_command claim_payout
run_op h slot ballot at (Op.create_tournament o) s = create slot o s
run_op h slot ballot at (Op.join_tournament o) s = join slot ballot o s
run_op h slot ballot at (Op.submit_score o) s = score o s
run_op h slot ballot at (Op.close_tournament o) s = close h slot o s
run_op h slot ballot at (Op.settle_tournament o) s = settle slot ballot o s
run_op h slot ballot at (Op.open_session o) s = open_session slot at o s
run_op h slot ballot at (Op.enter_tournament o) s = enter_play slot ballot o s
run_op h slot ballot at (Op.start_round o) s = start_round slot o s
run_op h slot ballot at (Op.play_move o) s = play_move h slot o s
run_op h slot ballot at (Op.finish_round o) s = finish_command h slot o s
run_op h slot ballot at (Op.claim_payout o) s = claim_payout slot ballot o s
run_op h slot ballot at Op.no_op s = (s, plain_result Code.invalid_op)

-- The end of `execute`: a result is recorded under its key, and a success is counted.
unfoldable pub recorded : Slot → Text → Text → State × Result → State × Result
recorded slot key fp (s, r) =
    let final = record r { slot = slot } in
    (
      record s {
        mutations = if is_ok r.code then (s.mutations + 1) % 2 ^ 64 else s.mutations;
        results = put key (record { fingerprint = fp; result = final }) s.results;
      },
      final,
    )

abbrev pub at_slot : Slot → Code → Result
at_slot slot c = record (plain_result c) { slot = slot }

-- `execute`.
unfoldable pub execute : Host → Slot → Ballot → Command → State → State × Result
unfolding valid_key fingerprint run_op recorded
execute h slot ballot cmd s =
    if not (valid_key cmd.key)
    then (s, at_slot slot Code.invalid_key)
    else elim (find cmd.key s.results) [
      | some r ↦
          if not (same_text r.fingerprint (fingerprint h cmd))
          then (s, at_slot slot Code.key_reused)
          else (s, record r.result { replayed = true })
      | none ↦
          if is_known cmd.op
          then recorded slot cmd.key (fingerprint h cmd)
              (run_op h slot ballot cmd.received_at cmd.op s)
          else (s, at_slot slot Code.invalid_op)
    ]

-- `Encode`, for the operations that it knows.
unfoldable pub encode : Host → Command → Text
unfolding canonical
encode h cmd =
    if is_known cmd.op then h.command_json (record cmd { op = canonical cmd.op }) else h.unencodable

unfoldable pub lines_of : {A : Type 0} → (A → Text) → List A → Text
lines_of f [] = []
lines_of f (x ∷ xs) = f x ++ b'\n' ∷ lines_of f xs

-- `EncodeTournament`, for the tournament that a command is about.
unfoldable pub tournament_line : Host → Text → State → Text
tournament_line h id s = elim (find id s.tournaments) [
  | none ↦ []
  | some t ↦ h.tournament_json (record t { ballot = zero_ballot }) ++ b'\n' ∷ []
]

-- `EncodePostings`.
unfoldable pub posting_lines : Host → List Posting → Text
unfolding lines_of
posting_lines h ps = lines_of (λ p. h.posting_json (record p { ballot = zero_ballot })) ps

abbrev maybe_text : {A : Type 0} → (A → Text) → Option A → Text
maybe_text f none = []
maybe_text f (some x) = f x

unfoldable pub drop_events : ℕ → List EventRecord → List EventRecord
drop_events n [] = []
drop_events zero (e ∷ es) = e ∷ es
drop_events (suc n) (e ∷ es) = drop_events n es

-- `mixPlay`: what it writes. A record that a command changed is in its map.
unfoldable pub play_lines : Host → PlayState → Text
unfolding lines_of drop_events find_round
play_lines h p =
    lines_of
      (λ d.
        b'b'
        ∷ b'i'
        ∷ b'n'
        ∷ b'd'
        ∷ b'i'
        ∷ b'n'
        ∷ b'g'
        ∷ b':'
        ∷ maybe_text h.binding_json (find d p.bindings))
      p.dirty_bindings
    ++ lines_of
        (λ id.
          b'p'
          ∷ b'l'
          ∷ b'a'
          ∷ b'y'
          ∷ b'e'
          ∷ b'r'
          ∷ b':'
          ∷ maybe_text h.player_json (find id p.players))
        p.dirty_players
    ++ lines_of
        (λ k.
          b'r' ∷ b'o' ∷ b'u' ∷ b'n' ∷ b'd' ∷ b':' ∷ maybe_text h.round_json (find_round k p.rounds))
        p.dirty_rounds
    ++ lines_of (λ e. b'e' ∷ b'v' ∷ b'e' ∷ b'n' ∷ b't' ∷ b':' ∷ h.event_json e)
        (drop_events p.events_before p.events)

-- `mix`.
unfoldable pub mix : Host → Slot → Command → Result → ℕ → State → State
unfolding digits encode tournament_line tournament_of posting_lines postings_since play_lines
mix h slot cmd res before s = record s {
  hash = h.sha256 (
      s.hash
      ++ b's' ∷ b'l' ∷ b'o' ∷ b't' ∷ b':' ∷ digits 20 slot (b'\n' ∷ [])
      ++ encode h cmd
      ++ b'\n' ∷ h.result_json res
      ++ b'\n' ∷ tournament_line h (tournament_of cmd.op) s
      ++ posting_lines h (postings_since s.book before)
      ++ play_lines h s.play);
}

-- The state that `Apply` hands to `execute`.
unfoldable pub advanced : Slot → Command → State → State
unfolding begin_changes
advanced slot cmd s = record s {
  applied = slot;
  commands = (s.commands + 1) % 2 ^ 64;
  clock = if signed_less s.clock cmd.received_at then cmd.received_at else s.clock;
  play = begin_changes s.play;
}

-- `Apply`.
unfoldable pub apply : Host → Slot → Ballot → Command → State → State × Result
unfolding advanced execute mix
apply h slot ballot cmd s =
    if leb slot s.applied
    then (s, at_slot slot Code.out_of_order)
    else let (s', res) = execute h slot ballot cmd (advanced slot cmd s) in
      (mix h slot cmd res (length s.book.postings) s', res)

-- `Skip`.
unfoldable pub skip : Host → Slot → State → State
unfolding digits
skip h slot s = if leb slot s.applied then s else record s {
  applied = slot;
  hash = h.sha256 (s.hash ++ b's' ∷ b'k' ∷ b'i' ∷ b'p' ∷ b':' ∷ digits 20 slot []);
}

-- `Replay`.
unfoldable pub replay : Host → Command → State → Option Result
unfolding fingerprint
replay h cmd s = elim (find cmd.key s.results) [
  | none ↦ none
  | some r ↦
      if not (same_text r.fingerprint (fingerprint h cmd))
      then some (plain_result Code.key_reused)
      else some (record r.result { replayed = true })
]

-- A chosen entry: a command under a ballot, or one that is skipped.
pub data Chosen : Type 0 where
  chosen_command : Slot → Ballot → Command → Chosen
  chosen_skip : Slot → Chosen

unfoldable pub apply_all : Host → List Chosen → State → State
unfolding apply skip
apply_all h [] s = s
apply_all h (Chosen.chosen_command slot ballot cmd ∷ cs) s =
    apply_all h cs (apply h slot ballot cmd s).0
apply_all h (Chosen.chosen_skip slot ∷ cs) s = apply_all h cs (skip h slot s)
