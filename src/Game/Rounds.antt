-- ===== src/Game/Rounds.antt =====
-- What the moves of a round promise: cards are kept, a round ends, and its score only grows.
use mathlib.Core.Path.{subst}
use paxos_arena.Prelude.{
  Text, ℕ, suc, ◌+◌, ◌-◌, ◌≤◌, ◌≡◌, refl, sym, ap, ◌∙◌, ◌⊎◌, inl, inr, false, none, some, List, [],
  ◌∷◌, ◌++◌, length, ltb, ◌==◌, if◌then◌else◌, Bool-cases, Option-cases, arith,
}
use paxos_arena.Game.{
  Card, Board, Move, MoveKind, Illegal, deck_size, column_count, tableau_size, stock_size,
  max_round_score,
}
use paxos_arena.Game.Deck.{Draws, deal}
use paxos_arena.Game.Rules.{
  last_card, drop_last, column_at, set_column, cards_left, cleared_cards, board_score, round_end,
  check_shape, check_cards, check_move, make_draw, make_play, make, apply_move, replay_moves,
}
use paxos_arena.Game.Cards.{
  occurs, on_board, occurs-append, occurs-last, length-drop_last, occurs_in-set_column,
  cards_left-set_column, length-set_column,
}
use paxos_arena.Game.Shuffle.{on_board-deal, deal_size}

-- The cards that a move can still take: those of the columns and of the stock.
abbrev pub to_play : Board → ℕ
to_play b = cards_left b.columns + length b.stock

-- What a legal move does to a board, whatever its kind.
record IsStep (b b' : Board) : Type 0 where
  kept : (c : Card) → on_board c b' ≡ on_board c b
  fewer : suc (to_play b') ≡ to_play b
  counted : b'.moves ≡ suc b.moves
  columns_kept : length b'.columns ≡ length b.columns
  columns_less : cards_left b'.columns ≤ cards_left b.columns
  stock_less : length b'.stock ≤ length b.stock

draw-IsStep :
    (cols : List (List Card)) (w s : List Card) (n : ℕ)
    → let b : Board = record { columns = cols; waste = w; stock = s; moves = n } in
      (column : ℕ) → check_cards b MoveKind.draw column ≡ none → IsStep b (make_draw b)
unfolding check_cards make_draw on_board occurs
draw-IsStep cols w [] n column legal = cc
draw-IsStep cols w (c ∷ cs) n column legal = record {
  kept = λ d. omega (arith, occurs-append d w (c ∷ []));
  fewer = omega arith;
  counted = refl;
  columns_kept = refl;
  columns_less = omega arith;
  stock_less = omega arith;
}

play-IsStep :
    (b : Board) (i : ℕ) (c : Card)
    → last_card (column_at i b.columns) ≡ some c
    → IsStep b (record b {
      columns = set_column i (drop_last (column_at i b.columns)) b.columns;
      waste = b.waste ++ c ∷ [];
      moves = suc b.moves;
    })
unfolding on_board occurs
play-IsStep b i c top =
    let col = column_at i b.columns in
    let left = cards_left-set_column c i (drop_last col) b.columns top in
    let less = length-drop_last c col top in
    record {
      kept = λ d. omega (
        arith,
        occurs-append d b.waste (c ∷ []),
        occurs_in-set_column d c i (drop_last col) b.columns top,
        occurs-last d c col top,
      );
      fewer = omega (arith, left, less);
      counted = refl;
      columns_kept = length-set_column i (drop_last col) b.columns;
      columns_less = omega (arith, left, less);
      stock_less = omega arith;
    }

make_play-IsStep :
    (b : Board) (i : ℕ) → check_cards b MoveKind.play i ≡ none → IsStep b (make_play i b)
unfolding check_cards make_play
make_play-IsStep b i legal = elim (Option-cases (last_card (column_at i b.columns))) [
  | inl e ↦ absurd (cc (rw (e, check_cards) at legal))
  | inr (c, e) ↦ rw (e, make_play) (play-IsStep b i c e)
]

make-IsStep :
    (b : Board) (k : MoveKind) (i : ℕ)
    → check_shape k i ≡ none
    → check_cards b k i ≡ none
    → IsStep b (make k i b)
unfolding make check_shape
make-IsStep b MoveKind.draw i shape legal = draw-IsStep b.columns b.waste b.stock b.moves i legal
make-IsStep b MoveKind.play i shape legal = make_play-IsStep b i legal
make-IsStep b MoveKind.other i shape legal = cc

-- A legal move has the shape of a move, comes before the round is over, and fits the cards.
pub check_move-parts :
    (b : Board) (m : Move)
    → check_move b m ≡ none
    → (check_shape m.kind m.column ≡ none)
      × (round_end b ≡ none)
      × (check_cards b m.kind m.column ≡ none)
unfolding check_move
check_move-parts b m legal = elim (Option-cases (check_shape m.kind m.column)) [
  | inr (e, bad) ↦
      let refused : check_move b m ≡ some e = rw (bad, check_move) refl in
      absurd (cc (sym refused ∙ legal))
  | inl shape ↦ elim (Option-cases (round_end b)) [
    | inr (r, over) ↦
        let refused : check_move b m ≡ some Illegal.round_over =
          rw (shape, check_move) (rw over refl) in
        absurd (cc (sym refused ∙ legal))
    | inl live ↦
        let same : check_move b m ≡ check_cards b m.kind m.column =
          rw (shape, check_move) (rw live refl) in
        (shape, live, sym same ∙ legal)
  ]
]

-- Apply makes a step when it reports no error, and changes nothing when it reports one.
apply_move-cases :
    (b : Board) (m : Move)
    → ((apply_move b m ≡ (make m.kind m.column b, none)) × (check_move b m ≡ none))
      ⊎ ((e : Illegal) × (apply_move b m ≡ (b, some e)))
unfolding apply_move
apply_move-cases b m = elim (Option-cases (check_move b m)) [
  | inl legal ↦ inl (rw (legal, apply_move) refl, legal)
  | inr (e, illegal) ↦ inr (e, rw (illegal, apply_move) refl)
]

legal-IsStep : (b : Board) (m : Move) → check_move b m ≡ none → IsStep b (make m.kind m.column b)
legal-IsStep b m legal =
    let (shape, live, cards) = check_move-parts b m legal in
    make-IsStep b m.kind m.column shape cards

replay-go :
    (b : Board) (m : Move) (ms : List Move)
    → (apply_move b m).1 ≡ none
    → replay_moves b (m ∷ ms) ≡ replay_moves (apply_move b m).0 ms
unfolding replay_moves
replay-go b m ms e = rw (e, replay_moves) refl

replay-stop :
    (b : Board) (m : Move) (ms : List Move) (x : Illegal)
    → (apply_move b m).1 ≡ some x
    → replay_moves b (m ∷ ms) ≡ (b, some x)
unfolding replay_moves
replay-stop b m ms x e = rw (e, replay_moves) refl

-- What every accepted move keeps holds after any moves.
replay_moves-keeps :
    (P : Board → Type 0)
    → ((b : Board) (m : Move) → P b → check_move b m ≡ none → P (apply_move b m).0)
    → (b : Board) (ms : List Move) → P b
    → P (replay_moves b ms).0
unfolding replay_moves
replay_moves-keeps P step b [] h = h
replay_moves-keeps P step b (m ∷ ms) h = elim (apply_move-cases b m) [
  | inl (done, legal) ↦
      subst (λ r. P r.0) (sym (replay-go b m ms (ap (λ r. r.1) done)))
        (replay_moves-keeps P step (apply_move b m).0 ms (step b m h legal))
  | inr (x, refused) ↦ subst (λ r. P r.0) (sym (replay-stop b m ms x (ap (λ r. r.1) refused))) h
]

accepted :
    (b : Board) (m : Move) → check_move b m ≡ none → apply_move b m ≡ (make m.kind m.column b, none)
unfolding apply_move
accepted b m legal = rw (legal, apply_move) refl

apply_move-IsStep : (b : Board) (m : Move) → check_move b m ≡ none → IsStep b (apply_move b m).0
apply_move-IsStep b m legal =
    subst (λ r. IsStep b r.0) (sym (accepted b m legal)) (legal-IsStep b m legal)

-- After a deal and any moves, legal or not, each of the 52 cards stands once on the board, in a
-- column, in the waste or in the stock, and nothing else stands there.
pub replay_moves-deal :
    {digest : Text → Text} {seed : Text} (d : Draws digest seed) (ms : List Move) (c : Card)
    → on_board c (replay_moves (deal d) ms).0 ≡ (if ltb c deck_size then 1 else 0)
replay_moves-deal d ms c =
    replay_moves-keeps (λ b. on_board c b ≡ (if ltb c deck_size then 1 else 0))
      (λ b m h legal. (apply_move-IsStep b m legal).kept c ∙ h) (deal d) ms (on_board-deal d c)

to_play-replay_moves :
    (b : Board) (ms : List Move)
    → (replay_moves b ms).1 ≡ none
    → length ms + to_play (replay_moves b ms).0 ≡ to_play b
unfolding replay_moves
to_play-replay_moves b [] fine = omega arith
to_play-replay_moves b (m ∷ ms) fine = elim (apply_move-cases b m) [
  | inl (done, legal) ↦
      let next = replay-go b m ms (ap (λ r. r.1) done) in
      let rest = to_play-replay_moves (apply_move b m).0 ms (ap (λ r. r.1) (sym next) ∙ fine) in
      let less = (apply_move-IsStep b m legal).fewer in
      subst (λ r. length (m ∷ ms) + to_play r.0 ≡ to_play b) (sym next) (omega (arith, rest, less))
  | inr (x, refused) ↦
      let stop = replay-stop b m ms x (ap (λ r. r.1) refused) in
      absurd (cc (ap (λ r. r.1) (sym stop) ∙ fine))
]

-- Moves that are all accepted on a dealt board are at most 51, one for each card of the columns
-- and of the stock: a round of Ladder ends.
pub length-replay_moves :
    {digest : Text → Text} {seed : Text} (d : Draws digest seed) (ms : List Move)
    → (replay_moves (deal d) ms).1 ≡ none
    → length ms ≤ deck_size - 1
length-replay_moves d ms fine =
    let (left, stock, columns) = deal_size d in
    omega (arith, to_play-replay_moves (deal d) ms fine, left, stock)

-- Before a round is over the columns are not clear, so the score holds no bonus.
live-not_clear : (b : Board) → round_end b ≡ none → (cleared_cards b == tableau_size) ≡ false
unfolding round_end
live-not_clear b live = elim (Bool-cases (cleared_cards b == tableau_size)) [
  | inl e ↦ absurd (cc (rw (e, round_end) at live))
  | inr e ↦ e
]

-- An accepted move never lowers the score.
pub board_score-apply_move :
    (b : Board) (m : Move) → check_move b m ≡ none → board_score b ≤ board_score (apply_move b m).0
unfolding board_score cleared_cards
board_score-apply_move b m legal =
    let (shape, live, cards) = check_move-parts b m legal in
    let no_bonus = live-not_clear b live in
    let less = (apply_move-IsStep b m legal).columns_less in ground (arith, no_bonus, less)

-- A score from a dealt board is at most 4800.
pub board_score-replay_moves :
    {digest : Text → Text} {seed : Text} (d : Draws digest seed) (ms : List Move)
    → board_score (replay_moves (deal d) ms).0 ≤ max_round_score
unfolding board_score cleared_cards
board_score-replay_moves d ms =
    let few =
      replay_moves-keeps (λ b. length b.stock ≤ stock_size)
        (λ b m h legal. omega (arith, (apply_move-IsStep b m legal).stock_less, h)) (deal d) ms
        (omega (arith, (deal_size d).1)) in
    ground (arith, few)

-- The columns of a board stay seven.
pub columns-replay_moves :
    {digest : Text → Text} {seed : Text} (d : Draws digest seed) (ms : List Move)
    → length (replay_moves (deal d) ms).0.columns ≡ column_count
columns-replay_moves d ms =
    replay_moves-keeps (λ b. length b.columns ≡ column_count)
      (λ b m h legal. (apply_move-IsStep b m legal).columns_kept ∙ h) (deal d) ms (deal_size d).2
