-- ===== src/Game/Endings.antt =====
-- When a round is over: exactly when no move is legal.
use paxos_arena.Prelude.{
  ℕ, zero, suc, ◌<◌, ◌≡◌, refl, sym, ◌∙◌, ◌⊎◌, ◌↔◌, inl, inr, true, false, none, some, List, [],
  ◌∷◌, length, ltb, ◌&&◌, ◌==◌, Bool-cases, Option-cases, arith,
}
use paxos_arena.Game.{
  Card, Board, Move, MoveKind, FinishReason, adjacent, column_count, tableau_size, no_column,
}
use paxos_arena.Game.Rules.{
  last_card, column_at, cards_left, cleared_cards, waste_card, fits, playable_from, playable,
  round_end, check_shape, check_cards, check_move, is_empty,
}
use paxos_arena.Game.Rounds.{check_move-parts}

-- A column that fits is a legal play.
playable_from-first :
    (i : ℕ) (cols : List (List Card)) (w : Card)
    → is_empty (playable_from i cols w) ≡ false
    → (j : ℕ) × (j < length cols) × (fits (column_at j cols) w ≡ true)
unfolding playable_from column_at
playable_from-first i [] w h = cc
playable_from-first i (col ∷ cols) w h = elim (Bool-cases (fits col w)) [
  | inl e ↦ (zero, omega arith, e)
  | inr e ↦
      let (j, small, fit) = playable_from-first (suc i) cols w (rw e at h) in
      (suc j, omega arith, fit)
]

check_cards-fits :
    (b : Board) (j : ℕ)
    → fits (column_at j b.columns) (waste_card b) ≡ true
    → check_cards b MoveKind.play j ≡ none
unfolding check_cards fits
check_cards-fits b j h = elim (Option-cases (last_card (column_at j b.columns))) [
  | inl e ↦ absurd (cc (rw (e, fits) at h))
  | inr (c, e) ↦
      let near : adjacent c (waste_card b) ≡ true = rw (e, fits) at h in
      rw (e, check_cards) (rw near refl)
]

check_move-built :
    (b : Board) (m : Move)
    → round_end b ≡ none
    → check_shape m.kind m.column ≡ none
    → check_cards b m.kind m.column ≡ none
    → check_move b m ≡ none
unfolding check_move
check_move-built b m live shape cards = rw (shape, check_move) (rw live cards)

live-cases :
    (b : Board) → round_end b ≡ none → (is_empty b.stock ≡ false) ⊎ (is_empty (playable b) ≡ false)
unfolding round_end
live-cases b live = elim (Bool-cases (is_empty b.stock)) [
  | inr some_left ↦ inl some_left
  | inl no_stock ↦ elim (Bool-cases (is_empty (playable b))) [
    | inr some_fit ↦ inr some_fit
    | inl no_fit ↦ elim (Bool-cases (cleared_cards b == tableau_size)) [
      | inl clear ↦
          let over : round_end b ≡ some FinishReason.cleared = rw (clear, round_end) refl in
          absurd (cc (sym over ∙ live))
      | inr not_clear ↦
          let over : round_end b ≡ some FinishReason.blocked =
            rw (not_clear, no_stock, no_fit, round_end) refl in
          absurd (cc (sym over ∙ live))
    ]
  ]
]

check_cards-stock :
    (b : Board) (i : ℕ) → is_empty b.stock ≡ false → check_cards b MoveKind.draw i ≡ none
unfolding check_cards
check_cards-stock b i left = rw (left, check_cards) refl

playable_from-fits :
    (i j : ℕ) (cols : List (List Card)) (w : Card)
    → fits (column_at j cols) w ≡ true
    → is_empty (playable_from i cols w) ≡ false
unfolding playable_from column_at fits
playable_from-fits i j [] w h = cc
playable_from-fits i zero (col ∷ cols) w h = rw h refl
playable_from-fits i (suc j) (col ∷ cols) w h = elim (Bool-cases (fits col w)) [
  | inl e ↦ rw e refl
  | inr e ↦ rw e (playable_from-fits (suc i) j cols w h)
]

-- A card that can go onto the waste: the next of the stock, or the top of a column that is one rank
-- away from the waste card.
pub data Offers (b : Board) : Type 0 where
  from_stock : (c : Card) (cs : List Card) → b.stock ≡ c ∷ cs → Offers b
  from_column :
      (i : ℕ) (c : Card)
      → i < column_count
      → last_card (column_at i b.columns) ≡ some c
      → adjacent c (waste_card b) ≡ true
      → Offers b

-- Cards are left in the columns, and one can be moved.
abbrev pub IsLive : Board → Type 0
IsLive b = (0 < cards_left b.columns) × Offers b

stock_card : (cs : List Card) → is_empty cs ≡ false → (d : Card) × (ds : List Card) × (cs ≡ d ∷ ds)
stock_card [] h = cc
stock_card (d ∷ ds) h = (d, ds, refl)

column_card :
    (col : List Card) (w : Card)
    → fits col w ≡ true
    → (c : Card) × (last_card col ≡ some c) × (adjacent c w ≡ true)
unfolding fits
column_card col w h = elim (Option-cases (last_card col)) [
  | inl e ↦ absurd (cc (rw (e, fits) at h))
  | inr (c, e) ↦ (c, e, (rw (e, fits) at h))
]

round_end-none :
    (b : Board)
    → (cleared_cards b == tableau_size) ≡ false
    → (is_empty b.stock && is_empty (playable b)) ≡ false
    → round_end b ≡ none
unfolding round_end
round_end-none b left some_card = rw left (rw some_card refl)

not_over-cleared : (b : Board) → round_end b ≡ none → (cleared_cards b == tableau_size) ≡ false
unfolding round_end
not_over-cleared b live = ground arith

-- On a board of seven columns, a round is not over exactly when cards are left in the columns and
-- the stock has a card or the top of a column is one rank away from the waste card, and this holds
-- exactly when some move is legal.
pub round_end_iff :
    (b : Board)
    → length b.columns ≡ column_count
    → ((round_end b ≡ none) ↔ IsLive b) × (IsLive b ↔ ((m : Move) × (check_move b m ≡ none)))
unfolding check_shape playable cleared_cards check_move check_cards
round_end_iff b seven = ((live, going), (move, λ (m, legal). live (check_move-parts b m legal).1))
  where
    offer : round_end b ≡ none → Offers b
    offer going_on = elim (live-cases b going_on) [
      | inl some_left ↦ let (c, cs, e) = stock_card b.stock some_left in Offers.from_stock c cs e
      | inr some_fit ↦
          let (j, small, fit) = playable_from-first 0 b.columns (waste_card b) some_fit in
          let (c, top, near) = column_card (column_at j b.columns) (waste_card b) fit in
          Offers.from_column j c (omega (arith, seven, small)) top near
    ]

    live : round_end b ≡ none → IsLive b
    live going_on = let left = not_over-cleared b going_on in (ground (arith, left), offer going_on)

    going : IsLive b → round_end b ≡ none
    going (left, Offers.from_stock c cs e) = round_end-none b (ground arith) (rw e refl)
    going (left, Offers.from_column i c small top near) =
        let fit : fits (column_at i b.columns) (waste_card b) ≡ true = rw (top, fits) near in
        let some_fit : is_empty (playable b) ≡ false =
          playable_from-fits 0 i b.columns (waste_card b) fit in
        round_end-none b (ground arith) (ground (arith, some_fit))

    move : IsLive b → (m : Move) × (check_move b m ≡ none)
    move (left, Offers.from_stock c cs e) =
        let not_over = going (left, Offers.from_stock c cs e) in
        (
          record { kind = MoveKind.draw; column = no_column },
          rw (not_over, check_move) (rw (e, check_cards) refl),
        )
    move (left, Offers.from_column i c small top near) =
        let not_over = going (left, Offers.from_column i c small top near) in
        let inside : ltb i column_count ≡ true = ground arith in
        (
          record { kind = MoveKind.play; column = i },
          rw (inside, check_move) (rw not_over (rw (top, check_cards) (rw near refl))),
        )
