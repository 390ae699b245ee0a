-- ===== src/Game/Names.antt =====
-- internal/game/game.go: cards as text are read back.
use paxos_arena.Prelude.{
  ℕ, zero, suc, ◌<◌, ◌≡◌, refl, ap, ◌∙◌, inl, inr, Bool, true, false, ◌&&◌, none, some, ◌==◌,
  Bool-cases, Option-cases, arith,
}
use paxos_arena.Game.{Card, deck_size, card_text, parse_card}

-- A test that holds of every number below a bound, by running it.
holds_below : (ℕ → Bool) → ℕ → Bool
holds_below f zero = true
holds_below f (suc n) = f n && holds_below f n

holds_below_lem : (f : ℕ → Bool) (n c : ℕ) → holds_below f n ≡ true → c < n → f c ≡ true
unfolding holds_below
holds_below_lem f zero c h small = absurd (omega arith)
holds_below_lem f (suc n) c h small = elim (Bool-cases (c == n)) [
  | inl e ↦ let same : n ≡ c = ground arith in rw (← same) (ground arith)
  | inr e ↦ holds_below_lem f n c (ground arith) (ground arith)
]

reads_back : Card → Bool
unfolding card_text parse_card
reads_back c = elim (parse_card (card_text c)) [ none ↦ false | some d ↦ d == c ]

all_read_back : holds_below reads_back deck_size ≡ true
unfolding holds_below reads_back
all_read_back = refl

-- The text of each of the 52 cards is read back as that card.
pub parse_card-card_text : (c : Card) → c < deck_size → parse_card (card_text c) ≡ some c
unfolding reads_back
parse_card-card_text c small = elim (Option-cases (parse_card (card_text c))) [
  | inl e ↦ absurd (cc (rw (e, reads_back) at read))
  | inr (d, e) ↦
      let same : (d == c) ≡ true = rw (e, reads_back) at read in e ∙ ap some (ground arith)
]
  where
    read : reads_back c ≡ true
    read = holds_below_lem reads_back deck_size c all_read_back small
