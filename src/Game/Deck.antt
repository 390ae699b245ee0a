-- ===== src/Game/Deck.antt =====
-- internal/game/rules.go: the stream of a seed, the shuffle and the layout. The digest, SHA-256, is
-- a parameter.
use paxos_arena.Prelude.{
  ℕ, zero, suc, ◌+◌, ◌-◌, ◌*◌, ◌/◌, ◌%◌, ◌^◌, ◌<◌, List, [], ◌∷◌, ◌++◌, if◌then◌else◌, leb, ◌==◌,
  Text,
}
use paxos_arena.Game.{Card, Board, deck_size, column_count, column_depth, tableau_size}

abbrev pub digest_size : ℕ
digest_size = 32

pub record Stream : Type 0 where
  pub block : ℕ
  pub buf : Text
  pub off : ℕ

-- `newStream`; the seed stands in the calls.
abbrev pub new_stream : Stream
new_stream = record { block = 0; buf = []; off = digest_size }

-- `PutUint64` for `n` of 8: the bytes of a number, the highest first.
unfoldable pub big_endian : ℕ → ℕ → Text
big_endian zero x = []
big_endian (suc n) x = x / 256 ^ n % 256 ∷ big_endian n x

-- A byte of the buffer; beyond its end, which a digest of 32 bytes never reaches, it is 0.
unfoldable pub byte_at : ℕ → Text → ℕ
byte_at i [] = 0
byte_at zero (c ∷ cs) = c
byte_at (suc i) (c ∷ cs) = byte_at i cs

-- The next block, when the buffer is used up.
unfoldable pub refill : (Text → Text) → Text → Stream → Stream
unfolding big_endian
refill digest seed st =
    if st.off == digest_size
    then record {
      block = (st.block + 1) % 2 ^ 64;
      buf = digest (seed ++ big_endian 8 st.block);
      off = 0;
    }
    else st

-- One round of the loop of `next32`.
unfoldable pub next_byte : (Text → Text) → Text → Stream → ℕ × Stream
unfolding byte_at refill
next_byte digest seed st =
    let st' = refill digest seed st in (byte_at st'.off st'.buf, record st' { off = suc st'.off })

-- `next32`.
unfoldable pub next32 : (Text → Text) → Text → Stream → ℕ × Stream
unfolding next_byte
next32 digest seed st0 =
    let (a, st1) = next_byte digest seed st0 in
    let (b, st2) = next_byte digest seed st1 in
    let (c, st3) = next_byte digest seed st2 in
    let (d, st4) = next_byte digest seed st3 in (((a * 256 + b) * 256 + c) * 256 + d, st4)

-- The stream after `k` calls of `next32`, and the value of the call after them.
unfoldable pub stream_at : (Text → Text) → Text → ℕ → Stream
unfolding next32
stream_at digest seed zero = new_stream
stream_at digest seed (suc k) = (next32 digest seed (stream_at digest seed k)).1

unfoldable pub draw_at : (Text → Text) → Text → ℕ → ℕ
unfolding next32 stream_at
draw_at digest seed k = (next32 digest seed (stream_at digest seed k)).0

-- What the shuffle of a seed relies on, since its loops end by no other reason: `wait k` bounds how
-- many values from the k-th on are refused before one below 2 ^ 31, which every limit of the shuffle
-- lets through.
pub record Draws (digest : Text → Text) (seed : Text) : Type 0 where
  pub wait : ℕ → ℕ
  pub soon : (k : ℕ) → (j : ℕ) × (j < wait k) × (draw_at digest seed (k + j) < 2 ^ 31)

-- The loop that refuses a draw at or above `limit`: the draw, and how many were taken.
unfoldable pub take_draw : ℕ → (ℕ → ℕ) → ℕ → ℕ → ℕ × ℕ
take_draw zero next limit k = (next k, suc k)
take_draw (suc fuel) next limit k =
    let more = take_draw fuel next limit (suc k) in
    if leb limit (next k) then more else (next k, suc k)

abbrev pub limit_of : ℕ → ℕ
limit_of n = 2 ^ 32 - 2 ^ 32 % n

unfoldable pub card_at : ℕ → List Card → Card
card_at i [] = 0
card_at zero (c ∷ cs) = c
card_at (suc i) (c ∷ cs) = card_at i cs

unfoldable pub set_card : ℕ → Card → List Card → List Card
set_card i new [] = []
set_card zero new (c ∷ cs) = new ∷ cs
set_card (suc i) new (c ∷ cs) = c ∷ set_card i new cs

unfoldable pub swap : ℕ → ℕ → List Card → List Card
unfolding set_card card_at
swap i j deck = set_card j (card_at i deck) (set_card i (card_at j deck) deck)

-- The loop of `shuffleWith` from position `i` down to 1, with `k` draws taken.
unfoldable pub shuffle_from :
    {digest : Text → Text} {seed : Text} → ℕ → Draws digest seed → ℕ → List Card → List Card
unfolding take_draw swap draw_at
shuffle_from zero d k deck = deck
shuffle_from {digest} {seed} (suc i) d k deck =
    let (x, k') = take_draw (d.wait k) (draw_at digest seed) (limit_of (i + 2)) k in
    shuffle_from i d k' (swap (suc i) (x % (i + 2)) deck)

unfoldable pub cards_from : ℕ → Card → List Card
cards_from zero c = []
cards_from (suc n) c = c ∷ cards_from n (suc c)

-- `shuffleWith`.
unfoldable pub shuffle : {digest : Text → Text} {seed : Text} → Draws digest seed → List Card
unfolding shuffle_from cards_from
shuffle d = shuffle_from (deck_size - 1) d 0 (cards_from deck_size 0)

unfoldable pub take_cards : ℕ → List Card → List Card
take_cards zero cs = []
take_cards (suc n) [] = []
take_cards (suc n) (c ∷ cs) = c ∷ take_cards n cs

unfoldable pub drop_cards : ℕ → List Card → List Card
drop_cards zero cs = cs
drop_cards (suc n) [] = []
drop_cards (suc n) (c ∷ cs) = drop_cards n cs

-- The first loop of `layout`: `count` columns off the front of the deck.
unfoldable pub deal_columns : ℕ → List Card → List (List Card)
unfolding take_cards drop_cards
deal_columns zero deck = []
deal_columns (suc count) deck =
    take_cards column_depth deck ∷ deal_columns count (drop_cards column_depth deck)

-- `layout`.
unfoldable pub layout : List Card → Board
unfolding deal_columns
layout deck =
    let rest = drop_cards tableau_size deck in
    record {
      columns = deal_columns column_count deck;
      waste = take_cards 1 rest;
      stock = drop_cards 1 rest;
      moves = 0;
    }

-- `Deal`.
unfoldable pub deal : {digest : Text → Text} {seed : Text} → Draws digest seed → Board
unfolding shuffle layout
deal d = layout (shuffle d)
