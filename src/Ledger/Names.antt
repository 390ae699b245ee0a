-- ===== src/Ledger/Names.antt =====
-- internal/ledger/ledger.go: posting kinds, account names and posting keys.
use paxos_arena.Prelude.{
  ℕ, zero, suc, ◌+◌, ◌-◌, ◌/◌, ◌%◌, ◌^◌, [], ◌∷◌, ◌++◌, ltb, if◌then◌else◌, Text, is_negative,
}

abbrev pub entry_fee_kind : ℕ
entry_fee_kind = 1

abbrev pub rake_kind : ℕ
rake_kind = 2

abbrev pub prize_kind : ℕ
prize_kind = 3

abbrev pub withheld_kind : ℕ
withheld_kind = 4

abbrev pub refund_kind : ℕ
refund_kind = 5

abbrev pub claim_kind : ℕ
claim_kind = 6

-- `strconv.Itoa` of a number below 10 ^ fuel, in front of `rest`.
unfoldable pub digits : ℕ → ℕ → Text → Text
digits zero n rest = rest
digits (suc fuel) n rest =
    let more = digits fuel (n / 10) ((b'0' + n % 10) ∷ rest) in
    if ltb n 10 then (b'0' + n) ∷ rest else more

-- Twenty digits hold every int.
unfoldable pub int_text : ℕ → Text
unfolding digits
int_text n = if is_negative n then b'-' ∷ digits 20 (2 ^ 64 - n) [] else digits 20 n []

unfoldable pub player_account : Text → Text
player_account id = b'p' ∷ b'l' ∷ b'a' ∷ b'y' ∷ b'e' ∷ b'r' ∷ b':' ∷ id

unfoldable pub pool_account : Text → Text
pool_account tid = b'p' ∷ b'o' ∷ b'o' ∷ b'l' ∷ b':' ∷ tid

unfoldable pub rake_account : Text → Text
rake_account tid = b'r' ∷ b'a' ∷ b'k' ∷ b'e' ∷ b':' ∷ tid

unfoldable pub withheld_account : Text → Text
withheld_account tid = b'w' ∷ b'i' ∷ b't' ∷ b'h' ∷ b'h' ∷ b'e' ∷ b'l' ∷ b'd' ∷ b':' ∷ tid

unfoldable pub claims_account : Text → Text
claims_account tid = b'c' ∷ b'l' ∷ b'a' ∷ b'i' ∷ b'm' ∷ b's' ∷ b':' ∷ tid

unfoldable pub fee_key : Text → Text → Text
fee_key tid pid = b'f' ∷ b'e' ∷ b'e' ∷ b':' ∷ tid ++ b':' ∷ pid

unfoldable pub rake_key : Text → Text
rake_key tid = b'r' ∷ b'a' ∷ b'k' ∷ b'e' ∷ b':' ∷ tid

unfoldable pub prize_key : Text → Text → ℕ → Text
unfolding int_text
prize_key tid pid place =
    b'p' ∷ b'r' ∷ b'i' ∷ b'z' ∷ b'e' ∷ b':' ∷ tid ++ (b':' ∷ pid ++ (b':' ∷ int_text place))

unfoldable pub withheld_key : Text → Text → ℕ → Text
unfolding int_text
withheld_key tid pid place =
    b'w' ∷ b'i' ∷ b't' ∷ b'h' ∷ b'h' ∷ b'e' ∷ b'l' ∷ b'd' ∷ b':' ∷ tid
    ++ (b':' ∷ pid ++ (b':' ∷ int_text place))

unfoldable pub refund_key : Text → Text → Text
refund_key tid pid = b'r' ∷ b'e' ∷ b'f' ∷ b'u' ∷ b'n' ∷ b'd' ∷ b':' ∷ tid ++ b':' ∷ pid

unfoldable pub claim_key : Text → Text → Text
claim_key tid pid = b'c' ∷ b'l' ∷ b'a' ∷ b'i' ∷ b'm' ∷ b':' ∷ tid ++ b':' ∷ pid
