-- ===== src/Paxos/Choice.antt =====
-- What `Choose` picks from the reports of a quorum (rule P2c).
use paxos_arena.Prelude.{
  ◌≡◌, refl, sym, ◌∙◌, inl, inr, ◌↔◌, Bool, true, false, List, [], ◌∷◌, Elem, All, All-Elem,
  Bool-cases, if◌then◌else◌, not,
}
use paxos_arena.Paxos.{Ballot, PValue, Value, less, is_zero, choose_from, choose, zero_pvalue}
use paxos_arena.Paxos.Order.{less_irrefl, less_both_false, not_less_trans, less_asymm, less-is_zero}

-- No report of the list stands above `b`.
abbrev pub IsTop : Ballot → List PValue → Type 0
IsTop b rs = All (λ q. less b q.ballot ≡ false) rs

abbrev AllZero : List PValue → Type 0
AllZero rs = All (λ q. is_zero q.ballot ≡ true) rs

-- What the loop has found after `rs`, from where it stood before.
data Found (rs : List PValue) (best : PValue) (found : Bool) (b : PValue) (f : Bool) : Type 0 where
  nothing : f ≡ false → found ≡ false → AllZero rs → Found rs best found b f
  kept : f ≡ true → found ≡ true → b ≡ best → IsTop b.ballot rs → Found rs best found b f
  newer :
      f ≡ true
      → Elem b rs
      → is_zero b.ballot ≡ false
      → IsTop b.ballot rs
      → (found ≡ true → less b.ballot best.ballot ≡ false)
      → Found rs best found b f

module _ {r best b : PValue} {rs : List PValue} {f : Bool} where
  skip_zero :
      {found : Bool}
      → is_zero r.ballot ≡ true
      → Found rs best found b f
      → Found (r ∷ rs) best found b f
  skip_zero z (nothing e e' zs) = nothing e e' (z, zs)
  skip_zero z (kept e e' same top) = kept e e' same (less-is_zero b.ballot r.ballot z, top)
  skip_zero z (newer e m nz top over) =
      newer e (inr m) nz (less-is_zero b.ballot r.ballot z, top) over

  skip_low :
      less best.ballot r.ballot ≡ false → Found rs best true b f → Found (r ∷ rs) best true b f
  skip_low low (nothing e e' zs) = cc
  skip_low low (kept e e' same top) = kept e e' same (rw same low, top)
  skip_low low (newer e m nz top over) =
      newer e (inr m) nz (not_less_trans r.ballot best.ballot b.ballot low (over refl), top) over

  take :
      {found : Bool}
      → is_zero r.ballot ≡ false
      → (found ≡ true → less best.ballot r.ballot ≡ true)
      → Found rs r true b f
      → Found (r ∷ rs) best found b f
  take nz up (nothing e e' zs) = cc
  take nz up (kept e e' same top) =
      newer e (inl (sym same)) (rw same nz) (rw same (less_irrefl r.ballot), top)
        (λ h. rw same (less_asymm best.ballot r.ballot (up h)))
  take nz up (newer e m nzb top over) =
      newer e (inr m) nzb (over refl, top)
        (λ h.
          not_less_trans best.ballot r.ballot b.ballot (less_asymm best.ballot r.ballot (up h))
            (over refl))

choose_from-Found :
    (rs : List PValue) (best : PValue) (found : Bool)
    → let (b, f) = choose_from rs best found in Found rs best found b f
unfolding choose_from
choose_from-Found [] best true = kept refl refl refl tt
choose_from-Found [] best false = nothing refl refl tt
choose_from-Found (r ∷ rs) best found = elim (Bool-cases (is_zero r.ballot)) [
  | inl z ↦ rw (z, choose_from) (skip_zero z (choose_from-Found rs best found))
  | inr nz ↦ elim (Bool-cases found) [
    | inl old ↦ elim (Bool-cases (less best.ballot r.ballot)) [
      | inl up ↦ rw (nz, old, up, choose_from) (take nz (λ _. up) (choose_from-Found rs r true))
      | inr low ↦ rw (nz, old, low, choose_from) (skip_low low (choose_from-Found rs best true))
    ]
    | inr new ↦ rw (nz, new, choose_from) (take nz (λ h. cc) (choose_from-Found rs r true))
  ]
]

-- The value that `Choose` returns: the fallback, or that of a top report.
pub data Chosen (rs : List PValue) (fallback v : Value) : Type 0 where
  free : All (λ q. is_zero q.ballot ≡ true) rs → v ≡ fallback → Chosen rs fallback v
  bound :
      (r : PValue)
      → Elem r rs
      → is_zero r.ballot ≡ false
      → IsTop r.ballot rs
      → v ≡ r.value
      → Chosen rs fallback v

Found-Chosen :
    (rs : List PValue) (fallback : Value) {b : PValue} {f : Bool}
    → Found rs zero_pvalue false b f
    → Chosen rs fallback (if not f then fallback else b.value)
Found-Chosen rs fallback (nothing e e' zs) = rw e (free zs refl)
Found-Chosen rs fallback (kept e e' same top) = cc
Found-Chosen rs fallback {b} (newer e m nz top over) = rw e (bound b m nz top refl)

-- `Choose` returns the fallback when every report has the zero ballot, and otherwise the value of
-- a report with a non-zero ballot that no report's ballot exceeds.
pub choose-Chosen : (rs : List PValue) (fallback : Value) → Chosen rs fallback (choose rs fallback)
unfolding choose
choose-Chosen rs fallback = Found-Chosen rs fallback (choose_from-Found rs zero_pvalue false)

-- A ballot carries one value.
abbrev pub IsFunctional : List PValue → Type 0
IsFunctional rs = (r q : PValue) → Elem r rs → Elem q rs → r.ballot ≡ q.ballot → r.value ≡ q.value

Chosen-unique :
    (rs qs : List PValue) (fallback v w : Value)
    → ((r : PValue) → Elem r rs ↔ Elem r qs)
    → IsFunctional rs
    → Chosen rs fallback v
    → Chosen qs fallback w
    → v ≡ w
Chosen-unique rs qs fallback v w same one (free z e) (free z' e') = e ∙ sym e'
Chosen-unique rs qs fallback v w same one (free z e) (bound q m nz top e') =
    cc (All-Elem (λ q. is_zero q.ballot ≡ true) q rs z ((same q).1 m))
Chosen-unique rs qs fallback v w same one (bound r m nz top e) (free z e') =
    cc (All-Elem (λ q. is_zero q.ballot ≡ true) r qs z ((same r).0 m))
Chosen-unique rs qs fallback v w same one (bound r m nz top e) (bound q m' nz' top' e') =
    e ∙ one r q m ((same q).1 m') (less_both_false r.ballot q.ballot high low) ∙ sym e'
  where
    high : less r.ballot q.ballot ≡ false
    high = All-Elem (λ p. less r.ballot p.ballot ≡ false) q rs top ((same q).1 m')

    low : less q.ballot r.ballot ≡ false
    low = All-Elem (λ p. less q.ballot p.ballot ≡ false) r qs top' ((same r).0 m)

-- `Choose` does not depend on the order in which the map of promises is walked: on two lists of
-- the same reports, in which one ballot carries one value, it returns the same value.
pub choose_order :
    (rs qs : List PValue) (fallback : Value)
    → ((r : PValue) → Elem r rs ↔ Elem r qs)
    → IsFunctional rs
    → choose rs fallback ≡ choose qs fallback
choose_order rs qs fallback same one =
    Chosen-unique rs qs fallback _ _ same one (choose-Chosen rs fallback)
      (choose-Chosen qs fallback)
