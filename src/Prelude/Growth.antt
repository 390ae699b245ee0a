-- ===== src/Prelude/Growth.antt =====
-- Maps with string keys that keep their keys while the values move along a relation.
use mathlib.Core.Path.{◌≡◌, sym, ◌∙◌, ap, subst}
use mathlib.Core.Bool.{false}
use mathlib.Core.Option.{some}
use mathlib.Core.List.{List, [], ◌∷◌}
use mathlib.Core.Logic.{inl, inr}
use paxos_arena.Prelude.Tests.{Bool-cases}
use paxos_arena.Prelude.Lists.{All}
use paxos_arena.Prelude.Strings.{
  Text, same_text, eq_of_same_text, find, put, has, find-put_same, find-put_other,
}

module _ {V : Type 0} where
  -- Every key of `m` is a key of `m'`, with a related value.
  abbrev pub Grown : (V → V → Type 0) → List (Text × V) → List (Text × V) → Type 0
  Grown R m m' = (k : Text) (v : V) → find k m ≡ some v → (v' : V) × (find k m' ≡ some v') × R v v'

  pub Grown-refl : (R : V → V → Type 0) (m : List (Text × V)) → ((v : V) → R v v) → Grown R m m
  Grown-refl R m r k v h = (v, h, r v)

  pub Grown-trans :
      (R : V → V → Type 0) (m n o : List (Text × V))
      → ((u v w : V) → R u v → R v w → R u w)
      → Grown R m n
      → Grown R n o
      → Grown R m o
  Grown-trans R m n o trans f g k v h =
      let (v1, h1, r1) = f k v h in let (v2, h2, r2) = g k v1 h1 in (v2, h2, trans v v1 v2 r1 r2)

  pub Grown-put :
      (R : V → V → Type 0) (k : Text) (v v' : V) (m : List (Text × V))
      → ((u : V) → R u u)
      → find k m ≡ some v
      → R v v'
      → Grown R m (put k v' m)
  Grown-put R k v v' m r there step j w h = elim (Bool-cases (same_text k j)) [
    | inr other ↦ (w, find-put_other k j v' m other ∙ h, r w)
    | inl same ↦
        let e : k ≡ j = eq_of_same_text k j same in
        let found : find j (put k v' m) ≡ some v' =
          subst (λ i. find i (put k v' m) ≡ some v') e (find-put_same k v' m) in
        let equal : some v ≡ some w = sym there ∙ ap (λ i. find i m) e ∙ h in
        (v', found, subst (λ u. R u v') (some_inj v w equal) step)
  ]
    where
      some_inj : (v w : V) → some v ≡ some w → v ≡ w
      some_inj v w e = cc

  pub Grown-new :
      (R : V → V → Type 0) (k : Text) (v : V) (m : List (Text × V))
      → ((u : V) → R u u)
      → has k m ≡ false
      → Grown R m (put k v m)
  Grown-new R k v m r new j w h = elim (Bool-cases (same_text k j)) [
    | inr other ↦ (w, find-put_other k j v m other ∙ h, r w)
    | inl same ↦
        let e : k ≡ j = eq_of_same_text k j same in
        absurd (missing m (subst (λ i. has i m ≡ false) e new) h)
  ]
    where
      missing : (m : List (Text × V)) → has j m ≡ false → find j m ≡ some w → ⊥
      missing [] q h = cc
      missing ((i, u) ∷ m) q h = elim (Bool-cases (same_text i j)) [
        | inl e ↦ cc
        | inr e ↦ missing m (rw e at q) (rw e at h)
      ]

  pub All-put :
      (P : V → Type 0) (k : Text) (v : V) (m : List (Text × V))
      → P v
      → All (λ e. P e.1) m
      → All (λ e. P e.1) (put k v m)
  All-put P k v [] p h = (p, tt)
  All-put P k v ((j, w) ∷ m) p h = elim (Bool-cases (same_text j k)) [
    | inl e ↦ rw e (p, h.1)
    | inr e ↦ rw e (h.0, All-put P k v m p h.1)
  ]

  pub All-find :
      (P : V → Type 0) (k : Text) (v : V) (m : List (Text × V))
      → All (λ e. P e.1) m
      → find k m ≡ some v
      → P v
  All-find P k v [] h f = cc
  All-find P k v ((j, w) ∷ m) h f = elim (Bool-cases (same_text j k)) [
    | inl e ↦ let found : some w ≡ some v = rw e at f in subst P (some_inj found) h.0
    | inr e ↦ All-find P k v m h.1 (rw e at f)
  ]
    where
      some_inj : some w ≡ some v → w ≡ v
      some_inj e = cc
