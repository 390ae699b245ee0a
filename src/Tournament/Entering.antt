-- ===== src/Tournament/Entering.antt =====
-- Entering a tournament: the book gains at most one posting, the tournament at most one entry.
use mathlib.Core.Path.{subst}
use mathlib.Core.List.{map-append}
use paxos_arena.Prelude.{
  ◌≡◌, refl, sym, ◌∙◌, inl, inr, Bool, true, false, not, ◌||◌, Option, none, List, [], ◌∷◌, ◌++◌,
  length, length-append, if_ind, Bool-cases, Option-cases, Text, same_text, same_text_refl,
  eq_of_same_text, signed_less, arith,
}
use paxos_arena.Paxos.{Slot, Ballot}
use paxos_arena.Ledger.{Posting, Problem}
use paxos_arena.Ledger.Book.{Book, post, post_all}
use paxos_arena.Tournament.{Player, Entry, Tournament, entry_of}
use paxos_arena.Tournament.Commands.{Code}
use paxos_arena.Tournament.Entries.{
  is_open, has_entry, check_fresh, fee_posting, new_entry, admission, enter_paid, admit,
}
use paxos_arena.Tournament.Growth.{Distinct, IsLater, IsLater-refl}
use paxos_arena.Tournament.Quiet.{has_entry-cons, open-not_final}

same_text_sym : (s t : Text) → same_text s t ≡ false → same_text t s ≡ false
same_text_sym s t apart = elim (Bool-cases (same_text t s)) [
  | inr e ↦ e
  | inl e ↦
      let same : same_text s t ≡ true =
        subst (λ u. same_text u t ≡ true) (eq_of_same_text t s e) (same_text_refl t) in
      absurd (cc (sym same ∙ apart))
]

or_left : (a b : Bool) → (a || b) ≡ false → a ≡ false
or_left true b h = cc
or_left false b h = refl

or_right : (a b : Bool) → (a || b) ≡ false → b ≡ false
or_right true b h = cc
or_right false b h = h

both : (a b : Bool) → a ≡ false → b ≡ false → (a || b) ≡ false
both true b h k = cc
both false b h k = k

has_entry-append :
    (id : Text) (es : List Entry) (e : Entry)
    → has_entry id es ≡ false
    → same_text e.player.id id ≡ false
    → has_entry id (es ++ e ∷ []) ≡ false
unfolding entry_of
has_entry-append id [] e h apart = has_entry-cons id e [] ∙ ground arith
has_entry-append id (d ∷ es) e h apart =
    let parts : (same_text d.player.id id || has_entry id es) ≡ false =
      sym (has_entry-cons id d es) ∙ h in
    let first : same_text d.player.id id ≡ false =
      or_left (same_text d.player.id id) (has_entry id es) parts in
    let rest =
      has_entry-append id es e (or_right (same_text d.player.id id) (has_entry id es) parts)
        apart in
    has_entry-cons id d (es ++ e ∷ [])
    ∙ both (same_text d.player.id id) (has_entry id (es ++ e ∷ [])) first rest

Distinct-append :
    (es : List Entry) (e : Entry)
    → Distinct es
    → has_entry e.player.id es ≡ false
    → Distinct (es ++ e ∷ [])
unfolding entry_of
Distinct-append [] e h new = (refl, tt)
Distinct-append (d ∷ es) e h new =
    let parts : (same_text d.player.id e.player.id || has_entry e.player.id es) ≡ false =
      sym (has_entry-cons e.player.id d es) ∙ new in
    let apart : same_text d.player.id e.player.id ≡ false =
      or_left (same_text d.player.id e.player.id) (has_entry e.player.id es) parts in
    let later : has_entry e.player.id es ≡ false =
      or_right (same_text d.player.id e.player.id) (has_entry e.player.id es) parts in
    (
      has_entry-append d.player.id es e h.0 (same_text_sym d.player.id e.player.id apart),
      Distinct-append es e h.1 later,
    )

-- What the rules let in: an open tournament with room, and a player who has not entered.
record IsAdmitted (t : Tournament) (player : Player) : Type 0 where
  live : is_open t.status ≡ true
  room : signed_less (length t.entries) t.rules.max_entrants ≡ true
  new : has_entry player.id t.entries ≡ false

admission-IsAdmitted :
    (t : Tournament) (player : Player) → admission t player ≡ none → IsAdmitted t player
unfolding admission
admission-IsAdmitted t player fine = record {
  live = ground arith;
  room = ground arith;
  new = ground arith;
}

add_entry-IsLater :
    (t : Tournament) (player : Player)
    → IsAdmitted t player
    → IsLater t (record t { entries = t.entries ++ new_entry t player ∷ [] })
unfolding new_entry
add_entry-IsLater t player a =
    let e = new_entry t player in
    record {
      id_kept = refl;
      seed_kept = refl;
      rules_kept = refl;
      no_reopening = λ h. h;
      frozen = λ h. absurd (open-not_final t.status a.live h);
      entrants_kept = (e.player ∷ [], map-append (λ d. d.player) t.entries (e ∷ []));
      fair_kept = λ h. record {
        bounded = ground (arith, length-append t.entries (e ∷ []), a.room, h.bounded, h.small);
        small = h.small;
        distinct = Distinct-append t.entries e h.distinct a.new;
      };
    }

-- What entering does to the book and the tournament, whatever the code.
pub record IsEntering (t : Tournament) (book : Book) (r : Book × Tournament × Code) : Type 0 where
  pub posted : (ps : List Posting) × (r.0 ≡ post_all book ps)
  pub later : IsLater t r.1

refused : (t : Tournament) (book : Book) (c : Code) → IsEntering t book (book, t, c)
unfolding post_all
refused t book c = record { posted = ([], refl); later = IsLater-refl t }

enter_paid-IsEntering :
    (t : Tournament) (player : Player) (fee : Posting) (book : Book)
    → IsAdmitted t player
    → IsEntering t book (enter_paid t player fee book)
unfolding enter_paid post_all
enter_paid-IsEntering t player fee book a = elim (Option-cases problem) [
  | inr (x, e) ↦ rw (e, enter_paid) (posted_only Code.invalid_rules)
  | inl e ↦
      rw (e, enter_paid)
        (if_ind (IsEntering t book) (not (post book fee).2) (λ d. posted_only Code.ledger_conflict)
          (λ d. record { posted = (fee ∷ [], refl); later = add_entry-IsLater t player a }))
]
  where
    problem : Option Problem
    problem = (post book fee).3

    posted_only : (c : Code) → IsEntering t book ((post book fee).0, t, c)
    posted_only c = record { posted = (fee ∷ [], refl); later = IsLater-refl t }

pub admit-IsEntering :
    (slot : Slot) (ballot : Ballot) (t : Tournament) (player : Player) (book : Book)
    → IsEntering t book (admit slot ballot t player book)
unfolding admit
admit-IsEntering slot ballot t player book = elim (Option-cases (admission t player)) [
  | inr (c, e) ↦ rw (e, admit) (refused t book c)
  | inl e ↦
      let fee = fee_posting slot ballot t player in
      rw (e, admit)
        (if_ind (IsEntering t book) (check_fresh book [] (fee ∷ []))
          (λ d. enter_paid-IsEntering t player fee book (admission-IsAdmitted t player e))
          (λ d. refused t book Code.ledger_conflict))
]
