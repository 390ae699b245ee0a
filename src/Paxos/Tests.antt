-- ===== src/Paxos/Tests.antt =====
-- Two proposers and three acceptors run to a decision; inputs at which the theorems apply.
use paxos_arena.Prelude.{
  ℕ, ◌≡◌, refl, sym, ap, ◌∙◌, inl, inr, List, [], ◌∷◌, Elem, ◌↔◌, arith, true, false,
}
use paxos_arena.Paxos.{PValue, Ballot, may_promise, zero_ballot, Value, less, is_zero, choose}
use paxos_arena.Paxos.Acceptor.{Acceptor, on_prepare, on_accept, Promise}
use paxos_arena.Paxos.Proposer.{start, on_promise, propose, on_accepted, new_proposer}
use paxos_arena.Paxos.System.{
  System, init, start_attempt, deliver_prepare, deliver_promise, propose_value, deliver_accept,
  deliver_accepted, Steps, here, next, Learns, learns, started_by, prepared_at, promised_to,
  proposed_by, accepted_at, counted_by,
}
use paxos_arena.Paxos.Choice.{Chosen, choose-Chosen, choose_order, IsFunctional}
use paxos_arena.Paxos.Acceptor.Laws.{Request, IsValid, serve_all, serve_all-IsValid, promise_binds}
use paxos_arena.Paxos.System.Agreement.{agreement, validity}

abbrev trio : List ℕ
trio = 1 ∷ 2 ∷ 3 ∷ []

abbrev b1 : Ballot
b1 = record { round = 1; node = 1 }

abbrev b2 : Ballot
b2 = record { round = 2; node = 2 }

abbrev nothing : ℕ → Promise
nothing r = record {
  ballot = record { round = r; node = r };
  accepted = record { round = 0; node = 0 };
  value = [];
}

-- Node 1 gets 7 chosen by acceptors 1 and 2.
abbrev s1 : System
s1 = started_by (init trio) 1 1

abbrev s3 : System
s3 = prepared_at (prepared_at s1 1 b1) 2 b1

abbrev s5 : System
s5 = promised_to (promised_to s3 1 1 (nothing 1)) 1 2 (nothing 1)

abbrev s6 : System
s6 = proposed_by s5 1 (7 ∷ [])

abbrev s8 : System
s8 = accepted_at (accepted_at s6 1 b1 (7 ∷ [])) 2 b1 (7 ∷ [])

abbrev s9 : System
s9 = counted_by s8 1 1 b1

run1 : Steps trio (init trio) s9
unfolding start on_prepare on_promise propose on_accept on_accepted new_proposer choose is_zero less
run1 =
    next
      (next
        (next
          (next
            (next
              (next
                (next
                  (next (next here (start_attempt 1 1 (omega arith) (λ e. e)))
                    (deliver_prepare 1 b1 (inl refl) (inl refl)))
                  (deliver_prepare 2 b1 (inr (inl refl)) (inl refl)))
                (deliver_promise 1 1 (nothing 1) (inr (inl refl))))
              (deliver_promise 1 2 (nothing 1) (inl refl)))
            (propose_value 1 (7 ∷ [])))
          (deliver_accept 1 b1 (7 ∷ []) (inl refl) (inl refl)))
        (deliver_accept 2 b1 (7 ∷ []) (inr (inl refl)) (inl refl)))
      (deliver_accepted 1 1 b1 (inr (inl refl)))

learns1 : Learns s9 (7 ∷ [])
unfolding start on_prepare on_promise propose on_accept on_accepted new_proposer choose is_zero less
learns1 = learns 1 2 b1 (inl refl) refl refl

-- Node 2 wants 9, hears of the 7 from acceptor 2, and gets 7 chosen by acceptors 2 and 3.
abbrev heard : Promise
heard = record { ballot = b2; accepted = b1; value = 7 ∷ [] }

abbrev t3 : System
t3 = prepared_at (prepared_at (started_by s9 2 2) 2 b2) 3 b2

abbrev t5 : System
t5 = promised_to (promised_to t3 2 3 (nothing 2)) 2 2 heard

abbrev t6 : System
t6 = proposed_by t5 2 (9 ∷ [])

abbrev t9 : System
t9 = counted_by (accepted_at (accepted_at t6 2 b2 (7 ∷ [])) 3 b2 (7 ∷ [])) 2 2 b2

run2 : Steps trio s9 t9
unfolding start on_prepare on_promise propose on_accept on_accepted new_proposer choose is_zero less
run2 =
    next
      (next
        (next
          (next
            (next
              (next
                (next
                  (next (next here (start_attempt 2 2 (omega arith) (λ e. ground arith)))
                    (deliver_prepare 2 b2 (inr (inl refl)) (inl refl)))
                  (deliver_prepare 3 b2 (inr (inr (inl refl))) (inl refl)))
                (deliver_promise 2 3 (nothing 2) (inl refl)))
              (deliver_promise 2 2 heard (inr (inl refl))))
            (propose_value 2 (9 ∷ [])))
          (deliver_accept 2 b2 (7 ∷ []) (inr (inl refl)) (inl refl)))
        (deliver_accept 3 b2 (7 ∷ []) (inr (inr (inl refl))) (inl refl)))
      (deliver_accepted 2 2 b2 (inr (inl refl)))

learns2 : Learns t9 (7 ∷ [])
unfolding start on_prepare on_promise propose on_accept on_accepted new_proposer choose is_zero less
learns2 = learns 2 3 b2 (inl refl) refl refl

agreement_example : ◌≡◌ {A = Value} (7 ∷ []) (7 ∷ [])
agreement_example = agreement trio run1 run2 learns1 learns2

validity_example : Elem (7 ∷ []) s9.net.wanted
validity_example = validity trio run1 learns1

-- Two reports at different ballots and one of nothing.
abbrev low : PValue
low = record { ballot = b1; slot = 4; value = 7 ∷ [] }

abbrev high : PValue
high = record { ballot = b2; slot = 4; value = 9 ∷ [] }

choose-Chosen_example : Chosen (low ∷ high ∷ []) (5 ∷ []) (choose (low ∷ high ∷ []) (5 ∷ []))
choose-Chosen_example = choose-Chosen (low ∷ high ∷ []) (5 ∷ [])

swapped : (r : PValue) → Elem r (low ∷ high ∷ []) ↔ Elem r (high ∷ low ∷ [])
swapped r = (there, back)
  where
    there : Elem r (low ∷ high ∷ []) → Elem r (high ∷ low ∷ [])
    there (inl e) = inr (inl e)
    there (inr (inl e)) = inl e
    there (inr (inr m)) = absurd m

    back : Elem r (high ∷ low ∷ []) → Elem r (low ∷ high ∷ [])
    back (inl e) = inr (inl e)
    back (inr (inl e)) = inl e
    back (inr (inr m)) = absurd m

apart : ◌≡◌ {A = ℕ} 1 2 → ⊥
apart e = omega arith

functional : IsFunctional (low ∷ high ∷ [])
functional r q (inl e) (inl e') same = cc
functional r q (inl e) (inr (inl e')) same =
    absurd (apart (ap (λ b. b.round) (ap (λ p. p.ballot) e ∙ same ∙ sym (ap (λ p. p.ballot) e'))))
functional r q (inr (inl e)) (inl e') same =
    absurd
      (apart (ap (λ b. b.round) (ap (λ p. p.ballot) e' ∙ sym same ∙ sym (ap (λ p. p.ballot) e))))
functional r q (inr (inl e)) (inr (inl e')) same = cc
functional r q (inl e) (inr (inr m)) same = absurd m
functional r q (inr (inl e)) (inr (inr m)) same = absurd m
functional r q (inr (inr m)) k same = absurd m

choose_order_example : choose (low ∷ high ∷ []) (5 ∷ []) ≡ choose (high ∷ low ∷ []) (5 ∷ [])
choose_order_example = choose_order (low ∷ high ∷ []) (high ∷ low ∷ []) (5 ∷ []) swapped functional

abbrev idle : Acceptor
idle = record { promised = zero_ballot; accepted = zero_ballot; value = [] }

idle-IsValid : IsValid idle
unfolding less
idle-IsValid = refl

serve_all-IsValid_example :
    IsValid (serve_all idle (Request.accept b1 (7 ∷ []) ∷ Request.prepare b2 ∷ []))
serve_all-IsValid_example =
    serve_all-IsValid idle (Request.accept b1 (7 ∷ []) ∷ Request.prepare b2 ∷ []) idle-IsValid

idle_promises : (on_prepare idle b2).3 ≡ true
unfolding on_prepare may_promise less is_zero
idle_promises = refl

b1_below : less b1 b2 ≡ true
unfolding less
b1_below = refl

promise_binds_example :
    let a = serve_all (on_prepare idle b2).0 (Request.accept b1 (9 ∷ []) ∷ []) in
    (less a.promised b2 ≡ false)
    × (on_accept a b1 (7 ∷ []) ≡ (a, record { ballot = b1; promised = a.promised }, false))
    × ((on_prepare a b1).0 ≡ a)
    × ((on_prepare a b1).3 ≡ false)
promise_binds_example =
    promise_binds idle b2 b1 (7 ∷ []) (Request.accept b1 (9 ∷ []) ∷ []) idle_promises b1_below
