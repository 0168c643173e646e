-- ===== src/Stream/Buffer.antt =====
-- A subscription loses its oldest events only, and counts them.
use reparto_docente_m.Prelude.{
  ◌+◌, ◌≤◌, ◌==◌, List, [], ◌∷◌, ◌++◌, length, ◌≡◌, refl, sym, ap, ◌∙◌, arith, Bool-cases, inl, inr,
  length-append,
}
use mathlib.Core.List.{append_assoc, append-nil}
use reparto_docente_m.Stream.Events.{DomainEvent}
use reparto_docente_m.Stream.Broker.{Subscription, offer, drain, tail_of}

abbrev pub offer_each : List DomainEvent → Subscription → Subscription
offer_each [] s = s
offer_each (e ∷ es) s = offer_each es (offer e s)

-- What was offered since the last drain is what was dropped, in front, and what is buffered.
pub record Accounts (offered : List DomainEvent) (s : Subscription) : Type 0 where
  pub lost : List DomainEvent
  pub order : lost ++ s.buffer ≡ offered
  pub counted : length lost ≡ s.dropped
  pub bounded : length s.buffer ≤ s.maxlen

full_offer :
    (lost buffer : List DomainEvent) (e : DomainEvent)
    → (lost' : List DomainEvent) × (lost' ++ tail_of (buffer ++ e ∷ [])
        ≡ (lost ++ buffer) ++ e ∷ [])
      × (length lost' ≡ length lost + 1)
      × (length (tail_of (buffer ++ e ∷ [])) ≡ length buffer)
full_offer lost [] e =
    (lost ++ e ∷ [], rw (append-nil, append-nil), omega (arith, length-append lost (e ∷ [])), refl)
full_offer lost (b ∷ bs) e = (
  lost ++ b ∷ [],
  simp append_assoc,
  omega (arith, length-append lost (b ∷ [])),
  omega (arith, length-append bs (e ∷ [])),
)

offer-Accounts :
    (e : DomainEvent) (offered : List DomainEvent) (s : Subscription)
    → Accounts offered s
    → Accounts (offered ++ e ∷ []) (offer e s)
unfolding offer
offer-Accounts e offered s a = elim (Bool-cases (length s.buffer == s.maxlen)) [
  | inl full ↦
      let (lost', order', counted', sized) = full_offer a.lost s.buffer e in
      rw full (record {
        lost = lost';
        order = order' ∙ ap (λ xs. xs ++ e ∷ []) a.order;
        counted = omega (arith, counted', a.counted);
        bounded = omega (arith, sized, a.bounded);
      })
  | inr room ↦ rw room (record {
    lost = a.lost;
    order = sym (append_assoc a.lost s.buffer (e ∷ [])) ∙ ap (λ xs. xs ++ e ∷ []) a.order;
    counted = a.counted;
    bounded = ground (arith, length-append s.buffer (e ∷ []), a.bounded);
  })
]

offer_each-Accounts :
    (es offered : List DomainEvent) (s : Subscription)
    → Accounts offered s
    → Accounts (offered ++ es) (offer_each es s)
offer_each-Accounts [] offered s a = rw append-nil a
offer_each-Accounts (e ∷ es) offered s a =
    rw (← append_assoc offered (e ∷ []) es)
      (offer_each-Accounts es (offered ++ e ∷ []) (offer e s) (offer-Accounts e offered s a))

-- After a drain, whatever events are offered: the buffer holds at most `maxlen` of them, and they
-- are the last ones in their order; those that are missing come before them, and the counter that
-- the next drain hands out is how many they are.
pub drain-Accounts :
    (s : Subscription) (es : List DomainEvent) → Accounts es (offer_each es (drain s).0)
unfolding drain
drain-Accounts s es =
    offer_each-Accounts es [] (record s { buffer = []; dropped = 0 })
      (record { lost = []; order = refl; counted = refl; bounded = omega arith })
