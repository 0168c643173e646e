-- ===== src/Stream/Tests.antt =====
-- The theorems on the event stream at concrete events.
use reparto_docente_m.Prelude.{ℕ, true, false, none, some, [], ◌∷◌, ◌≡◌, refl}
use reparto_docente_m.Stream.Events.{DomainEvent, ready, teacher, reason_key}
use reparto_docente_m.Stream.Broker.{Subscription, drain}
use reparto_docente_m.Stream.Projection.{
  resolve_audience, is_own, project_event, has_key, private_payload,
}
use reparto_docente_m.Stream.Buffer.{Accounts, offer_each, drain-Accounts}

abbrev event : ℕ → DomainEvent
event n = record {
  event_type = 3;
  process_id = 4;
  sequence = n;
  occurred_at = n;
  readiness = ready;
  selection_blocked = false;
  payload = (reason_key, 9) ∷ (2, 1700) ∷ [];
  subject_process_teacher_id = some 71;
}

abbrev reader : Subscription
reader = record { process_id = 4; maxlen = 2; buffer = event 1 ∷ []; dropped = 5 }

drain-Accounts_example :
    Accounts
      (event 2 ∷ event 3 ∷ event 4 ∷ [])
      (offer_each (event 2 ∷ event 3 ∷ event 4 ∷ []) (drain reader).0)
drain-Accounts_example = drain-Accounts reader (event 2 ∷ event 3 ∷ event 4 ∷ [])

private_payload_example :
    (is_own (some 71) (some 71) ≡ true) × (has_key reason_key ((2, 1700) ∷ []) ≡ false)
unfolding resolve_audience project_event
private_payload_example =
    private_payload (event 1) none (some 71) {audience = teacher} {payload = (2, 1700) ∷ []} refl
      refl
