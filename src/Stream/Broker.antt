-- ===== src/Stream/Broker.antt =====
-- `Subscription` and `EventBroker`. The subscriptions are shared objects: the broker's topics hold
-- their numbers, and a store holds what they contain. The wakeup of a sleeping reader is left out.
use reparto_docente_m.Prelude.{
  ℕ, suc, ◌+◌, ◌==◌, if◌then◌else◌, List, [], ◌∷◌, ◌++◌, length, keep, not, update,
}
use reparto_docente_m.Stream.Events.{DomainEvent}

pub record Subscription : Type 0 where
  pub process_id : ℕ
  pub maxlen : ℕ
  pub buffer : List DomainEvent
  pub dropped : ℕ

-- `deque.append` with a `maxlen`: where the deque is full the oldest item leaves it.
abbrev pub tail_of : List DomainEvent → List DomainEvent
tail_of [] = []
tail_of (e ∷ es) = es

unfoldable pub offer : DomainEvent → Subscription → Subscription
offer event s =
    if length s.buffer == s.maxlen
    then record s { dropped = s.dropped + 1; buffer = tail_of (s.buffer ++ event ∷ []) }
    else record s { buffer = s.buffer ++ event ∷ [] }

-- `drain`: what was buffered and dropped, and the emptied subscription
unfoldable pub drain : Subscription → Subscription × List DomainEvent × ℕ
drain s = (record s { buffer = []; dropped = 0 }, s.buffer, s.dropped)

pub record EventBroker : Type 0 where
  pub buffer_size : ℕ
  pub topics : ℕ → List ℕ
  pub store : ℕ → Subscription
  pub next_subscription : ℕ
  pub next_sequence : ℕ

unfoldable pub subscribe : ℕ → EventBroker → EventBroker × ℕ
subscribe process_id b =
    let i = b.next_subscription in
    (
      record b {
        topics = update b.topics process_id (i ∷ b.topics process_id);
        store =
            update b.store i (record {
              process_id = process_id;
              maxlen = b.buffer_size;
              buffer = [];
              dropped = 0;
            });
        next_subscription = suc i;
      },
      i,
    )

-- An empty topic and a missing one are the same list here.
unfoldable pub unsubscribe : ℕ → EventBroker → EventBroker
unsubscribe i b =
    let process_id = (b.store i).process_id in
    record b {
      topics = update b.topics process_id (keep (λ j. not (j == i)) (b.topics process_id));
    }

unfoldable pub subscriber_count : ℕ → EventBroker → ℕ
subscriber_count process_id b = length (b.topics process_id)

abbrev pub offer_all : DomainEvent → List ℕ → (ℕ → Subscription) → ℕ → Subscription
offer_all event [] store = store
offer_all event (i ∷ readers) store =
    offer_all event readers (update store i (offer event (store i)))

-- `publish` of an event that carries everything but its number
unfoldable pub publish : DomainEvent → EventBroker → EventBroker × DomainEvent
unfolding offer
publish draft b =
    let event = record draft { sequence = b.next_sequence } in
    (
      record b {
        next_sequence = suc b.next_sequence;
        store = offer_all event (b.topics draft.process_id) b.store;
      },
      event,
    )
