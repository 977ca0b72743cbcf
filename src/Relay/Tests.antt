-- ===== src/Relay/Tests.antt =====
-- An outbox of two events, a publication that fails, and a relay that empties it
-- (backend/app/workers/event_relay.py).
use context_ledger.Base.{
  ℕ, ◌+◌, ◌≡◌, ◌≢◌, refl, true, none, some, List, [], ◌∷◌, ◌++◌, All, contains, arith,
}
use context_ledger.Base.Sort.{sort_by}
use context_ledger.Relay.{
  OutboxEvent, OutgoingMessage, Relay, Round, acknowledged, undelivered, fact_version_recorded,
  topic_for, message_for, messages_for, event_key, claim, delete, run_once, drain, finished,
}
use context_ledger.Relay.Delivered.{
  RelayStep, emits, relays, relay_steps, relay_step, emitted, IsAccounted, relay_steps-delivered,
}
use context_ledger.Relay.Emptied.{IsKnown, drain-finished}

abbrev event : ℕ → OutboxEvent
event i = record {
  id = i;
  event_id = i + 100;
  organization_id = 1;
  event_type = fact_version_recorded;
  aggregate_id = i + 50;
  payload = 4;
  occurred_at = i;
}

abbrev relay : Relay
relay = record { outbox = event 8 ∷ event 7 ∷ []; log = [] }

abbrev calm : Round
calm = record { busy = []; publication = acknowledged; commits = true }

-- The broker takes the first message only.
abbrev broken : Round
broken = record {
  busy = [];
  publication = undelivered (λ m. contains m.header_event_id (107 ∷ []));
  commits = true;
}

event-IsKnown : (i : ℕ) → IsKnown (event i)
unfolding topic_for
event-IsKnown i = refl

-- Two rounds, each with one event, the older first, and a third that finds nothing.
drained :
    (messages : List OutgoingMessage) × (messages_for (event 7 ∷ event 8 ∷ []) ≡ some messages)
    × (drain 1 none 3 (λ n. calm) 0 0 relay ≡ (finished 2, record { outbox = []; log = messages }))
unfolding drain run_once claim delete messages_for message_for topic_for
drained = (_, refl, refl)

drain-finished_example :
    (messages : List OutgoingMessage) × (messages_for (sort_by event_key relay.outbox)
      ≡ some messages)
    × (drain 1 none 3 (λ n. calm) 0 0 relay
        ≡ (finished 2, record { outbox = []; log = [] ++ messages }))
drain-finished_example =
    drain-finished 1 3 (λ n. calm) relay (omega arith) (λ n. (refl, refl, refl))
      ((omega arith, tt), (tt, tt)) (event-IsKnown 8, (event-IsKnown 7, tt)) (omega arith)

-- A failed round, a new event, and a round that succeeds.
abbrev later : List RelayStep
later = relays 9 none broken ∷ emits (event 9) ∷ relays 2 none calm ∷ []

fresh : All (λ e. event_key e ≢ 9) (relay_step (relays 9 none broken) relay).outbox
unfolding relay_step run_once claim messages_for message_for topic_for
fresh = (omega arith, (omega arith, tt))

relay_steps-delivered_example :
    All (IsAccounted (relay_steps later relay)) (relay.outbox ++ emitted later)
relay_steps-delivered_example =
    relay_steps-delivered later relay (tt, (fresh, (tt, tt))) ((omega arith, tt), (tt, tt))
