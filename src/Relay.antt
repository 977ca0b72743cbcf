-- ===== src/Relay.antt =====
-- The relay of the event outbox: backend/app/workers/event_relay.py (`EventRelay`), with
-- `EventOutboxRepository` of backend/app/repositories/events.py, the messages of
-- backend/app/events/messages.py and the topics of backend/app/events/schemas.py. How a publication
-- ends, whether the commit succeeds and which rows are locked are inputs of a round. A message's
-- value is its envelope; JSON is left out.
pub mod Messages
pub mod Delivered
pub mod Emptied
mod Tests
use context_ledger.Base.{
  ℕ, zero, suc, ◌+◌, Bool, true, false, not, ◌&&◌, Option, none, some, List, [], ◌∷◌, ◌++◌, map,
  filter, take, length, contains, ◌==◌, if◌then◌else◌,
}
use context_ledger.Base.Sort.{sort_by}
use context_ledger.Base.Distinct.{without}

pub data EventType : Type 0 where
  fact_version_recorded fact_embedding_stored contradiction_detected fact_revoked : EventType
  evidence_captured evidence_linked : EventType
  context_captured decision_recorded decision_impacted : EventType
  unknown : (name : ℕ) → EventType

pub data Topic : Type 0 where
  facts_topic evidence_topic decisions_topic : Topic

-- A missing type raises.
unfoldable pub topic_for : EventType → Option Topic
topic_for fact_version_recorded = some facts_topic
topic_for fact_embedding_stored = some facts_topic
topic_for contradiction_detected = some facts_topic
topic_for fact_revoked = some facts_topic
topic_for evidence_captured = some evidence_topic
topic_for evidence_linked = some evidence_topic
topic_for context_captured = some decisions_topic
topic_for decision_recorded = some decisions_topic
topic_for decision_impacted = some decisions_topic
topic_for (unknown name) = none

pub record OutboxEvent : Type 0 where
  pub id : ℕ
  pub event_id : ℕ
  pub organization_id : ℕ
  pub event_type : EventType
  pub aggregate_id : ℕ
  pub payload : ℕ
  pub occurred_at : ℕ

pub record EventEnvelope : Type 0 where
  pub id : ℕ
  pub event_type : EventType
  pub organization_id : ℕ
  pub subject : ℕ
  pub time : ℕ
  pub payload : ℕ

pub record OutgoingMessage : Type 0 where
  pub topic : Topic
  pub key : ℕ
  pub value : EventEnvelope
  pub header_event_type : EventType
  pub header_event_id : ℕ

abbrev pub envelope_for : OutboxEvent → EventEnvelope
envelope_for event = record {
  id = event.event_id;
  event_type = event.event_type;
  organization_id = event.organization_id;
  subject = event.aggregate_id;
  time = event.occurred_at;
  payload = event.payload;
}

abbrev pub message_on : OutboxEvent → Option Topic → Option OutgoingMessage
message_on event none = none
message_on event (some topic) = some record {
  topic = topic;
  key = event.organization_id;
  value = envelope_for event;
  header_event_type = event.event_type;
  header_event_id = event.event_id;
}

unfoldable pub message_for : OutboxEvent → Option OutgoingMessage
message_for event = message_on event (topic_for event.event_type)

abbrev pub both :
    Option OutgoingMessage → Option (List OutgoingMessage) → Option (List OutgoingMessage)
both none rest = none
both (some m) none = none
both (some m) (some rest) = some (m ∷ rest)

-- `[message_for(event) for event in events]`.
unfoldable pub messages_for : List OutboxEvent → Option (List OutgoingMessage)
messages_for [] = some []
messages_for (event ∷ events) = both (message_for event) (messages_for events)

-- The outbox, and what the broker has been given, in order.
pub record Relay : Type 0 where
  pub outbox : List OutboxEvent
  pub log : List OutgoingMessage

abbrev pub event_key : OutboxEvent → ℕ
event_key event = event.id

abbrev pub of_scope : Option ℕ → OutboxEvent → Bool
of_scope none event = true
of_scope (some organization_id) event = event.organization_id == organization_id

-- `claim`: the oldest rows that no other transaction has locked.
unfoldable pub claim : ℕ → Option ℕ → List ℕ → List OutboxEvent → List OutboxEvent
claim batch_size scope busy outbox =
    take batch_size (
      sort_by event_key
        (filter (λ e. of_scope scope e && not (contains (event_key e) busy)) outbox))

unfoldable pub delete : List OutboxEvent → List OutboxEvent → List OutboxEvent
delete events outbox = without event_key (map event_key events) outbox

unfoldable pub pending : Option ℕ → List OutboxEvent → ℕ
pending scope outbox = length (filter (of_scope scope) outbox)

-- How `publish` ends: every message is acknowledged, or it raises when some were delivered.
pub data Publication : Type 0 where
  acknowledged : Publication
  undelivered : (delivered : OutgoingMessage → Bool) → Publication

pub record Round : Type 0 where
  pub busy : List ℕ
  pub publication : Publication
  pub commits : Bool

-- The number published, or `none` for an exception.
abbrev pub settle :
    Round → Publication → List OutboxEvent → List OutgoingMessage → Relay → Option ℕ × Relay
settle w (undelivered delivered) events messages r =
    (none, record r { log = r.log ++ filter delivered messages })
settle w acknowledged events messages r =
    if w.commits
    then (some (length events), record { outbox = delete events r.outbox; log = r.log ++ messages })
    else (none, record r { log = r.log ++ messages })

abbrev pub publish :
    Round → List OutboxEvent → Option (List OutgoingMessage) → Relay → Option ℕ × Relay
publish w events none r = (none, r)
publish w events (some messages) r = settle w w.publication events messages r

module _ (batch_size : ℕ) (scope : Option ℕ) where
  unfoldable pub run_once : Round → Relay → Option ℕ × Relay
  run_once w r =
      let events = claim batch_size scope w.busy r.outbox in
      if length events == 0 then (some 0, r) else publish w events (messages_for events) r

  pub data Drained : Type 0 where
    finished : (total : ℕ) → Drained
    raised out_of_fuel : Drained

  abbrev pub continue : ℕ → Option ℕ × Relay → (ℕ → Drained × Relay) → Drained × Relay
  continue total (none, r) rest = (raised, r)
  continue total (some published, r) rest =
      let more = rest (total + published) in if published == 0 then (finished total, r) else more

  -- The loop of `drain`, where `weather` gives what each round meets.
  unfoldable pub drain : ℕ → (ℕ → Round) → ℕ → ℕ → Relay → Drained × Relay
  drain zero weather round total r = (out_of_fuel, r)
  drain (suc fuel) weather round total r =
      let after = run_once (weather round) r in
      continue total after (λ sum. drain fuel weather (round + 1) sum after.1)
