-- ===== src/Relay/Delivered.antt =====
-- No event is lost between the outbox and the broker (backend/app/workers/event_relay.py).
use context_ledger.Base.{
  ℕ, ◌≡◌, ◌≢◌, ◌⊎◌, refl, subst, Option, some, List, [], ◌∷◌, ◌++◌, map, length, contains, All,
  ◌==◌, Option-cases, Bool-cases, inl, inr,
}
use context_ledger.Base.Every.{Member, All-append, All-mono, Member-All}
use context_ledger.Base.Distinct.{Distinct, Distinct-same, filter-Distinct}
use context_ledger.Relay.Messages.{
  Member-left, Member-right, Member-messages_for, Member-without, contains-Member, All-self,
  claim-Member,
}
use context_ledger.Relay.{
  OutboxEvent, OutgoingMessage, Relay, Round, Publication, acknowledged, undelivered, message_for,
  messages_for, event_key, claim, delete, settle, run_once,
}

-- A transaction that writes an event, or a round of some relay.
pub data RelayStep : Type 0 where
  emits : (event : OutboxEvent) → RelayStep
  relays : (batch_size : ℕ) (scope : Option ℕ) (w : Round) → RelayStep

unfoldable pub relay_step : RelayStep → Relay → Relay
relay_step (emits event) r = record r { outbox = event ∷ r.outbox }
relay_step (relays batch_size scope w) r = (run_once batch_size scope w r).1

unfoldable pub relay_steps : List RelayStep → Relay → Relay
relay_steps [] r = r
relay_steps (s ∷ ss) r = relay_steps ss (relay_step s r)

-- The events that are written.
unfoldable pub emitted : List RelayStep → List OutboxEvent
emitted [] = []
emitted (emits event ∷ ss) = event ∷ emitted ss
emitted (relays batch_size scope w ∷ ss) = emitted ss

-- An event gets an id that no event in the outbox has.
abbrev pub IsFresh : RelayStep → Relay → Type 0
IsFresh (emits event) r = All (λ e. event_key e ≢ event_key event) r.outbox
IsFresh (relays batch_size scope w) r = Unit {0}

abbrev pub AllFresh : List RelayStep → Relay → Type 0
AllFresh [] r = Unit {0}
AllFresh (s ∷ ss) r = IsFresh s r × AllFresh ss (relay_step s r)

-- The event waits in the outbox, or the broker has its message.
abbrev pub IsAccounted : Relay → OutboxEvent → Type 0
IsAccounted r e =
    Member e r.outbox ⊎ ((m : OutgoingMessage) × (message_for e ≡ some m) × Member m r.log)

settle-Distinct :
    (w : Round) (publication : Publication) (events : List OutboxEvent)
    (messages : List OutgoingMessage) (r : Relay)
    → Distinct event_key r.outbox
    → Distinct event_key (settle w publication events messages r).1.outbox
unfolding delete
settle-Distinct w (undelivered delivered) events messages r distinct = distinct
settle-Distinct w acknowledged events messages r distinct = elim (Bool-cases w.commits) [
  | inl commits ↦ rw commits (filter-Distinct event_key _ r.outbox distinct)
  | inr fails ↦ rw fails distinct
]

run_once-Distinct :
    (batch_size : ℕ) (scope : Option ℕ) (w : Round) (r : Relay)
    → Distinct event_key r.outbox
    → Distinct event_key (run_once batch_size scope w r).1.outbox
unfolding run_once
run_once-Distinct batch_size scope w r distinct =
    let events = claim batch_size scope w.busy r.outbox in
    elim (Bool-cases (length events == 0)) [
      | inl none_left ↦ rw none_left distinct
      | inr some_left ↦ rw some_left (elim (Option-cases (messages_for events)) [
        | inl unknown_type ↦ rw unknown_type distinct
        | inr (messages, h) ↦ rw h (settle-Distinct w w.publication events messages r distinct)
      ])
    ]

relay_step-Distinct :
    (s : RelayStep) (r : Relay)
    → IsFresh s r
    → Distinct event_key r.outbox
    → Distinct event_key (relay_step s r).outbox
unfolding relay_step
relay_step-Distinct (emits event) r new distinct = (new, distinct)
relay_step-Distinct (relays batch_size scope w) r new distinct =
    run_once-Distinct batch_size scope w r distinct

module _ (e : OutboxEvent) where
  settle-Accounted :
      (w : Round) (publication : Publication) (events : List OutboxEvent)
      (messages : List OutgoingMessage) (r : Relay)
      → Distinct event_key r.outbox
      → All (λ x. Member x r.outbox) events
      → messages_for events ≡ some messages
      → IsAccounted r e
      → IsAccounted (settle w publication events messages r).1 e
  unfolding delete
  settle-Accounted w (undelivered delivered) events messages r distinct claimed h (inl waits) =
      inl waits
  settle-Accounted w (undelivered delivered) events messages r distinct claimed h (inr (m, f, l)) =
      inr (m, f, Member-left m r.log _ l)
  settle-Accounted w acknowledged events messages r distinct claimed h (inr (m, f, l)) =
      let logged = Member-left m r.log messages l in
      elim (Bool-cases w.commits) [
        | inl commits ↦ rw commits (inr (m, f, logged))
        | inr fails ↦ rw fails (inr (m, f, logged))
      ]
  settle-Accounted w acknowledged events messages r distinct claimed h (inl waits) =
      elim (Bool-cases w.commits) [
        | inr fails ↦ rw fails (inl waits)
        | inl commits ↦ elim (Bool-cases (contains e.id (map event_key events))) [
          | inr kept ↦
              rw commits (inl (Member-without e (map event_key events) r.outbox waits kept))
          | inl gone ↦
              let (x, mx, same) = contains-Member e.id events gone in
              let is_e =
                Distinct-same event_key x e r.outbox distinct
                  (Member-All (λ y. Member y r.outbox) x events mx claimed) waits same in
              let (m, f, there) =
                Member-messages_for e events messages h (subst (λ y. Member y events) is_e mx) in
              rw commits (inr (m, f, Member-right m r.log messages there))
        ]
      ]

  run_once-Accounted :
      (batch_size : ℕ) (scope : Option ℕ) (w : Round) (r : Relay)
      → Distinct event_key r.outbox
      → IsAccounted r e
      → IsAccounted (run_once batch_size scope w r).1 e
  unfolding run_once
  run_once-Accounted batch_size scope w r distinct accounted =
      let events = claim batch_size scope w.busy r.outbox in
      elim (Bool-cases (length events == 0)) [
        | inl none_left ↦ rw none_left accounted
        | inr some_left ↦ rw some_left (elim (Option-cases (messages_for events)) [
          | inl unknown_type ↦ rw unknown_type accounted
          | inr (messages, h) ↦ rw h (
              settle-Accounted w w.publication events messages r distinct
                (claim-Member batch_size scope w.busy r.outbox) h accounted)
        ])
      ]

  relay_step-Accounted :
      (s : RelayStep) (r : Relay)
      → Distinct event_key r.outbox
      → IsAccounted r e
      → IsAccounted (relay_step s r) e
  unfolding relay_step
  relay_step-Accounted (emits event) r distinct (inl waits) = inl (inr waits)
  relay_step-Accounted (emits event) r distinct (inr logged) = inr logged
  relay_step-Accounted (relays batch_size scope w) r distinct accounted =
      run_once-Accounted batch_size scope w r distinct accounted

  relay_steps-Accounted :
      (ss : List RelayStep) (r : Relay)
      → AllFresh ss r
      → Distinct event_key r.outbox
      → IsAccounted r e
      → IsAccounted (relay_steps ss r) e
  unfolding relay_steps
  relay_steps-Accounted [] r fresh distinct accounted = accounted
  relay_steps-Accounted (s ∷ ss) r (new, fresh) distinct accounted =
      relay_steps-Accounted ss (relay_step s r) fresh (relay_step-Distinct s r new distinct)
        (relay_step-Accounted s r distinct accounted)

written_later :
    (ss : List RelayStep) (r : Relay)
    → AllFresh ss r
    → Distinct event_key r.outbox
    → All (IsAccounted (relay_steps ss r)) (emitted ss)
unfolding relay_steps emitted relay_step
written_later [] r fresh distinct = tt
written_later (emits event ∷ ss) r (new, fresh) distinct =
    let after : Relay = record r { outbox = event ∷ r.outbox } in
    (
      relay_steps-Accounted event ss after fresh (new, distinct) (inl (inl refl)),
      written_later ss after fresh (new, distinct),
    )
written_later (relays batch_size scope w ∷ ss) r (new, fresh) distinct =
    written_later ss _ fresh (relay_step-Distinct (relays batch_size scope w) r new distinct)

-- If events get ids that no event in the outbox has, no event is ever lost: after any sequence of
-- transactions that write events and rounds of relays, whatever their batch sizes and scopes, the
-- locked rows, failed publications and failed commits, every event that was in the outbox at first
-- or was written since is in the outbox, or its message was given to the broker.
pub relay_steps-delivered :
    (ss : List RelayStep) (r : Relay)
    → AllFresh ss r
    → Distinct event_key r.outbox
    → All (IsAccounted (relay_steps ss r)) (r.outbox ++ emitted ss)
relay_steps-delivered ss r fresh distinct =
    All-append (IsAccounted (relay_steps ss r)) r.outbox (emitted ss)
      (All-mono (IsAccounted (relay_steps ss r)) (IsAccounted r) r.outbox
        (λ e h. relay_steps-Accounted e ss r fresh distinct h)
        (All-mono (IsAccounted r) (λ e. Member e r.outbox) r.outbox (λ e m. inl m)
          (All-self r.outbox)))
      (written_later ss r fresh distinct)
