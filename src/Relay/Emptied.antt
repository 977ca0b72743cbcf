-- ===== src/Relay/Emptied.antt =====
-- The loop that drains the outbox ends (backend/app/workers/event_relay.py).
use context_ledger.Base.{
  ℕ, zero, suc, ◌+◌, ◌≤◌, ◌<◌, ◌≡◌, refl, sym, ap, ◌∙◌, true, false, not, ◌&&◌, none, some, List,
  [], ◌∷◌, ◌++◌, filter, take, drop, take-append-drop, length, length-append, count, contains, All,
  arith, Option-cases, inl, inr,
}
use context_ledger.Base.Every.{All-filter, All-sort_by, All-take}
use context_ledger.Base.Sort.{sort_by, count-sort_by}
use context_ledger.Base.Sorted.{sort_by-filter}
use context_ledger.Base.Distinct.{Distinct, sort_by-Distinct, filter-Distinct, without-take}
use context_ledger.EvidenceLinks.{is_none}
use context_ledger.Relay.{
  OutboxEvent, OutgoingMessage, Relay, Round, acknowledged, topic_for, envelope_for, message_for,
  messages_for, event_key, claim, delete, run_once, finished, drain,
}

-- The type of the event has a topic.
abbrev pub IsKnown : OutboxEvent → Type 0
IsKnown e = is_none (topic_for e.event_type) ≡ false

-- Nothing goes wrong in a round: no row is locked, all messages are acknowledged, and it commits.
abbrev pub IsCalm : Round → Type 0
IsCalm w = (w.busy ≡ []) × (w.publication ≡ acknowledged) × (w.commits ≡ true)

message_for-known : (e : OutboxEvent) → IsKnown e → (m : OutgoingMessage) × (message_for e ≡ some m)
unfolding message_for
message_for-known e known = elim (Option-cases (topic_for e.event_type)) [
  | inl missing ↦ absurd (ground arith)
  | inr (topic, found) ↦ (
    record {
      topic = topic;
      key = e.organization_id;
      value = envelope_for e;
      header_event_type = e.event_type;
      header_event_id = e.event_id;
    },
    rw found refl,
  )
]

messages_for-known :
    (events : List OutboxEvent)
    → All IsKnown events
    → (messages : List OutgoingMessage) × (messages_for events ≡ some messages)
unfolding messages_for
messages_for-known [] all = ([], refl)
messages_for-known (e ∷ es) (known, all) =
    let (m, f) = message_for-known e known in
    let (messages, h) = messages_for-known es all in (m ∷ messages, rw f (rw h refl))

messages_for-append :
    (xs ys : List OutboxEvent) (ms ns : List OutgoingMessage)
    → messages_for xs ≡ some ms
    → messages_for ys ≡ some ns
    → messages_for (xs ++ ys) ≡ some (ms ++ ns)
unfolding messages_for
messages_for-append [] ys ms ns h k = ground arith
messages_for-append (x ∷ xs) ys ms ns h k = elim (Option-cases (message_for x)) [
  | inl e ↦ absurd (ground arith)
  | inr (m, e) ↦ elim (Option-cases (messages_for xs)) [
    | inl f ↦ absurd (ground arith)
    | inr (rest, f) ↦ ground (arith, messages_for-append xs ys rest ns f k)
  ]
]

unfiltered :
    (events : List OutboxEvent)
    → filter (λ e. true && not (contains (event_key e) [])) events ≡ events
unfiltered [] = refl
unfiltered (e ∷ es) = ap (λ rest. e ∷ rest) (unfiltered es)

empty_list : (events : List OutboxEvent) → length events ≡ 0 → events ≡ []
empty_list [] e = refl
empty_list (x ∷ xs) e = absurd (omega arith)

append_assoc : (xs ys zs : List OutgoingMessage) → (xs ++ ys) ++ zs ≡ xs ++ (ys ++ zs)
append_assoc [] ys zs = refl
append_assoc (x ∷ xs) ys zs = ap (λ rest. x ∷ rest) (append_assoc xs ys zs)

append-nil : (messages : List OutgoingMessage) → messages ++ [] ≡ messages
append-nil [] = refl
append-nil (m ∷ ms) = ap (λ rest. m ∷ rest) (append-nil ms)

length-all : (events : List OutboxEvent) → count (λ e. true) events ≡ length events
length-all [] = refl
length-all (e ∷ es) = ap suc (length-all es)

length-sorted : (events : List OutboxEvent) → length (sort_by event_key events) ≡ length events
length-sorted events =
    sym (length-all (sort_by event_key events))
    ∙ count-sort_by event_key (λ e. true) events
    ∙ length-all events

module _ (k : ℕ) where
  calm_round :
      (w : Round) (r : Relay) (x : OutboxEvent) (xs : List OutboxEvent)
      (messages : List OutgoingMessage)
      → IsCalm w
      → sort_by event_key r.outbox ≡ x ∷ xs
      → let batch = take (suc k) (sort_by event_key r.outbox) in
        messages_for batch ≡ some messages
        → run_once (suc k) none w r ≡ (
          some (length batch),
          record { outbox = delete batch r.outbox; log = r.log ++ messages },
        )
  unfolding run_once claim
  calm_round w r x xs messages (idle, answered, committed) sorted h =
      let some_event = ap (λ l. length (take (suc k) l)) sorted in
      rw idle
        (rw (unfiltered r.outbox) (rw h (rw answered (rw committed (ground (arith, some_event))))))

  -- What is left to relay is what follows the first of the sorted list.
  left_over :
      (outbox : List OutboxEvent)
      → Distinct event_key outbox
      → let batch = take (suc k) (sort_by event_key outbox) in
        sort_by event_key (delete batch outbox) ≡ drop (suc k) (sort_by event_key outbox)
  unfolding delete
  left_over outbox distinct =
      sort_by-filter event_key _ outbox
      ∙ without-take event_key (suc k) (sort_by event_key outbox)
          (sort_by-Distinct event_key outbox distinct)

  -- Every event is in the batch or left.
  length-left :
      (outbox : List OutboxEvent)
      → Distinct event_key outbox
      → let batch = take (suc k) (sort_by event_key outbox) in
        length batch + length (delete batch outbox) ≡ length outbox
  length-left outbox distinct =
      let sorted = sort_by event_key outbox in
      let left = delete (take (suc k) sorted) outbox in
      omega (
        arith,
        length-append (take (suc k) sorted) (drop (suc k) sorted),
        ap length (take-append-drop (suc k) sorted),
        ap length (left_over outbox distinct),
        length-sorted left,
        length-sorted outbox,
      )

  empty_round : (w : Round) (r : Relay) → r.outbox ≡ [] → run_once (suc k) none w r ≡ (some 0, r)
  unfolding run_once claim
  empty_round w r e = rw e refl

  module _ (weather : ℕ → Round) where
    -- A run of `drain` relays all events in order.
    abbrev Emptied : ℕ → ℕ → ℕ → Relay → Type 0
    Emptied fuel round total r =
        (messages : List OutgoingMessage) × (messages_for (sort_by event_key r.outbox)
          ≡ some messages)
        × (drain (suc k) none fuel weather round total r
            ≡ (finished (total + length r.outbox), record { outbox = []; log = r.log ++ messages }))

    step :
        (fuel round total : ℕ) (r : Relay) (s : List OutboxEvent)
        → ((n : ℕ) → IsCalm (weather n))
        → Distinct event_key r.outbox
        → All IsKnown r.outbox
        → length r.outbox < suc fuel
        → sort_by event_key r.outbox ≡ s
        → ((sum : ℕ) (q : Relay)
            → Distinct event_key q.outbox
            → All IsKnown q.outbox
            → length q.outbox < fuel
            → Emptied fuel (round + 1) sum q)
        → Emptied (suc fuel) round total r
    unfolding drain delete messages_for
    step fuel round total r [] calm distinct known short sorted ih =
        let gone = empty_list r.outbox (sym (length-sorted r.outbox) ∙ ap length sorted) in
        (
          [],
          rw sorted refl,
          rw (empty_round (weather round) r gone)
              (rw gone (rw (append-nil r.log) (ground (arith, gone)))),
        )
    step fuel round total r (x ∷ xs) calm distinct known short sorted ih =
        let batch = take (suc k) (sort_by event_key r.outbox) in
        let all = All-sort_by IsKnown event_key r.outbox known in
        let (messages, h) = messages_for-known batch (All-take IsKnown (suc k) _ all) in
        let q : Relay = record { outbox = delete batch r.outbox; log = r.log ++ messages } in
        let (rest, h', e) =
          ih (total + length batch) q (filter-Distinct event_key _ r.outbox distinct)
            (All-filter IsKnown IsKnown _ r.outbox (λ y z kept. z) known)
            (omega
              (arith, length-left r.outbox distinct, ap (λ l. length (take (suc k) l)) sorted)) in
        (
          messages ++ rest,
          ap messages_for (sym (take-append-drop (suc k) (sort_by event_key r.outbox)))
              ∙ messages_for-append batch (drop (suc k) (sort_by event_key r.outbox)) messages rest
                  h (ap messages_for (sym (left_over r.outbox distinct)) ∙ h'),
          rw (calm_round (weather round) r x xs messages (calm round) sorted h) (
              ground (
                arith,
                e,
                length-left r.outbox distinct,
                ap (λ l. length (take (suc k) l)) sorted,
                append_assoc r.log messages rest,
              )),
        )

    drains :
        (fuel round total : ℕ) (r : Relay)
        → ((n : ℕ) → IsCalm (weather n))
        → Distinct event_key r.outbox
        → All IsKnown r.outbox
        → length r.outbox < fuel
        → Emptied fuel round total r
    drains zero round total r calm distinct known short = absurd (omega arith)
    drains (suc fuel) round total r calm distinct known short =
        step fuel round total r (sort_by event_key r.outbox) calm distinct known short refl
          (λ sum q d a s. drains fuel (round + 1) sum q calm d a s)

-- Where no round fails, no row is locked, no event is added meanwhile, the ids are distinct, the
-- types have topics and a batch is not empty, the loop of `drain`, not scoped to one organization,
-- ends after at most one round more than there are events. It has then published every event once,
-- in the order of the ids, after all that was published before; the outbox is empty, and the total
-- is the number of events.
pub drain-finished :
    (batch_size fuel : ℕ) (weather : ℕ → Round) (r : Relay)
    → 1 ≤ batch_size
    → ((n : ℕ) → IsCalm (weather n))
    → Distinct event_key r.outbox
    → All IsKnown r.outbox
    → length r.outbox < fuel
    → (messages : List OutgoingMessage) × (messages_for (sort_by event_key r.outbox)
        ≡ some messages)
      × (drain batch_size none fuel weather 0 0 r
          ≡ (finished (length r.outbox), record { outbox = []; log = r.log ++ messages }))
drain-finished zero fuel weather r pos calm distinct known enough = absurd (omega arith)
drain-finished (suc k) fuel weather r pos calm distinct known enough =
    let (messages, h, e) = drains k weather fuel 0 0 r calm distinct known enough in
    (messages, h, ground (arith, e))
