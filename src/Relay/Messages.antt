-- ===== src/Relay/Messages.antt =====
-- The messages of a batch and its events (backend/app/events/messages.py).
use context_ledger.Base.{
  ℕ, ◌≡◌, refl, sym, ap, subst, ◌∙◌, true, false, Option, some, List, [], ◌∷◌, ◌++◌, map, contains,
  All, ◌==◌, ==→≡, arith, Option-cases, Bool-cases, inl, inr,
}
use context_ledger.Base.Every.{Member, All-filter, All-sort_by, All-take, All-mono}
use context_ledger.Base.Distinct.{without}
use context_ledger.Relay.{OutboxEvent, OutgoingMessage, message_for, messages_for, event_key, claim}

pub Member-left :
    (m : OutgoingMessage) (xs ys : List OutgoingMessage) → Member m xs → Member m (xs ++ ys)
Member-left m [] ys h = elim h [ ]
Member-left m (x ∷ xs) ys (inl e) = inl e
Member-left m (x ∷ xs) ys (inr h) = inr (Member-left m xs ys h)

pub Member-right :
    (m : OutgoingMessage) (xs ys : List OutgoingMessage) → Member m ys → Member m (xs ++ ys)
Member-right m [] ys h = h
Member-right m (x ∷ xs) ys h = inr (Member-right m xs ys h)

abbrev pub HasMessage : OutboxEvent → List OutgoingMessage → Type 0
HasMessage e messages = (m : OutgoingMessage) × (message_for e ≡ some m) × Member m messages

pub HasMessage-cons :
    (e x : OutboxEvent) (xs : List OutboxEvent) (first : OutgoingMessage)
    (rest : List OutgoingMessage)
    → message_for x ≡ some first
    → (Member e xs → HasMessage e rest)
    → Member e (x ∷ xs)
    → HasMessage e (first ∷ rest)
HasMessage-cons e x xs first rest f later (inl same) =
    (first, ap message_for (sym same) ∙ f, inl refl)
HasMessage-cons e x xs first rest f later (inr m) =
    let (message, h, there) = later m in (message, h, inr there)

-- The message of every claimed event is among those published.
pub Member-messages_for :
    (e : OutboxEvent) (events : List OutboxEvent) (messages : List OutgoingMessage)
    → messages_for events ≡ some messages
    → Member e events
    → (m : OutgoingMessage) × (message_for e ≡ some m) × Member m messages
unfolding messages_for
Member-messages_for e [] messages h m = elim m [ ]
Member-messages_for e (x ∷ xs) messages h m = elim (Option-cases (message_for x)) [
  | inl none_x ↦ absurd (ground arith)
  | inr (first, f) ↦ elim (Option-cases (messages_for xs)) [
    | inl none_xs ↦ absurd (ground arith)
    | inr (rest, g) ↦
        let all : first ∷ rest ≡ messages = ground (arith, h, f, g) in
        subst (HasMessage e) all
          (HasMessage-cons e x xs first rest f (Member-messages_for e xs rest g) m)
  ]
]

-- An event either is claimed or stays.
pub Member-without :
    (e : OutboxEvent) (ids : List ℕ) (outbox : List OutboxEvent)
    → Member e outbox
    → contains e.id ids ≡ false
    → Member e (without event_key ids outbox)
Member-without e ids [] m free = elim m [ ]
Member-without e ids (x ∷ xs) (inl same) free = rw same (rw free (inl refl))
Member-without e ids (x ∷ xs) (inr m) free =
    let rest = Member-without e ids xs m free in
    elim (Bool-cases (contains x.id ids)) [
      | inl gone ↦ rw gone rest
      | inr kept ↦ rw kept (inr rest)
    ]

-- An id that is listed is the id of an item.
pub contains-Member :
    (i : ℕ) (events : List OutboxEvent)
    → contains i (map event_key events) ≡ true
    → (e : OutboxEvent) × Member e events × (e.id ≡ i)
contains-Member i [] h = absurd (ground arith)
contains-Member i (x ∷ xs) h = elim (Bool-cases (i == x.id)) [
  | inl same ↦ (x, inl refl, sym (==→≡ i x.id same))
  | inr differ ↦ let (e, m, s) = contains-Member i xs (ground (arith, h, differ)) in (e, inr m, s)
]

pub All-self : (events : List OutboxEvent) → All (λ x. Member x events) events
All-self [] = tt
All-self (e ∷ es) =
    (inl refl, All-mono (λ x. Member x (e ∷ es)) (λ x. Member x es) es (λ x m. inr m) (All-self es))

pub claim-Member :
    (batch_size : ℕ) (scope : Option ℕ) (busy : List ℕ) (outbox : List OutboxEvent)
    → All (λ x. Member x outbox) (claim batch_size scope busy outbox)
unfolding claim
claim-Member batch_size scope busy outbox =
    let P : OutboxEvent → Type 0 = λ x. Member x outbox in
    All-take P batch_size _
      (All-sort_by P event_key _ (All-filter P P _ outbox (λ x m kept. m) (All-self outbox)))
