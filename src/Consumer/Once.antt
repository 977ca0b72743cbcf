-- ===== src/Consumer/Once.antt =====
-- The effect of an event is applied once (backend/app/events/consumer.py).
use context_ledger.Base.{
  ℕ, zero, suc, ◌+◌, ◌≡◌, sym, ◌∙◌, refl, Bool, true, false, not, Option, none, some, List, [], ◌∷◌,
  ◌++◌, any, All, contains, ◌⊎◌, inl, inr, Bool-cases, if◌then◌else◌,
}
use context_ledger.Consumer.{
  Event, IncomingMessage, Outcome, handled, duplicate, ignored, dead_lettered, ProcessedEvent,
  World, Attempt, done, permanent, transient, Handler, is_processed, claim, keep, apply, Tried,
  next, attempts, dead_letter, settle, process, process_decoded, kept, deliver_all,
}

-- No consumer has two records of one event.
abbrev pub UniqueEvents : List ProcessedEvent → Type 0
UniqueEvents [] = Unit {0}
UniqueEvents (p ∷ ps) = (any (is_processed p.consumer p.event_id) ps ≡ false) × UniqueEvents ps

-- The records of events that a consumer handled, and their effects one after another, newest first.
abbrev pub rows_of : ℕ → List Event → List ProcessedEvent
rows_of consumer [] = []
rows_of consumer (e ∷ es) = record { consumer = consumer; event_id = e.id } ∷ rows_of consumer es

abbrev pub effects : {S : Type 0} → (Event → S → S) → List Event → S → S
effects effect [] s = s
effects effect (e ∷ es) s = effect e (effects effect es s)

-- One delivery: what the outcome says happened.
abbrev pub Accounted :
    {S : Type 0}
    → Handler S
    → (Event → S → S)
    → Bool
    → IncomingMessage
    → World S
    → Option (Outcome × World S)
    → Type 0
Accounted h effect available message w none = available ≡ false
Accounted h effect available message w (some (handled, w')) =
    (e : Event) × (message.event ≡ some e)
    × (any (is_processed h.name e.id) w.processed ≡ false)
    × (w' ≡ record w {
      state = effect e w.state;
      processed = record { consumer = h.name; event_id = e.id } ∷ w.processed;
    })
Accounted h effect available message w (some (duplicate, w')) =
    (e : Event) × (message.event ≡ some e)
    × (any (is_processed h.name e.id) w.processed ≡ true)
    × (w' ≡ w)
Accounted h effect available message w (some (ignored, w')) =
    (e : Event) × (message.event ≡ some e)
    × (contains e.event_type h.event_types ≡ false)
    × (w' ≡ w)
Accounted h effect available message w (some (dead_lettered, w')) =
    (n : ℕ) × (w' ≡ record w {
      dead_letters = record { message = message; consumer = h.name; attempts = n } ∷ w.dead_letters;
    })

module _ {S : Type 0} (h : Handler S) (effect : Event → S → S) where
  dead_letter-Accounted :
      (available : Bool) (message : IncomingMessage) (n : ℕ) (w : World S)
      → Accounted h effect available message w (dead_letter h available message n w)
  unfolding dead_letter
  dead_letter-Accounted true message n w = (n, refl)
  dead_letter-Accounted false message n w = refl

  -- One attempt, and what comes after it if it fails for a while.
  next-Accounted :
      (e : Event) (available : Bool) (message : IncomingMessage) (w : World S) (n : ℕ)
      (result : Attempt S) (rest : Tried h)
      → ((s' : S) → result ≡ done s' → s' ≡ effect e w.state)
      → message.event ≡ some e
      → Accounted h effect available message w (settle h available message w rest)
      → (first_time : Bool) → any (is_processed h.name e.id) w.processed ≡ not first_time
      → Accounted h effect available message w (
          settle h available message w (
            next h n
              (if first_time
                then keep h w (record { consumer = h.name; event_id = e.id } ∷ w.processed) result
                else done (duplicate, w))
              rest))
  next-Accounted e available message w n result rest right is_e later false seen =
      (e, is_e, seen, refl)
  next-Accounted e available message w n (done s') rest right is_e later true seen =
      (e, is_e, seen, rw (right s' refl) refl)
  next-Accounted e available message w n permanent rest right is_e later true seen =
      dead_letter-Accounted available message n w
  next-Accounted e available message w n transient rest right is_e later true seen = later

  attempts-Accounted :
      (handle : ℕ → S → Attempt S) (e : Event) (available : Bool) (message : IncomingMessage)
      (w : World S) (made left : ℕ)
      → ((n : ℕ) (s s' : S) → handle n s ≡ done s' → s' ≡ effect e s)
      → message.event ≡ some e
      → Accounted h effect available message w
          (settle h available message w (attempts h handle e w made left))
  unfolding attempts apply claim dead_letter
  attempts-Accounted handle e available message w made zero right is_e =
      dead_letter-Accounted available message made w
  attempts-Accounted handle e available message w made (suc left) right is_e =
      let rest = attempts h handle e w (made + 1) left in
      let later = attempts-Accounted handle e available message w (made + 1) left right is_e in
      let follow =
        next-Accounted e available message w (made + 1) (handle (made + 1) w.state) rest
          (λ s' ended. right (made + 1) w.state s' ended) is_e later in
      elim (Bool-cases (any (is_processed h.name e.id) w.processed)) [
        | inl seen ↦ rw seen (follow false seen)
        | inr unseen ↦ rw unseen (follow true unseen)
      ]

  process_decoded-Accounted :
      (handle : Event → ℕ → S → Attempt S) (available : Bool) (message : IncomingMessage)
      (w : World S)
      → ((e : Event) (n : ℕ) (s s' : S) → handle e n s ≡ done s' → s' ≡ effect e s)
      → (o : Option Event) → message.event ≡ o
      → Accounted h effect available message w (process_decoded h handle available message w o)
  unfolding process_decoded
  process_decoded-Accounted handle available message w right none is_e =
      dead_letter-Accounted available message 0 w
  process_decoded-Accounted handle available message w right (some e) is_e =
      elim (Bool-cases (contains e.event_type h.event_types)) [
        | inl wanted ↦
            rw wanted
              (attempts-Accounted (handle e) e available message w 0 h.max_attempts (right e) is_e)
        | inr unwanted ↦ rw unwanted (e, is_e, unwanted, refl)
      ]

  -- If every attempt that succeeds has the effect of its event, then a delivery that is handled
  -- applied the effect of an event not recorded before and recorded it; a duplicate was recorded
  -- before, an ignored event is of no subscribed type, and both leave everything as it was; a
  -- dead-lettered message is in the dead letters and nothing else changed; and only a failed
  -- publication of a dead letter gives no outcome.
  pub process-Accounted :
      (handle : Event → ℕ → S → Attempt S) (available : Bool) (message : IncomingMessage)
      (w : World S)
      → ((e : Event) (n : ℕ) (s s' : S) → handle e n s ≡ done s' → s' ≡ effect e s)
      → Accounted h effect available message w (process h handle available message w)
  unfolding process
  process-Accounted handle available message w right =
      process_decoded-Accounted handle available message w right message.event refl

  -- What one delivery changes: nothing that the handler wrote, or one effect with its record.
  abbrev Stepped : World S → World S → Type 0
  Stepped w w' =
      ((w'.state ≡ w.state) × (w'.processed ≡ w.processed))
      ⊎ ((e : Event) × (any (is_processed h.name e.id) w.processed ≡ false)
          × (w'.state ≡ effect e w.state)
          × (w'.processed ≡ record { consumer = h.name; event_id = e.id } ∷ w.processed))

  Accounted-kept :
      (available : Bool) (message : IncomingMessage) (w : World S) (r : Option (Outcome × World S))
      → Accounted h effect available message w r
      → Stepped w (kept h w r)
  Accounted-kept available message w none a = inl (refl, refl)
  Accounted-kept available message w (some (handled, w')) (e, is_e, fresh, same) =
      inr (e, fresh, rw same refl, rw same refl)
  Accounted-kept available message w (some (duplicate, w')) (e, is_e, seen, same) =
      inl (rw same refl, rw same refl)
  Accounted-kept available message w (some (ignored, w')) (e, is_e, other, same) =
      inl (rw same refl, rw same refl)
  Accounted-kept available message w (some (dead_lettered, w')) (n, same) =
      inl (rw same refl, rw same refl)

  effects-append :
      (es fs : List Event) (s : S)
      → effects effect (es ++ fs) s ≡ effects effect es (effects effect fs s)
  effects-append [] fs s = refl
  effects-append (e ∷ es) fs s = rw (effects-append es fs s) refl

  rows_of-append :
      (es fs : List Event) (rows : List ProcessedEvent)
      → rows_of h.name (es ++ fs) ++ rows ≡ rows_of h.name es ++ (rows_of h.name fs ++ rows)
  rows_of-append [] fs rows = refl
  rows_of-append (e ∷ es) fs rows = rw (rows_of-append es fs rows) refl

  -- A handler whose attempts that succeed have the effect.
  abbrev pub HasEffect : (Event → ℕ → S → Attempt S) × (Bool × IncomingMessage) → Type 0
  HasEffect (handle, (available, message)) =
      (e : Event) (n : ℕ) (s s' : S) → handle e n s ≡ done s' → s' ≡ effect e s

  -- If every attempt that succeeds has the effect of its event, and no event is recorded twice
  -- before, then after any deliveries, with redeliveries, failures, retries and dead letters, the
  -- state is that of applying some events' effects in order, each of them recorded as handled, and
  -- still no event is recorded twice: the effect of an event is applied at most once.
  pub deliver_all-once :
      (ds : List ((Event → ℕ → S → Attempt S) × (Bool × IncomingMessage))) (w : World S)
      → All HasEffect ds
      → UniqueEvents w.processed
      → (es : List Event) × ((deliver_all h ds w).state ≡ effects effect es w.state)
        × ((deliver_all h ds w).processed ≡ rows_of h.name es ++ w.processed)
        × UniqueEvents (deliver_all h ds w).processed
  unfolding deliver_all
  deliver_all-once [] w all unique = ([], refl, refl, unique)
  deliver_all-once ((handle, (available, message)) ∷ ds) w (right, all) unique =
      let w1 = kept h w (process h handle available message w) in
      elim (Accounted-kept available message w (process h handle available message w)
        (process-Accounted handle available message w right)) [
          | inl (same_state, same_rows) ↦
              let (es, state, rows, unique') = deliver_all-once ds w1 all (rw same_rows unique) in
              (es, state ∙ rw same_state refl, rows ∙ rw same_rows refl, unique')
          | inr (e, fresh, new_state, new_rows) ↦
              let (es, state, rows, unique') =
                deliver_all-once ds w1 all (rw new_rows (fresh, unique)) in
              (
                es ++ e ∷ [],
                state ∙ rw new_state (sym (effects-append es (e ∷ []) w.state)),
                rows ∙ rw new_rows (sym (rows_of-append es (e ∷ []) w.processed)),
                unique',
              )
        ]
