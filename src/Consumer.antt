-- ===== src/Consumer.antt =====
-- backend/app/events/consumer.py (`EventProcessor`) with `ProcessedEventRepository.claim` of
-- backend/app/repositories/events.py. A handler's effect is on a state of any type; how an attempt
-- at it ends is an input, since it may fail for reasons outside. Logging and the waits between
-- attempts are left out.
pub mod Offsets
pub mod Once
mod Tests
use context_ledger.Base.{
  ℕ, zero, suc, ◌+◌, max, Bool, true, false, not, ◌&&◌, Option, none, some, List, [], ◌∷◌, any,
  contains, ◌==◌, if◌then◌else◌,
}

pub record Event : Type 0 where
  pub id : ℕ
  pub event_type : ℕ

-- An `IncomingMessage`, with the envelope that its value decodes to, if it does.
pub record IncomingMessage : Type 0 where
  pub topic : ℕ
  pub partition : ℕ
  pub offset : ℕ
  pub event : Option Event

pub data Outcome : Type 0 where
  handled duplicate ignored dead_lettered : Outcome

pub record ProcessedEvent : Type 0 where
  pub consumer : ℕ
  pub event_id : ℕ

pub record DeadLetter : Type 0 where
  pub message : IncomingMessage
  pub consumer : ℕ
  pub attempts : ℕ

-- The database that the handler writes, its dedup records, and the dead-letter topics.
pub record World (S : Type 0) : Type 0 where
  pub state : S
  pub processed : List ProcessedEvent
  pub dead_letters : List DeadLetter

-- How an attempt ends: the work is done, or an exception rolls it back.
pub data Attempt (A : Type 0) : Type 0 where
  done : (result : A) → Attempt A
  permanent transient : Attempt A

pub record Handler (S : Type 0) : Type 0 where
  pub name : ℕ
  pub event_types : List ℕ
  pub max_attempts : ℕ

abbrev pub is_processed : ℕ → ℕ → ProcessedEvent → Bool
is_processed consumer event_id p = p.consumer == consumer && p.event_id == event_id

-- `claim`: the row is inserted, unless it is there.
unfoldable pub claim : ℕ → ℕ → List ProcessedEvent → Bool × List ProcessedEvent
claim consumer event_id rows =
    if any (is_processed consumer event_id) rows
    then (false, rows)
    else (true, record { consumer = consumer; event_id = event_id } ∷ rows)

module _ {S : Type 0} (h : Handler S) where
  abbrev pub keep : World S → List ProcessedEvent → Attempt S → Attempt (Outcome × World S)
  keep w rows (done s) = done (handled, record w { state = s; processed = rows })
  keep w rows permanent = permanent
  keep w rows transient = transient

  -- `_apply`: one transaction.
  unfoldable pub apply : (S → Attempt S) → Event → World S → Attempt (Outcome × World S)
  apply handle event w =
      let (first_time, rows) = claim h.name event.id w.processed in
      if first_time then keep w rows (handle w.state) else done (duplicate, w)

  -- The outcome, or the number of attempts made.
  pub data Tried : Type 0 where
    returned : (result : Outcome × World S) → Tried
    gave_up : (attempts : ℕ) → Tried

  abbrev pub next : ℕ → Attempt (Outcome × World S) → Tried → Tried
  next attempt (done r) rest = returned r
  next attempt permanent rest = gave_up attempt
  next attempt transient rest = rest

  -- The loop, with `left` attempts after `made` ones.
  unfoldable pub attempts : (ℕ → S → Attempt S) → Event → World S → ℕ → ℕ → Tried
  attempts handle event w made zero = gave_up made
  attempts handle event w made (suc left) =
      let rest = attempts handle event w (made + 1) left in
      next (made + 1) (apply (handle (made + 1)) event w) rest

  -- `_dead_letter`; if the publication fails, its exception leaves everything as it was.
  unfoldable pub dead_letter : Bool → IncomingMessage → ℕ → World S → Option (Outcome × World S)
  dead_letter available message made w =
      if available
      then some (
        dead_lettered,
        record w {
          dead_letters =
              record { message = message; consumer = h.name; attempts = made } ∷ w.dead_letters;
        },
      )
      else none

  abbrev pub settle : Bool → IncomingMessage → World S → Tried → Option (Outcome × World S)
  settle available message w (returned r) = some r
  settle available message w (gave_up made) = dead_letter available message made w

  -- What is done with a message, by what its value decodes to.
  unfoldable pub process_decoded :
      (Event → ℕ → S → Attempt S)
      → Bool
      → IncomingMessage
      → World S
      → Option Event
      → Option (Outcome × World S)
  process_decoded handle available message w none = dead_letter available message 0 w
  process_decoded handle available message w (some event) =
      if not (contains event.event_type h.event_types)
      then some (ignored, w)
      else settle available message w (attempts (handle event) event w 0 h.max_attempts)

  -- `handle` gives the end of each attempt by its number.
  unfoldable pub process :
      (Event → ℕ → S → Attempt S) → Bool → IncomingMessage → World S → Option (Outcome × World S)
  process handle available message w = process_decoded handle available message w message.event

  abbrev pub kept : World S → Option (Outcome × World S) → World S
  kept w none = w
  kept w (some (outcome, w')) = w'

  -- Deliveries, redeliveries included, each with the ends of its attempts.
  unfoldable pub deliver_all :
      List ((Event → ℕ → S → Attempt S) × (Bool × IncomingMessage)) → World S → World S
  deliver_all [] w = w
  deliver_all ((handle, (available, message)) ∷ rest) w =
      deliver_all rest (kept w (process handle available message w))
