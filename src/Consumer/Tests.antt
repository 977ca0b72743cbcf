-- ===== src/Consumer/Tests.antt =====
-- An event that fails once, is retried, and is delivered again (backend/app/events/consumer.py).
use context_ledger.Base.{
  ℕ, ◌+◌, ◌≡◌, refl, Bool, true, some, List, [], ◌∷◌, ◌++◌, ltb, if◌then◌else◌, arith,
}
use context_ledger.Consumer.{
  Event, IncomingMessage, handled, World, Attempt, done, transient, Handler, claim, apply, attempts,
  dead_letter, process, process_decoded, deliver_all,
}
use context_ledger.Consumer.Offsets.{
  offset_at, set_offset, add_offsets, next_offsets, IsCommit, next_offsets-Commit,
}
use context_ledger.Consumer.Once.{
  UniqueEvents, rows_of, effects, Accounted, process-Accounted, deliver_all-once,
}

abbrev counter : Handler ℕ
counter = record { name = 1; event_types = 5 ∷ []; max_attempts = 3 }

abbrev event : Event
event = record { id = 7; event_type = 5 }

abbrev message : IncomingMessage
message = record { topic = 2; partition = 0; offset = 12; event = some event }

-- The handler counts the events; its first attempt fails.
abbrev second_time : Event → ℕ → ℕ → Attempt ℕ
second_time e n s = if ltb n 2 then transient else done (s + 1)

abbrev counts : Event → ℕ → ℕ
counts e s = s + 1

has_effect : (e : Event) (n : ℕ) (s s' : ℕ) → second_time e n s ≡ done s' → s' ≡ counts e s
has_effect e n s s' h = ground arith

abbrev empty : World ℕ
empty = record { state = 0; processed = []; dead_letters = [] }

abbrev once : World ℕ
once = record {
  state = 1;
  processed = record { consumer = 1; event_id = 7 } ∷ [];
  dead_letters = [];
}

abbrev delivery : (Event → ℕ → ℕ → Attempt ℕ) × (Bool × IncomingMessage)
delivery = (second_time, (true, message))

retried : process counter second_time true message empty ≡ some (handled, once)
unfolding process process_decoded attempts apply claim dead_letter
retried = refl

redelivered : deliver_all counter (delivery ∷ delivery ∷ []) empty ≡ once
unfolding deliver_all process process_decoded attempts apply claim dead_letter
redelivered = refl

process-Accounted_example :
    Accounted counter counts true message empty (process counter second_time true message empty)
process-Accounted_example =
    process-Accounted counter counts second_time true message empty has_effect

deliver_all-once_example :
    (es : List Event) × ((deliver_all counter (delivery ∷ delivery ∷ []) empty).state
      ≡ effects counts es 0)
    × ((deliver_all counter (delivery ∷ delivery ∷ []) empty).processed ≡ rows_of 1 es ++ [])
    × UniqueEvents (deliver_all counter (delivery ∷ delivery ∷ []) empty).processed
deliver_all-once_example =
    deliver_all-once counter counts (delivery ∷ delivery ∷ []) empty (has_effect, (has_effect, tt))
      tt

-- Three messages of partition 0, the last out of order, and one of partition 1.
abbrev batch : List IncomingMessage
batch =
    message
    ∷ record message { offset = 14 }
    ∷ record message { partition = 1; offset = 3 }
    ∷ record message { offset = 13 }
    ∷ []

commits_15 : offset_at 2 0 (next_offsets batch) ≡ some 15
unfolding offset_at next_offsets add_offsets set_offset
commits_15 = refl

next_offsets-Commit_example : IsCommit 2 0 batch (offset_at 2 0 (next_offsets batch))
next_offsets-Commit_example = next_offsets-Commit 2 0 batch
