-- ===== src/Idempotency/Once.antt =====
-- At most one execution under a key, and the replay of its response
-- (backend/app/cache/idempotency.py).
use context_ledger.Base.{
  ℕ, ◌+◌, ◌*◌, ◌<◌, ◌≡◌, ◌≢◌, ◌∙◌, Bool, true, Option, none, some, List, [], ◌∷◌, ◌++◌, All, ◌==◌,
  if◌then◌else◌, Option-cases, arith, inl, inr,
}
use context_ledger.Store.{Data, lookup, live, set, set_if_absent, get}
use context_ledger.Store.View.{lookup-put}
use context_ledger.Idempotency.{
  Request, Saved, pending, finished, Deployment, executed, problem, answer_existing, loaded,
  reserve, protect, call, Step, steps,
}
use context_ledger.Idempotency.Held.{IsKeyed, Before, steps-held, answer-held}

-- The bytes of a body sent in chunks.
abbrev pub joined : List (List ℕ) → List ℕ
joined [] = []
joined (chunk ∷ chunks) = chunk ++ joined chunks

not-executed :
    (existing : Option Saved) (fingerprint key : ℕ)
    → answer_existing existing fingerprint ≢ executed key
unfolding answer_existing
not-executed none fingerprint key h = ground arith
not-executed (some (pending f)) fingerprint key h = ground arith
not-executed (some (finished f status headers body)) fingerprint key h = ground arith

module _ {Bytes : Type 0} (c : Deployment Bytes) where
  -- What a request that is executed leaves in the store.
  reservation :
      (key own fingerprint now later : ℕ) (others : Data Bytes → Data Bytes) (d d' : Data Bytes)
      → reserve c own fingerprint now later others d ≡ (executed key, d')
      → lookup key d'
        ≡ some (record {
          value = c.dumps (pending fingerprint);
          expires = now + 1000 * c.lock_seconds;
        })
  unfolding reserve set_if_absent set
  reservation key own fingerprint now later others d d' h = ground (
    arith,
    lookup-put own key
        (record { value = c.dumps (pending fingerprint); expires = now + 1000 * c.lock_seconds })
        (live now own d).1,
    not-executed
        (loaded c
          (get later own
            (others (set_if_absent now own (c.dumps (pending fingerprint)) c.lock_seconds d).1)).0)
        fingerprint key,
  )

  -- The entry of an executed request.
  call-executed :
      (request : Request) (available : Bool) (key now later : ℕ) (others : Data Bytes → Data Bytes)
      (d d' : Data Bytes)
      → call c request available now later others d ≡ (executed key, d')
      → lookup key d'
        ≡ some (record {
          value = c.dumps (pending request.fingerprint);
          expires = now + 1000 * c.lock_seconds;
        })
  unfolding call protect
  call-executed request available key now later others d d' h =
      elim (Option-cases request.raw_key) [
        | inl e1 ↦ ground arith
        | inr (r, e1) ↦ elim (Option-cases request.subject) [
          | inl e2 ↦ ground arith
          | inr (u, e2) ↦
              ground
                (arith, reservation key (c.store_key u r) request.fingerprint now later others d d')
        ]
      ]

-- If JSON reads back what it wrote and a request was executed under a key, then before the lock
-- expires and while no execution under the key ends, whatever other steps are taken, also between
-- its two calls of the store, every request under the key is refused: as still in use if it is the same request, else as a different one.
pub call-executed_once :
    {Bytes : Type 0} (c : Deployment Bytes) (first second : Request) (key now later now' later' : ℕ)
    (others : Data Bytes → Data Bytes) (d d' : Data Bytes) (between meanwhile : List Step)
    → ((s : Saved) → c.loads (c.dumps s) ≡ s)
    → call c first true now later others d ≡ (executed key, d')
    → All (Before (now + 1000 * c.lock_seconds) key) between
    → All (Before (now + 1000 * c.lock_seconds) key) meanwhile
    → IsKeyed c key second
    → now' < now + 1000 * c.lock_seconds
    → later' < now + 1000 * c.lock_seconds
    → (call c second true now' later' (steps c meanwhile) (steps c between d')).0
      ≡ problem (if first.fingerprint == second.fingerprint then 409 else 422)
unfolding answer_existing
call-executed_once c first second key now later now' later' others d d' between meanwhile json h all
      all_then keyed lt lt' =
    let held = call-executed c first true key now later others d d' h in
    answer-held c key _ second now' later' (steps c meanwhile) (steps c between d')
      (λ x held_x. steps-held c key _ meanwhile x all_then held_x) keyed
      (steps-held c key _ between d' all held) lt lt'
    ∙ rw (json (pending first.fingerprint)) (ground arith)
