-- ===== src/Idempotency.antt =====
-- backend/app/cache/idempotency.py: `Idempotency-Key` for POST requests. What comes from outside the
-- repository is in `Deployment`: JSON, and the SHA-256 of the caller and the key. A step reads the
-- clock where the code awaits the store; between steps other requests may take theirs.
pub mod Held
pub mod Once
mod Tests
use Prim.Native.String.{String}
use text.Mathlib.Text.{◌==◌ as str_eq}
use context_ledger.Base.{
  ℕ, ◌+◌, Bool, true, false, not, ◌&&◌, ◌||◌, Option, none, some, List, [], ◌∷◌, ◌++◌, filter,
  length, ◌==◌, leb, ltb, if◌then◌else◌,
}
use context_ledger.Store.{Data, get, set, set_if_absent, delete}

-- What the middleware reads of a request. `subject` is the authenticated caller, `key_valid`
-- whether the key matches `KEY_PATTERN`, `fingerprint` the hash of method, path, query and body.
pub record Request : Type 0 where
  pub is_post : Bool
  pub is_excluded : Bool
  pub raw_key : Option ℕ
  pub key_valid : Bool
  pub subject : Option ℕ
  pub fingerprint : ℕ

-- What the application answers, its body in the chunks it is sent in.
pub record Response : Type 0 where
  pub status : ℕ
  pub headers : List (String × String)
  pub chunks : List (List ℕ)

-- The record under a key.
pub data Saved : Type 0 where
  pending : (fingerprint : ℕ) → Saved
  finished : (fingerprint status : ℕ) (headers : List (String × String)) (body : List ℕ) → Saved

pub record Deployment (Bytes : Type 0) : Type 0 where
  pub dumps : Saved → Bytes
  pub loads : Bytes → Saved
  pub store_key : ℕ → ℕ → ℕ
  pub lock_seconds : ℕ
  pub ttl_seconds : ℕ

-- What a request gets: the endpoint runs without a key, or under the key; an error; the stored
-- response.
pub data Verdict : Type 0 where
  passed_on : Verdict
  executed : (store_key : ℕ) → Verdict
  problem : (status : ℕ) → Verdict
  replayed : (status : ℕ) (headers : List (String × String)) (body : List ℕ) → Verdict

unfoldable pub answer_existing : Option Saved → ℕ → Verdict
answer_existing none fingerprint = problem 409
answer_existing (some (pending f)) fingerprint =
    if f == fingerprint then problem 409 else problem 422
answer_existing (some (finished f status headers body)) fingerprint =
    if f == fingerprint
    then replayed status (headers ++ ("idempotent-replayed", "true") ∷ []) body
    else problem 422

-- `REPLAYED_RESPONSE_HEADERS`, on names in lower case
abbrev pub is_replayed : String × String → Bool
is_replayed (name, value) =
    str_eq name "content-type" || str_eq name "location" || str_eq name "etag"

abbrev pub max_stored_body : ℕ
max_stored_body = 1048576

-- The body messages that `capture` sees: the size so far, and the chunks kept.
unfoldable pub capture : ℕ → List (List ℕ) → ℕ × List ℕ
capture size [] = (size, [])
capture size (chunk ∷ chunks) =
    let grown = size + length chunk in
    let (total, kept) = capture grown chunks in
    (total, if leb grown max_stored_body then chunk ++ kept else kept)

module _ {Bytes : Type 0} (c : Deployment Bytes) where
  abbrev pub loaded : Option Bytes → Option Saved
  loaded none = none
  loaded (some bytes) = some (c.loads bytes)

  -- The reservation; `now` and `later` are the clock at the two calls of the store, and `others` is
  -- what other requests do between them.
  unfoldable pub reserve :
      ℕ → ℕ → ℕ → ℕ → (Data Bytes → Data Bytes) → Data Bytes → Verdict × Data Bytes
  reserve key fingerprint now later others d =
      let (reserved, d1) = set_if_absent now key (c.dumps (pending fingerprint)) c.lock_seconds d in
      if reserved
      then (executed key, d1)
      else let (existing, d2) = get later key (others d1) in
        (answer_existing (loaded existing) fingerprint, d2)

  -- A valid key: who sent it, and whether the store can be reached.
  unfoldable pub protect :
      Request → ℕ → Bool → ℕ → ℕ → (Data Bytes → Data Bytes) → Data Bytes → Verdict × Data Bytes
  protect request raw_key available now later others d = elim request.subject [
    | none ↦ (passed_on, d)
    | some subject ↦
        if available
        then reserve (c.store_key subject raw_key) request.fingerprint now later others d
        else (problem 503, d)
  ]

  -- `__call__`, up to the run of the endpoint.
  unfoldable pub call :
      Request → Bool → ℕ → ℕ → (Data Bytes → Data Bytes) → Data Bytes → Verdict × Data Bytes
  call request available now later others d =
      if not request.is_post then (passed_on, d) else elim request.raw_key [
        | none ↦ (passed_on, d)
        | some raw_key ↦
            if request.is_excluded
            then (passed_on, d)
            else if not request.key_valid
            then (problem 400, d)
            else protect request raw_key available now later others d
      ]

  unfoldable pub release : ℕ → Bool → Data Bytes → Data Bytes
  release key available d = if available then delete key d else d

  -- `_execute` after the endpoint: `none` if it raised. `total` and `body` are what was captured.
  unfoldable pub save : ℕ → ℕ → Response → Bool → ℕ → Data Bytes → Data Bytes
  save key fingerprint response available now d =
      let (total, body) = capture 0 response.chunks in
      if not (leb 200 response.status && ltb response.status 300) || ltb max_stored_body total
      then release key available d
      else if available
      then set now key
          (c.dumps
            (finished fingerprint response.status (filter is_replayed response.headers) body))
          c.ttl_seconds d
      else d

  unfoldable pub finish : ℕ → ℕ → Option Response → Bool → ℕ → Data Bytes → Data Bytes
  finish key fingerprint none available now d = release key available d
  finish key fingerprint (some response) available now d =
      save key fingerprint response available now d

-- A request that arrives, the end of one that was executed under a key, or the second call of the
-- store by one that was not, where others come between its two calls.
pub data Step : Type 0 where
  arrives : (request : Request) (available : Bool) (now later : ℕ) → Step
  ends :
      (store_key fingerprint : ℕ) (response : Option Response) (available : Bool) (now : ℕ) → Step
  reads : (store_key now : ℕ) → Step

module _ {Bytes : Type 0} (c : Deployment Bytes) where
  unfoldable pub step : Step → Data Bytes → Data Bytes
  step (arrives request available now later) d =
      (call c request available now later (λ before. before) d).1
  step (ends key fingerprint response available now) d =
      finish c key fingerprint response available now d
  step (reads key now) d = (get now key d).1

  unfoldable pub steps : List Step → Data Bytes → Data Bytes
  steps [] d = d
  steps (s ∷ rest) d = steps rest (step s d)
