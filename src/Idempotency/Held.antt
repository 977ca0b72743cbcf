-- ===== src/Idempotency/Held.antt =====
-- What a key that is held keeps out (backend/app/cache/idempotency.py).
use context_ledger.Base.{
  ℕ, ◌+◌, ◌*◌, ◌<◌, ◌≡◌, ◌≢◌, Bool, true, false, Option, none, some, List, [], ◌∷◌, filter, All,
  ◌==◌, lt→ltb, Bool-cases, Option-cases, arith, inl, inr,
}
use context_ledger.Store.{Entry, Data, lookup, live, get, set, set_if_absent, delete}
use context_ledger.Store.View.{live-held, live-lookup, lookup-live, lookup-put, lookup-pop}
use context_ledger.Idempotency.{
  Request, Response, pending, finished, Deployment, answer_existing, is_replayed, capture, reserve,
  protect, call, release, save, finish, Step, arrives, ends, reads, step, steps,
}

-- A POST under a valid key of an authenticated caller, stored under `key`.
pub record IsKeyed {Bytes : Type 0} (c : Deployment Bytes) (key : ℕ) (r : Request) : Type 0 where
  pub raw_key : ℕ
  pub subject : ℕ
  pub post : r.is_post ≡ true
  pub included : r.is_excluded ≡ false
  pub valid : r.key_valid ≡ true
  pub raw_key_given : r.raw_key ≡ some raw_key
  pub subject_known : r.subject ≡ some subject
  pub stored_under : c.store_key subject raw_key ≡ key

-- A step before a time, and not the end of an execution under the key.
abbrev pub Before : ℕ → ℕ → Step → Type 0
Before t key (arrives request available now later) = (now < t) × (later < t)
Before t key (ends other fingerprint response available now) = other ≢ key
Before t key (reads other now) = now < t

module _ {Bytes : Type 0} (c : Deployment Bytes) (key : ℕ) (e : Entry Bytes) where
  set_if_absent-held :
      (now other ttl : ℕ) (value : Bytes) (d : Data Bytes)
      → lookup key d ≡ some e
      → now < e.expires
      → lookup key (set_if_absent now other value ttl d).1 ≡ some e
  unfolding set_if_absent set
  set_if_absent-held now other ttl value d held before = elim (Bool-cases (other == key)) [
    | inl same ↦ ground (
      arith,
      live-held now other key d e held (lt→ltb _ _ before) same,
      lookup-live now other key d e held (lt→ltb _ _ before),
    )
    | inr differ ↦ ground (
      arith,
      lookup-live now other key d e held (lt→ltb _ _ before),
      lookup-put other key (record { value = value; expires = now + 1000 * ttl })
          (live now other d).1,
    )
  ]

  reserve-held :
      (other fingerprint now later : ℕ) (d : Data Bytes)
      → lookup key d ≡ some e
      → now < e.expires
      → later < e.expires
      → lookup key (reserve c other fingerprint now later (λ before. before) d).1 ≡ some e
  unfolding reserve get
  reserve-held other fingerprint now later d held before before' =
      let held1 =
        set_if_absent-held now other c.lock_seconds (c.dumps (pending fingerprint)) d held before in
      ground (
        arith,
        held1,
        lookup-live later other key
            (set_if_absent now other (c.dumps (pending fingerprint)) c.lock_seconds d).1 e held1
            (lt→ltb _ _ before'),
      )

  call-held :
      (request : Request) (available : Bool) (now later : ℕ) (d : Data Bytes)
      → lookup key d ≡ some e
      → now < e.expires
      → later < e.expires
      → lookup key (call c request available now later (λ before. before) d).1 ≡ some e
  unfolding call protect
  call-held request available now later d held before before' =
      elim (Option-cases request.raw_key) [
        | inl e1 ↦ ground arith
        | inr (r, e1) ↦ elim (Option-cases request.subject) [
          | inl e2 ↦ ground arith
          | inr (u, e2) ↦ ground (
            arith,
            reserve-held (c.store_key u r) request.fingerprint now later d held before before',
          )
        ]
      ]

  finish-held :
      (other fingerprint : ℕ) (response : Option Response) (available : Bool) (now : ℕ)
      (d : Data Bytes)
      → other ≢ key
      → lookup key d ≡ some e
      → lookup key (finish c other fingerprint response available now d) ≡ some e
  unfolding finish save release delete set
  finish-held other fingerprint none available now d differ held =
      ground (arith, lookup-pop other key d)
  finish-held other fingerprint (some r) available now d differ held = ground (
    arith,
    lookup-pop other key d,
    lookup-put other key
        (record {
          value =
              c.dumps (
                finished fingerprint r.status (filter is_replayed r.headers)
                  (capture 0 r.chunks).1);
          expires = now + 1000 * c.ttl_seconds;
        })
        d,
  )

  pub steps-held :
      (ss : List Step) (d : Data Bytes)
      → All (Before e.expires key) ss
      → lookup key d ≡ some e
      → lookup key (steps c ss d) ≡ some e
  unfolding steps step get
  steps-held [] d all held = held
  steps-held (arrives request available now later ∷ ss) d ((now_lt, later_lt), all) held =
      steps-held ss _ all (call-held request available now later d held now_lt later_lt)
  steps-held (ends other fingerprint response available now ∷ ss) d (differ, all) held =
      steps-held ss _ all (finish-held other fingerprint response available now d differ held)
  steps-held (reads other now ∷ ss) d (now_lt, all) held =
      steps-held ss _ all (lookup-live now other key d e held (lt→ltb _ _ now_lt))

  answer-reserve :
      (fingerprint now later : ℕ) (others : Data Bytes → Data Bytes) (d : Data Bytes)
      → ((x : Data Bytes) → lookup key x ≡ some e → lookup key (others x) ≡ some e)
      → lookup key d ≡ some e
      → now < e.expires
      → later < e.expires
      → (reserve c key fingerprint now later others d).0
        ≡ answer_existing (some (c.loads e.value)) fingerprint
  unfolding reserve set_if_absent get
  answer-reserve fingerprint now later others d keep held before before' = ground (
    arith,
    live-lookup now key d e held (lt→ltb _ _ before),
    live-lookup later key (others (live now key d).1) e
        (keep (live now key d).1 (lookup-live now key key d e held (lt→ltb _ _ before)))
        (lt→ltb _ _ before'),
  )

  -- Whoever sends the key while it is held gets the answer to what is stored.
  pub answer-held :
      (request : Request) (now later : ℕ) (others : Data Bytes → Data Bytes) (d : Data Bytes)
      → ((x : Data Bytes) → lookup key x ≡ some e → lookup key (others x) ≡ some e)
      → IsKeyed c key request
      → lookup key d ≡ some e
      → now < e.expires
      → later < e.expires
      → (call c request true now later others d).0
        ≡ answer_existing (some (c.loads e.value)) request.fingerprint
  unfolding call protect
  answer-held request now later others d keep keyed held before before' =
      rw
        (
          keyed.post, keyed.raw_key_given, keyed.included, keyed.valid, keyed.subject_known,
          keyed.stored_under,
        )
        (answer-reserve request.fingerprint now later others d keep held before before')
