-- ===== src/Jobs/Worker.antt =====
-- backend/app/workers/embeddings.py (`EmbeddingWorker`). Rendering a document and hashing it is a
-- function of its four parts, and a text is known by its hash. The provider answers a list of texts
-- with vectors and the tokens spent, or raises, an `EmbeddingProviderError` or something else. What
-- other workers do while it is called is a function on the tables. `none` stands for an exception that
-- leaves the worker.
pub mod Total
pub mod Written
mod Tests
use context_ledger.Base.{
  ℕ, zero, suc, ◌+◌, ◌*◌, Bool, true, false, not, Option, none, some, List, [], ◌∷◌, ◌++◌, map,
  filter, any, find?, ◌&&◌, length, take, drop, ◌==◌, leb, if◌then◌else◌,
}
use Prim.Native.String.{String}
use context_ledger.Versions.{FactVersion}
use context_ledger.Db.{Db, Entity}
use context_ledger.Recording.{get_fact}
use context_ledger.EvidenceLinks.{unique_from, is_none}
use context_ledger.Jobs.{
  Jobs, ClaimedJob, retry_delay, enqueue_missing, claim, cached_vector, save_embedding, complete,
  fail,
}

pub record WorkerStats : Type 0 where
  pub enqueued : ℕ
  pub claimed : ℕ
  pub succeeded : ℕ
  pub failed : ℕ
  pub reused : ℕ
  pub embedded : ℕ
  pub tokens : ℕ
  pub lease_lost : ℕ

abbrev pub no_stats : WorkerStats
no_stats = record {
  enqueued = 0;
  claimed = 0;
  succeeded = 0;
  failed = 0;
  reused = 0;
  embedded = 0;
  tokens = 0;
  lease_lost = 0;
}

abbrev pub add_stats : WorkerStats → WorkerStats → WorkerStats
add_stats a b = record {
  enqueued = a.enqueued + b.enqueued;
  claimed = a.claimed + b.claimed;
  succeeded = a.succeeded + b.succeeded;
  failed = a.failed + b.failed;
  reused = a.reused + b.reused;
  embedded = a.embedded + b.embedded;
  tokens = a.tokens + b.tokens;
  lease_lost = a.lease_lost + b.lease_lost;
}

-- What the worker is made with. Times are in microseconds, but for the backoff, whose seconds are
-- floating-point numbers: these are whole in the unit of some power of two of a second, and doubling
-- is exact. `to_microseconds` is what Python's `timedelta` makes of a number of that unit.
pub record Worker : Type 0 where
  pub model : ℕ
  pub batch_size : ℕ
  pub max_attempts : ℕ
  pub lease : ℕ
  pub retry_base : ℕ
  pub retry_cap : ℕ
  pub to_microseconds : ℕ → ℕ
  pub scope : Option ℕ
  pub max_batch_size : ℕ

-- `items[i : i + n] for i in range(0, len(items), n)`, at most `rounds` of them.
unfoldable pub chunks : ℕ → ℕ → List ℕ → List (List ℕ)
chunks zero n items = []
chunks (suc rounds) n [] = []
chunks (suc rounds) n (i ∷ items) = take n (i ∷ items) ∷ chunks rounds n (drop n (i ∷ items))

-- What is given for texts: it is there, an `EmbeddingProviderError`, or another exception.
pub data Reply (A : Type 0) : Type 0 where
  done : A → Reply A
  refused : Reply A
  broken : Reply A

abbrev pub Provider : Type 0
Provider = List ℕ → Reply (List ℕ × ℕ)

-- `zip(…, strict=True)`
unfoldable pub zip_strict : List ℕ → List ℕ → Option (List (ℕ × ℕ))
zip_strict [] [] = some []
zip_strict [] (v ∷ vs) = none
zip_strict (d ∷ ds) [] = none
zip_strict (d ∷ ds) (v ∷ vs) = elim (zip_strict ds vs) [
  | none ↦ none
  | some pairs ↦ some ((d, v) ∷ pairs)
]

abbrev pub joined : List (ℕ × ℕ) → ℕ → Reply (List (ℕ × ℕ) × ℕ) → Reply (List (ℕ × ℕ) × ℕ)
joined pairs spent (done (fresh, tokens)) = done (pairs ++ fresh, spent + tokens)
joined pairs spent refused = refused
joined pairs spent broken = broken

-- The dictionary `fresh`, with the tokens.
unfoldable pub embed_all : Provider → List (List ℕ) → Reply (List (ℕ × ℕ) × ℕ)
embed_all provider [] = done ([], 0)
embed_all provider (chunk ∷ rest) = elim (provider chunk) [
  | refused ↦ refused
  | broken ↦ broken
  | done (vectors, spent) ↦ elim (zip_strict chunk vectors) [
    | none ↦ broken
    | some pairs ↦ joined pairs spent (embed_all provider rest)
  ]
]

-- `fresh[digest]`, if the key is there.
unfoldable pub fresh_vector : ℕ → List (ℕ × ℕ) → Option ℕ
fresh_vector digest [] = none
fresh_vector digest ((d, v) ∷ rest) =
    let found = fresh_vector digest rest in if d == digest then some v else found

abbrev pub orelse : Option ℕ → Option ℕ → Option ℕ
orelse none o = o
orelse (some v) o = some v

module _ (w : Worker) (digest : ClaimedJob → ℕ) where
  -- The vector of the same text, as the first transaction found it.
  abbrev pub cached : Jobs → ClaimedJob → Option ℕ
  cached q c = cached_vector w.model c.organization_id (digest c) q.embeddings

  -- `to_embed`: each text that is not cached, once.
  unfoldable pub to_embed : Jobs → List ClaimedJob → List ℕ
  to_embed q jobs = unique_from [] (map digest (filter (λ c. is_none (cached q c)) jobs))

  -- `cached.get(…)`, or else `fresh[digest]`.
  unfoldable pub vector_for : Jobs → List (ℕ × ℕ) → ClaimedJob → Option ℕ
  vector_for before fresh c = orelse (cached before c) (fresh_vector (digest c) fresh)

  abbrev pub count_job : Bool → Bool → Option (WorkerStats × Jobs) → Option (WorkerStats × Jobs)
  count_job held fresh none = none
  count_job held fresh (some (stats, q)) = some (
    record stats {
      succeeded = (if held then 1 else 0) + stats.succeeded;
      lease_lost = (if held then 0 else 1) + stats.lease_lost;
      reused = (if fresh then 0 else 1) + stats.reused;
    },
    q,
  )

  -- The loop that stores the vectors; `none` where a key is missing, which raises.
  unfoldable pub write_all :
      Jobs → List (ℕ × ℕ) → List ClaimedJob → Jobs → Option (WorkerStats × Jobs)
  write_all before fresh [] q = some (no_stats, q)
  write_all before fresh (c ∷ cs) q = elim (vector_for before fresh c) [
    | none ↦ none
    | some vector ↦
        let saved =
          save_embedding w.model c.organization_id c.fact_version_id vector (digest c) q in
        let (held, q1) = complete c saved in
        count_job held (is_none (cached before c)) (write_all before fresh cs q1)
  ]

  abbrev pub retry_in : ClaimedJob → Option ℕ
  retry_in c =
      if leb w.max_attempts c.attempts
      then none
      else some (w.to_microseconds (retry_delay c.attempts w.retry_base w.retry_cap))

  -- `_record_failure`, and the number of jobs that failed for good.
  unfoldable pub record_failure : ℕ → ℕ → List ClaimedJob → Jobs → ℕ × Jobs
  record_failure error now [] q = (0, q)
  record_failure error now (c ∷ cs) q =
      let (n, q1) = record_failure error now cs (fail c error (retry_in c) now q) in
      ((if leb w.max_attempts c.attempts then 1 else 0) + n, q1)

  -- `_process` once the texts are hashed: `before` are the tables of its first transaction, `q`
  -- those of its last; `error` is the text of the provider's exception.
  unfoldable pub process_texts :
      Provider → ℕ → ℕ → List ClaimedJob → Jobs → Jobs → Option (WorkerStats × Jobs)
  process_texts provider error now jobs before q =
      let texts = to_embed before jobs in
      elim (embed_all provider (chunks (length texts) w.max_batch_size texts)) [
        | broken ↦ none
        | refused ↦
            let (n, q1) = record_failure error now jobs q in
            some (record no_stats { failed = n }, q1)
        | done (fresh, tokens) ↦ elim (write_all before fresh jobs q) [
          | none ↦ none
          | some (stats, q1) ↦ some (record stats { embedded = length texts; tokens = tokens }, q1)
        ]
      ]

module _ (w : Worker) (text : String → String → String → ℕ → ℕ) where
  -- The row of `store.documents` for a version, hashed; none where a join finds nothing.
  unfoldable pub document_of : Db → FactVersion → Option ℕ
  document_of db v = elim (get_fact db v.organization_id v.fact_id) [
    | none ↦ none
    | some f ↦
        elim (find? (λ (e : Entity). e.organization_id == f.organization_id && e.id == f.entity_id)
          db.entities) [
            | none ↦ none
            | some e ↦ some (text e.entity_type e.external_id f.property v.value)
          ]
  ]

  -- `sources[job.fact_version_id]`, rendered and hashed; none where the key is missing.
  unfoldable pub hash_of : Db → ClaimedJob → Option ℕ
  hash_of db c = elim (find? (λ (v : FactVersion). v.id == c.fact_version_id) db.versions) [
    | none ↦ none
    | some v ↦ document_of db v
  ]

  abbrev pub or_zero : Option ℕ → ℕ
  or_zero none = 0
  or_zero (some n) = n

  -- The dictionary `hashes`, read where every job has its document.
  abbrev pub hashes : Db → ClaimedJob → ℕ
  hashes db c = or_zero (hash_of db c)

  -- `_process`: a document that is missing raises before anything is written.
  unfoldable pub process :
      Db → Provider → ℕ → ℕ → List ClaimedJob → Jobs → Jobs → Option (WorkerStats × Jobs)
  process db provider error now jobs before q =
      if any (λ c. is_none (hash_of db c)) jobs
      then none
      else process_texts w (hashes db) provider error now jobs before q

  abbrev pub counted : ℕ → ℕ → Option (WorkerStats × Jobs) → Option (WorkerStats × Jobs)
  counted enqueued claimed none = none
  counted enqueued claimed (some (stats, q)) =
      some (record stats { enqueued = enqueued; claimed = claimed }, q)

  -- What one batch meets: ids, tokens, the clock, locked rows, the provider, other workers.
  pub record Weather : Type 0 where
    pub new_id : ℕ → ℕ
    pub token : ℕ → ℕ
    pub now : ℕ
    pub db : Db
    pub busy : List ℕ
    pub provider : Provider
    pub error : ℕ
    pub others : Jobs → Jobs
    pub later : ℕ

  unfoldable pub run_once : Weather → Jobs → Option (WorkerStats × Jobs)
  run_once e q =
      let (enqueued, q1) =
        enqueue_missing w.model e.new_id e.now (w.batch_size * 4) w.scope e.db.versions q in
      let (jobs, q2) = claim w.model e.token w.batch_size e.now w.lease w.scope e.busy q1 in
      if length jobs == 0
      then some (record no_stats { enqueued = enqueued }, q2)
      else counted enqueued (length jobs)
          (process e.db e.provider e.error e.later jobs q2 (e.others q2))

  -- `drain`: at most as many batches as given, up to the first that claims nothing.
  unfoldable pub drain : List Weather → Jobs → Option (WorkerStats × Jobs)
  drain [] q = some (no_stats, q)
  drain (e ∷ es) q = elim (run_once e q) [
    | none ↦ none
    | some (stats, q1) ↦
        let rest = drain es q1 in
        if stats.claimed == 0
        then some (add_stats no_stats stats, q1)
        else elim rest [ none ↦ none | some (total, q2) ↦ some (add_stats stats total, q2) ]
  ]
