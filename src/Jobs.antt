-- ===== src/Jobs.antt =====
-- backend/app/repositories/embeddings.py (`EmbeddingJobStore`) and the backoff of
-- backend/app/domain/embeddings.py. A call is one transaction; rows that another transaction holds
-- locked are skipped by a claim, so they are given. Ids, lease tokens and the clock are the
-- database's and Python's: a token is given for each job. Vectors and texts are numbers.
pub mod Lease
pub mod Rows
pub mod Backoff
pub mod Worker
mod Tests
use context_ledger.Base.{
  ℕ, ◌+◌, ◌-◌, ◌*◌, ◌^◌, min, Bool, true, false, not, ◌&&◌, ◌||◌, Option, none, some, List, [], ◌∷◌,
  map, filter, any, take, length, contains, ◌==◌, leb, ltb, if◌then◌else◌,
}
use context_ledger.Base.Sort.{sort_by}
use context_ledger.Versions.{FactVersion}

pub data EmbeddingJobStatus : Type 0 where
  pending running succeeded failed : EmbeddingJobStatus

pub record EmbeddingJob : Type 0 where
  pub id : ℕ
  pub organization_id : ℕ
  pub fact_version_id : ℕ
  pub model : ℕ
  pub status : EmbeddingJobStatus
  pub attempts : ℕ
  pub available_at : ℕ
  pub created_at : ℕ
  pub locked_at : Option ℕ
  pub lease_token : Option ℕ
  pub last_error : Option ℕ

pub record FactEmbedding : Type 0 where
  pub organization_id : ℕ
  pub fact_version_id : ℕ
  pub model : ℕ
  pub embedding : ℕ
  pub content_sha256 : ℕ

pub record ClaimedJob : Type 0 where
  pub job_id : ℕ
  pub organization_id : ℕ
  pub fact_version_id : ℕ
  pub lease_token : ℕ
  pub attempts : ℕ

-- The two tables of the store.
pub record Jobs : Type 0 where
  pub jobs : List EmbeddingJob
  pub embeddings : List FactEmbedding

abbrev pub is_pending : EmbeddingJobStatus → Bool
is_pending pending = true
is_pending _ = false

abbrev pub is_running : EmbeddingJobStatus → Bool
is_running running = true
is_running _ = false

-- An optional scope to one organization.
abbrev pub in_scope : Option ℕ → ℕ → Bool
in_scope none o = true
in_scope (some scope) o = o == scope

abbrev pub same_id : Option ℕ → ℕ → Bool
same_id none i = false
same_id (some t) i = t == i

-- `locked_at < now - lease`; a comparison with NULL is not true.
abbrev pub lease_over : Option ℕ → ℕ → ℕ → Bool
lease_over none now lease = false
lease_over (some t) now lease = ltb (t + lease) now

-- `retry_delay`, in a unit in which the base and the cap, floating-point numbers, are whole: doubling
-- them is exact.
unfoldable pub retry_delay : ℕ → ℕ → ℕ → ℕ
retry_delay attempts base cap = if ltb attempts 1 then 0 else min cap (base * 2 ^ (attempts - 1))

abbrev pub recorded : FactVersion → ℕ
recorded v = v.recorded_at

abbrev pub available : EmbeddingJob → ℕ
available j = j.available_at

abbrev pub created : EmbeddingJob → ℕ
created j = j.created_at

abbrev pub job_id : EmbeddingJob → ℕ
job_id j = j.id

abbrev pub leased : (ℕ → ℕ) → ℕ → EmbeddingJob → EmbeddingJob
leased token now j = record j {
  status = running;
  lease_token = some (token j.id);
  locked_at = some now;
  attempts = j.attempts + 1;
}

abbrev pub claimed_job : (ℕ → ℕ) → EmbeddingJob → ClaimedJob
claimed_job token j = record {
  job_id = j.id;
  organization_id = j.organization_id;
  fact_version_id = j.fact_version_id;
  lease_token = token j.id;
  attempts = j.attempts + 1;
}

-- The rows of the ids are written back.
abbrev pub lease_row : (ℕ → ℕ) → ℕ → List ℕ → EmbeddingJob → EmbeddingJob
lease_row token now ids j = if contains j.id ids then leased token now j else j

module _ (model : ℕ) where
  abbrev pub is_job_of : ℕ → EmbeddingJob → Bool
  is_job_of version_id j = j.fact_version_id == version_id && j.model == model

  abbrev pub is_embedding_of : ℕ → FactEmbedding → Bool
  is_embedding_of version_id e = e.fact_version_id == version_id && e.model == model

  abbrev pub is_missing : Jobs → Option ℕ → FactVersion → Bool
  is_missing q scope v =
      in_scope scope v.organization_id
      && not (any (is_job_of v.id) q.jobs)
      && not (any (is_embedding_of v.id) q.embeddings)

  abbrev pub pending_job : (ℕ → ℕ) → ℕ → FactVersion → EmbeddingJob
  pending_job new_id now v = record {
    id = new_id v.id;
    organization_id = v.organization_id;
    fact_version_id = v.id;
    model = model;
    status = pending;
    attempts = 0;
    available_at = now;
    created_at = now;
    locked_at = none;
    lease_token = none;
    last_error = none;
  }

  -- `INSERT … ON CONFLICT DO NOTHING`, row by row, and the number of rows inserted.
  unfoldable pub insert_jobs : List EmbeddingJob → List EmbeddingJob → ℕ × List EmbeddingJob
  insert_jobs [] jobs = (0, jobs)
  insert_jobs (j ∷ js) jobs =
      let skipped = insert_jobs js jobs in
      let (n, rest) = insert_jobs js (j ∷ jobs) in
      if any (is_job_of j.fact_version_id) jobs then skipped else (n + 1, rest)

  unfoldable pub enqueue_missing : (ℕ → ℕ) → ℕ → ℕ → Option ℕ → List FactVersion → Jobs → ℕ × Jobs
  enqueue_missing new_id now limit scope versions q =
      let rows = take limit (sort_by recorded (filter (is_missing q scope) versions)) in
      let (n, jobs) = insert_jobs (map (pending_job new_id now) rows) q.jobs in
      (n, record q { jobs = jobs })

  -- The WHERE clause of `claim`, with the scope, on rows that are not locked.
  abbrev pub is_due : ℕ → ℕ → Option ℕ → List ℕ → EmbeddingJob → Bool
  is_due now lease scope busy j =
      j.model == model
      && leb j.available_at now
      && (is_pending j.status || (is_running j.status && lease_over j.locked_at now lease))
      && in_scope scope j.organization_id
      && not (contains j.id busy)

  -- `ORDER BY available_at, created_at LIMIT batch_size`: stable sorts, the second key first.
  unfoldable pub chosen : ℕ → ℕ → ℕ → Option ℕ → List ℕ → List EmbeddingJob → List EmbeddingJob
  chosen batch_size now lease scope busy jobs =
      take batch_size
        (sort_by available (sort_by created (filter (is_due now lease scope busy) jobs)))

  unfoldable pub claim : (ℕ → ℕ) → ℕ → ℕ → ℕ → Option ℕ → List ℕ → Jobs → List ClaimedJob × Jobs
  claim token batch_size now lease scope busy q =
      let rows = chosen batch_size now lease scope busy q.jobs in
      (
        map (claimed_job token) rows,
        record q { jobs = map (lease_row token now (map job_id rows)) q.jobs },
      )

  -- `cached_vectors`: the vector of the same text in the same organization.
  unfoldable pub cached_vector : ℕ → ℕ → List FactEmbedding → Option ℕ
  cached_vector o digest [] = none
  cached_vector o digest (e ∷ es) =
      let rest = cached_vector o digest es in
      if e.organization_id == o && e.model == model && e.content_sha256 == digest
      then some e.embedding
      else rest

  unfoldable pub save_embedding : ℕ → ℕ → ℕ → ℕ → Jobs → Jobs
  save_embedding o version_id vector digest q =
      if any (is_embedding_of version_id) q.embeddings then q else record q {
        embeddings =
            record {
              organization_id = o;
              fact_version_id = version_id;
              model = model;
              embedding = vector;
              content_sha256 = digest;
            }
            ∷ q.embeddings;
      }

-- The WHERE clause of `complete` and `fail`: the row of the job, under the token of the claim.
abbrev pub holds : ClaimedJob → EmbeddingJob → Bool
holds c j = j.id == c.job_id && same_id j.lease_token c.lease_token

abbrev pub complete_row : ClaimedJob → EmbeddingJob → EmbeddingJob
complete_row c j =
    if holds c j
    then record j { status = succeeded; lease_token = none; locked_at = none; last_error = none }
    else j

unfoldable pub complete : ClaimedJob → Jobs → Bool × Jobs
complete c q = (any (holds c) q.jobs, record q { jobs = map (complete_row c) q.jobs })

-- `fail`, with the error's text cut to size; `retry_in` is in the unit of the clock.
abbrev pub fail_row : ClaimedJob → ℕ → Option ℕ → ℕ → EmbeddingJob → EmbeddingJob
fail_row c error none now j =
    if holds c j
    then record j { status = failed; lease_token = none; locked_at = none; last_error = some error }
    else j
fail_row c error (some retry_in) now j =
    if holds c j
    then record j {
      status = pending;
      lease_token = none;
      locked_at = none;
      last_error = some error;
      available_at = now + retry_in;
    }
    else j

unfoldable pub fail : ClaimedJob → ℕ → Option ℕ → ℕ → Jobs → Jobs
fail c error retry_in now q = record q { jobs = map (fail_row c error retry_in now) q.jobs }
