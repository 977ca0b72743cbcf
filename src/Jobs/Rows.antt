-- ===== src/Jobs/Rows.antt =====
-- The invariant of the job table (backend/app/repositories/embeddings.py, and the constraints that
-- backend/app/models/embedding.py states).
use context_ledger.Base.{
  ℕ, ◌≡◌, ◌∙◌, refl, Bool, true, false, Option, none, some, List, [], ◌∷◌, map, any, All, arith,
  inl, inr, Bool-cases,
}
use context_ledger.Base.Every.{All-map}
use context_ledger.Versions.{FactVersion}
use context_ledger.Jobs.{
  EmbeddingJob, FactEmbedding, Jobs, ClaimedJob, is_running, is_job_of, is_embedding_of,
  pending_job, insert_jobs, enqueue_missing, chosen, job_id, lease_row, claim, save_embedding,
  complete_row, complete, fail_row, fail,
}
use context_ledger.Jobs.Lease.{Step, enqueues, claims, saves, completes, fails, step, steps}

abbrev pub is_given : Option ℕ → Bool
is_given none = false
is_given (some t) = true

-- A job has a lease token, and the time of its lease, exactly while it runs.
abbrev pub IsConsistent : EmbeddingJob → Type 0
IsConsistent j =
    (is_given j.lease_token ≡ is_running j.status) × (is_given j.locked_at ≡ is_running j.status)

abbrev pub UniqueJobs : List EmbeddingJob → Type 0
UniqueJobs [] = Unit {0}
UniqueJobs (j ∷ js) = (any (is_job_of j.model j.fact_version_id) js ≡ false) × UniqueJobs js

abbrev pub UniqueEmbeddings : List FactEmbedding → Type 0
UniqueEmbeddings [] = Unit {0}
UniqueEmbeddings (e ∷ es) =
    (any (is_embedding_of e.model e.fact_version_id) es ≡ false) × UniqueEmbeddings es

pub record IsStore (q : Jobs) : Type 0 where
  pub consistent : All IsConsistent q.jobs
  pub one_job : UniqueJobs q.jobs
  pub one_embedding : UniqueEmbeddings q.embeddings

any-job-map :
    (f : EmbeddingJob → EmbeddingJob) (model v : ℕ) (jobs : List EmbeddingJob)
    → ((j : EmbeddingJob) → ((f j).model ≡ j.model) × ((f j).fact_version_id ≡ j.fact_version_id))
    → any (is_job_of model v) (map f jobs) ≡ any (is_job_of model v) jobs
any-job-map f model v [] same = refl
any-job-map f model v (j ∷ js) same = ground (arith, same j, any-job-map f model v js same)

map-UniqueJobs :
    (f : EmbeddingJob → EmbeddingJob) (jobs : List EmbeddingJob)
    → ((j : EmbeddingJob) → ((f j).model ≡ j.model) × ((f j).fact_version_id ≡ j.fact_version_id))
    → UniqueJobs jobs
    → UniqueJobs (map f jobs)
map-UniqueJobs f [] same unique = tt
map-UniqueJobs f (j ∷ js) same (fresh, unique) = (
  rw (same j).0 (rw (same j).1 (any-job-map f j.model j.fact_version_id js same ∙ fresh)),
  map-UniqueJobs f js same unique,
)

insert-IsStore :
    (model now : ℕ) (new_id : ℕ → ℕ) (rows : List FactVersion) (jobs : List EmbeddingJob)
    → All IsConsistent jobs
    → UniqueJobs jobs
    → All IsConsistent (insert_jobs model (map (pending_job model new_id now) rows) jobs).1
      × UniqueJobs (insert_jobs model (map (pending_job model new_id now) rows) jobs).1
unfolding insert_jobs
insert-IsStore model now new_id [] jobs consistent unique = (consistent, unique)
insert-IsStore model now new_id (v ∷ vs) jobs consistent unique =
    let row = pending_job model new_id now v in
    let skipped = insert-IsStore model now new_id vs jobs consistent unique in
    elim (Bool-cases (any (is_job_of model v.id) jobs)) [
      | inl taken ↦ rw taken skipped
      | inr free ↦ rw free (
          insert-IsStore model now new_id vs (row ∷ jobs) ((refl, refl), consistent) (free, unique))
    ]

fail_row-IsConsistent :
    (c : ClaimedJob) (error now : ℕ) (j : EmbeddingJob) (retry_in : Option ℕ)
    → IsConsistent j
    → IsConsistent (fail_row c error retry_in now j)
fail_row-IsConsistent c error now j none k = ground arith
fail_row-IsConsistent c error now j (some t) k = ground arith

fail_row-same :
    (c : ClaimedJob) (error now : ℕ) (j : EmbeddingJob) (retry_in : Option ℕ)
    → ((fail_row c error retry_in now j).model ≡ j.model)
      × ((fail_row c error retry_in now j).fact_version_id ≡ j.fact_version_id)
fail_row-same c error now j none = ground arith
fail_row-same c error now j (some t) = ground arith

-- The invariant is kept by each transaction.
step-IsStore : (s : Step) (q : Jobs) → IsStore q → IsStore (step s q)
unfolding step enqueue_missing claim save_embedding complete fail
step-IsStore (enqueues model new_id now limit scope versions) q w =
    let (consistent, unique) = insert-IsStore model now new_id _ q.jobs w.consistent w.one_job in
    record { consistent = consistent; one_job = unique; one_embedding = w.one_embedding }
step-IsStore (claims model token batch_size now lease scope busy) q w =
    let ids = map job_id (chosen model batch_size now lease scope busy q.jobs) in
    record {
      consistent =
          All-map IsConsistent IsConsistent (lease_row token now ids) q.jobs (λ j c. ground arith)
            w.consistent;
      one_job =
          map-UniqueJobs (lease_row token now ids) q.jobs (λ j. (ground arith, ground arith))
            w.one_job;
      one_embedding = w.one_embedding;
    }
step-IsStore (saves model o version_id vector digest) q w =
    elim (Bool-cases (any (is_embedding_of model version_id) q.embeddings)) [
      | inl there ↦ rw there w
      | inr free ↦ rw free (record {
        consistent = w.consistent;
        one_job = w.one_job;
        one_embedding = (free, w.one_embedding);
      })
    ]
step-IsStore (completes c) q w = record {
  consistent =
      All-map IsConsistent IsConsistent (complete_row c) q.jobs (λ j k. ground arith) w.consistent;
  one_job = map-UniqueJobs (complete_row c) q.jobs (λ j. (ground arith, ground arith)) w.one_job;
  one_embedding = w.one_embedding;
}
step-IsStore (fails c error retry_in now) q w = record {
  consistent =
      All-map IsConsistent IsConsistent (fail_row c error retry_in now) q.jobs
        (λ j k. fail_row-IsConsistent c error now j retry_in k) w.consistent;
  one_job =
      map-UniqueJobs (fail_row c error retry_in now) q.jobs
        (λ j. fail_row-same c error now j retry_in) w.one_job;
  one_embedding = w.one_embedding;
}

-- Through any transactions of any workers a job keeps a lease token, and the time of its lease,
-- exactly while it runs, and no version has two jobs or two embeddings under one model.
pub steps-IsStore : (ss : List Step) (q : Jobs) → IsStore q → IsStore (steps ss q)
unfolding steps
steps-IsStore [] q w = w
steps-IsStore (s ∷ ss) q w = steps-IsStore ss (step s q) (step-IsStore s q w)
