-- ===== src/Jobs/Lease/Lost.antt =====
-- What a worker that lost its lease still does (backend/app/repositories/embeddings.py).
use context_ledger.Base.{
  ℕ, ◌≡◌, ◌≢◌, ◌⊎◌, refl, true, false, Option, none, some, List, [], ◌∷◌, map, any, All, arith, inl,
  inr, Bool-cases,
}
use context_ledger.Base.Every.{Member, All-mono}
use context_ledger.Jobs.{
  EmbeddingJob, Jobs, ClaimedJob, claim, holds, complete_row, complete, fail_row, fail,
  FactEmbedding, is_embedding_of, save_embedding,
}
use context_ledger.Jobs.Lease.{Step, steps, Within}
use context_ledger.Jobs.Lease.Held.{IsLeased, steps-Leased}
use context_ledger.Jobs.Lease.Exclusive.{claim-makes-Leased}

-- A row under another lease is not held by a claim.
other-holds :
    (id token since : ℕ) (c : ClaimedJob) (j : EmbeddingJob)
    → id ≡ c.job_id
    → token ≢ c.lease_token
    → IsLeased id token since j
    → holds c j ≡ false
other-holds id token since c j same differ (inl other) = ground arith
other-holds id token since c j same differ (inr held) = ground arith

fail_row-other :
    (c : ClaimedJob) (error now : ℕ) (j : EmbeddingJob) (retry_in : Option ℕ)
    → holds c j ≡ false
    → fail_row c error retry_in now j ≡ j
fail_row-other c error now j none h = rw h refl
fail_row-other c error now j (some t) h = rw h refl

untouched :
    (c : ClaimedJob) (f : EmbeddingJob → EmbeddingJob) (jobs : List EmbeddingJob)
    → ((j : EmbeddingJob) → holds c j ≡ false → f j ≡ j)
    → All (λ j. holds c j ≡ false) jobs
    → (any (holds c) jobs ≡ false) × (map f jobs ≡ jobs)
untouched c f [] same all = (refl, refl)
untouched c f (j ∷ js) same (h, all) = ground (arith, same j h, untouched c f js same all)

-- Saving an embedding writes no job.
save-jobs :
    (model o version_id vector digest : ℕ) (q : Jobs)
    → (save_embedding model o version_id vector digest q).jobs ≡ q.jobs
unfolding save_embedding
save-jobs model o version_id vector digest q =
    elim (Bool-cases (any (is_embedding_of model version_id) q.embeddings)) [
      | inl there ↦ rw there refl
      | inr free ↦ rw free refl
    ]

-- The only embedding that a save may add is the one given, for a version that had none.
abbrev pub AddsAtMost : ℕ → FactEmbedding → Jobs → Jobs → Type 0
AddsAtMost model row q q' =
    ((any (is_embedding_of model row.fact_version_id) q.embeddings ≡ true) × (q' ≡ q))
    ⊎ ((any (is_embedding_of model row.fact_version_id) q.embeddings ≡ false)
        × (q'.embeddings ≡ row ∷ q.embeddings)
        × (q'.jobs ≡ q.jobs))

save-AddsAtMost :
    (model o version_id vector digest : ℕ) (q : Jobs)
    → AddsAtMost model
        (record {
          organization_id = o;
          fact_version_id = version_id;
          model = model;
          embedding = vector;
          content_sha256 = digest;
        })
        q
        (save_embedding model o version_id vector digest q)
unfolding save_embedding
save-AddsAtMost model o version_id vector digest q =
    elim (Bool-cases (any (is_embedding_of model version_id) q.embeddings)) [
      | inl there ↦ rw there (inl (refl, refl))
      | inr free ↦ rw free (inr (refl, refl, refl))
    ]

-- A worker lost its lease: another claim returned its job under another token. Then come any
-- transactions, in which claims are made before that lease is over by their own setting, new jobs get
-- other ids, and the outcome of the job is not written under that token. After them the first worker's
-- failure of the job changes nothing. When it writes its vector, the vector is stored if the version has
-- none yet, and is dropped otherwise; no job changes, and the completion after it is refused and
-- changes nothing.
pub complete-lost :
    (model : ℕ) (token : ℕ → ℕ) (batch_size now lease : ℕ) (scope : Option ℕ) (busy : List ℕ)
    (q : Jobs) (c d : ClaimedJob) (ss : List Step) (error : ℕ) (retry_in : Option ℕ)
    (later vector digest : ℕ)
    → Member d (claim model token batch_size now lease scope busy q).0
    → d.job_id ≡ c.job_id
    → d.lease_token ≢ c.lease_token
    → All (Within d.job_id d.lease_token now) ss
    → let q' = steps ss (claim model token batch_size now lease scope busy q).1 in
      let saved = save_embedding model c.organization_id c.fact_version_id vector digest q' in
      (fail c error retry_in later q' ≡ q')
      × AddsAtMost model
          (record {
            organization_id = c.organization_id;
            fact_version_id = c.fact_version_id;
            model = model;
            embedding = vector;
            content_sha256 = digest;
          })
          q'
          saved
      × (complete c saved ≡ (false, saved))
unfolding complete fail
complete-lost model token batch_size now lease scope busy q c d ss error retry_in later vector
      digest m same differ all =
    let held =
      steps-Leased d.job_id d.lease_token now ss _ all
        (claim-makes-Leased model token batch_size now lease scope busy q d m) in
    let q' = steps ss (claim model token batch_size now lease scope busy q).1 in
    let saved = save_embedding model c.organization_id c.fact_version_id vector digest q' in
    let none_held =
      All-mono (λ j. holds c j ≡ false) (IsLeased d.job_id d.lease_token now) q'.jobs
        (λ j leased_j. other-holds d.job_id d.lease_token now c j same differ leased_j) held.0 in
    let (absent, completed) =
      untouched c (complete_row c) saved.jobs (λ j h. ground arith)
        (rw (save-jobs model c.organization_id c.fact_version_id vector digest q') none_held) in
    let (again, left) =
      untouched c (fail_row c error retry_in later) q'.jobs
        (λ j h. fail_row-other c error later j retry_in h) none_held in
    (
      ground arith,
      save-AddsAtMost model c.organization_id c.fact_version_id vector digest q',
      ground arith,
    )
