-- ===== src/Jobs/Lease/Held.antt =====
-- A job that is leased stays with its claim (backend/app/repositories/embeddings.py).
use context_ledger.Base.{
  ℕ, ◌+◌, ◌≤◌, ◌≡◌, ◌≢◌, ◌⊎◌, ◌∙◌, refl, true, false, Option, some, List, [], ◌∷◌, map, any,
  contains, All, ◌==◌, arith, inl, inr, Bool-cases,
}
use context_ledger.Base.Every.{All-map, All-filter, All-sort_by, All-take, contains-map}
use context_ledger.Versions.{FactVersion}
use context_ledger.Jobs.{
  EmbeddingJob, Jobs, ClaimedJob, running, is_due, is_job_of, is_embedding_of, pending_job,
  insert_jobs, enqueue_missing, chosen, available, created, job_id, lease_row, claim,
  save_embedding, holds, complete_row, complete, fail_row, fail,
}
use context_ledger.Jobs.Lease.{Step, enqueues, claims, saves, completes, fails, step, steps, Within}

pub any-map :
    (id : ℕ) (f : EmbeddingJob → EmbeddingJob) (jobs : List EmbeddingJob)
    → ((j : EmbeddingJob) → (f j).id ≡ j.id)
    → any (λ (j : EmbeddingJob). j.id == id) (map f jobs)
      ≡ any (λ (j : EmbeddingJob). j.id == id) jobs
any-map id f [] same = refl
any-map id f (j ∷ js) same = ground (arith, same j, any-map id f js same)

module _ (id token since : ℕ) where
  -- A row of the job is under the lease.
  abbrev pub IsLeased : EmbeddingJob → Type 0
  IsLeased j =
      (j.id ≢ id)
      ⊎ ((j.status ≡ running) × (j.lease_token ≡ some token) × (j.locked_at ≡ some since))

  abbrev pub Leased : Jobs → Type 0
  Leased q = All IsLeased q.jobs × (any (λ (j : EmbeddingJob). j.id == id) q.jobs ≡ true)

  -- No row of the job is due before the lease is over.
  not_due :
      (model now lease : ℕ) (scope : Option ℕ) (busy : List ℕ) (j : EmbeddingJob)
      → now ≤ since + lease
      → IsLeased j
      → is_due model now lease scope busy j ≡ true
      → j.id ≢ id
  not_due model now lease scope busy j before (inl other) due = other
  not_due model now lease scope busy j before (inr held) due = ground arith

  pub not_chosen :
      (model batch_size now lease : ℕ) (scope : Option ℕ) (busy : List ℕ) (jobs : List EmbeddingJob)
      → now ≤ since + lease
      → All IsLeased jobs
      → contains id (map job_id (chosen model batch_size now lease scope busy jobs)) ≡ false
  unfolding chosen
  not_chosen model batch_size now lease scope busy jobs before all = contains-map job_id id _ (
      All-take (λ j. j.id ≢ id) batch_size _
        (All-sort_by (λ j. j.id ≢ id) available _
          (All-sort_by (λ j. j.id ≢ id) created _
            (All-filter (λ j. j.id ≢ id) IsLeased (is_due model now lease scope busy) jobs
              (λ j held due. not_due model now lease scope busy j before held due) all))))

  claim-Leased :
      (model batch_size now lease : ℕ) (token' : ℕ → ℕ) (scope : Option ℕ) (busy : List ℕ)
      (q : Jobs)
      → now ≤ since + lease
      → Leased q
      → Leased (claim model token' batch_size now lease scope busy q).1
  unfolding claim
  claim-Leased model batch_size now lease token' scope busy q before (all, there) =
      let ids = map job_id (chosen model batch_size now lease scope busy q.jobs) in
      let absent = not_chosen model batch_size now lease scope busy q.jobs before all in
      (
        All-map IsLeased IsLeased (lease_row token' now ids) q.jobs
            (λ j held. kept j ids absent held) all,
        any-map id (lease_row token' now ids) q.jobs (λ j. same j ids) ∙ there,
      )
    where
      kept :
          (j : EmbeddingJob) (ids : List ℕ)
          → contains id ids ≡ false
          → IsLeased j
          → IsLeased (lease_row token' now ids j)
      kept j ids absent (inl other) = elim (Bool-cases (contains j.id ids)) [
        | inl e ↦ rw e (inl other)
        | inr e ↦ rw e (inl other)
      ]
      kept j ids absent (inr held) = elim (Bool-cases (contains j.id ids)) [
        | inl e ↦ rw e (inl (λ same_id. cc))
        | inr e ↦ rw e (inr held)
      ]

      same : (j : EmbeddingJob) (ids : List ℕ) → (lease_row token' now ids j).id ≡ j.id
      same j ids = ground arith

  insert-Leased :
      (model now : ℕ) (new_id : ℕ → ℕ) (rows : List FactVersion) (jobs : List EmbeddingJob)
      → ((v : ℕ) → new_id v ≢ id)
      → All IsLeased jobs
      → any (λ (j : EmbeddingJob). j.id == id) jobs ≡ true
      → All IsLeased (insert_jobs model (map (pending_job model new_id now) rows) jobs).1
        × (any
              (λ (j : EmbeddingJob). j.id == id)
              (insert_jobs model (map (pending_job model new_id now) rows) jobs).1
            ≡ true)
  unfolding insert_jobs
  insert-Leased model now new_id [] jobs fresh all there = (all, there)
  insert-Leased model now new_id (v ∷ vs) jobs fresh all there =
      let row = pending_job model new_id now v in
      let skipped = insert-Leased model now new_id vs jobs fresh all there in
      let inserted =
        insert-Leased model now new_id vs (row ∷ jobs) fresh (inl (fresh v.id), all)
          (ground (arith, fresh v.id)) in
      elim (Bool-cases (any (is_job_of model v.id) jobs)) [
        | inl taken ↦ rw taken skipped
        | inr free ↦ rw free inserted
      ]

  step-Leased : (s : Step) (q : Jobs) → Within id token since s → Leased q → Leased (step s q)
  unfolding step enqueue_missing save_embedding complete fail
  step-Leased (enqueues model new_id now limit scope versions) q fresh (all, there) =
      insert-Leased model now new_id _ q.jobs fresh all there
  step-Leased (claims model token' batch_size now lease scope busy) q before held =
      claim-Leased model batch_size now lease token' scope busy q before held
  step-Leased (saves model o version_id vector digest) q w held =
      elim (Bool-cases (any (is_embedding_of model version_id) q.embeddings)) [
        | inl e1 ↦ rw e1 held
        | inr e1 ↦ rw e1 held
      ]
  step-Leased (completes c) q other (all, there) = (
    All-map IsLeased IsLeased (complete_row c) q.jobs (λ j held. ground arith) all,
    any-map id (complete_row c) q.jobs (λ j. ground arith) ∙ there,
  )
  step-Leased (fails c error retry_in now) q other (all, there) = (
    All-map IsLeased IsLeased (fail_row c error retry_in now) q.jobs (λ j held. ground arith) all,
    any-map id (fail_row c error retry_in now) q.jobs (λ j. ground arith) ∙ there,
  )

  pub steps-Leased :
      (ss : List Step) (q : Jobs) → All (Within id token since) ss → Leased q → Leased (steps ss q)
  unfolding steps
  steps-Leased [] q all held = held
  steps-Leased (s ∷ ss) q (w, all) held = steps-Leased ss (step s q) all (step-Leased s q w held)

  pub Leased-holds :
      (c : ClaimedJob) (jobs : List EmbeddingJob)
      → c.job_id ≡ id
      → c.lease_token ≡ token
      → All IsLeased jobs
      → any (holds c) jobs ≡ any (λ (j : EmbeddingJob). j.id == id) jobs
  Leased-holds c [] same same_token all = refl
  Leased-holds c (j ∷ js) same same_token (inl other, all) =
      ground (arith, Leased-holds c js same same_token all)
  Leased-holds c (j ∷ js) same same_token (inr held, all) =
      ground (arith, Leased-holds c js same same_token all)
