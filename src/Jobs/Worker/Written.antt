-- ===== src/Jobs/Worker/Written.antt =====
-- What a batch leaves (backend/app/workers/embeddings.py).
use Prim.Native.String.{String}
use context_ledger.Base.{
  sym, subst, ℕ, ◌+◌, ◌≤◌, ◌≡◌, ◌⊎◌, ◌∙◌, refl, true, false, some, List, [], ◌∷◌, map, filter, any,
  All, length, contains, ==_refl, arith, if◌then◌else◌, Bool-cases, Option-cases, inl, inr,
}
use context_ledger.Base.Every.{Member}
use context_ledger.EvidenceLinks.{is_none}
use context_ledger.Db.{Db}
use context_ledger.Jobs.{
  Jobs, ClaimedJob, FactEmbedding, is_embedding_of, save_embedding, complete, fail,
}
use context_ledger.Jobs.Worker.{
  Worker, WorkerStats, no_stats, Reply, done, refused, broken, Provider, hash_of, hashes,
  process_texts, chunks, embed_all, cached, to_embed, vector_for, write_all, record_failure,
  retry_in, process,
}
use context_ledger.Jobs.Worker.Total.{
  has_vector, Reply-cases, IsReply, embed_all-kept, embed_all-has_vector, contains-chunks,
  contains-unique_from, contains-wanted,
}

module _ (w : Worker) (digest : ClaimedJob → ℕ) where
  abbrev pub IsEmbedded : List FactEmbedding → ClaimedJob → Type 0
  IsEmbedded es c = any (is_embedding_of w.model c.fact_version_id) es ≡ true

  -- A vector is at hand for the text of a job.
  abbrev IsReady : Jobs → List (ℕ × ℕ) → ClaimedJob → Type 0
  IsReady before fresh c = is_none (vector_for w digest before fresh c) ≡ false

  -- What was embedded stays so.
  abbrev pub Kept : List FactEmbedding → List FactEmbedding → Type 0
  Kept es es' =
      (v : ℕ)
      → any (is_embedding_of w.model v) es ≡ true
      → any (is_embedding_of w.model v) es' ≡ true

  abbrev pub IsWritten : List ClaimedJob → Jobs → WorkerStats × Jobs → Type 0
  IsWritten jobs q (stats, q') =
      All (IsEmbedded q'.embeddings) jobs
      × (stats.succeeded + stats.lease_lost ≡ length jobs)
      × Kept q.embeddings q'.embeddings

  save-Kept :
      (o v vector d : ℕ) (q : Jobs)
      → (any (is_embedding_of w.model v) (save_embedding w.model o v vector d q).embeddings ≡ true)
        × Kept q.embeddings (save_embedding w.model o v vector d q).embeddings
  unfolding save_embedding
  save-Kept o v vector d q = elim (Bool-cases (any (is_embedding_of w.model v) q.embeddings)) [
    | inl there ↦ rw there (there, λ u h. h)
    | inr free ↦ rw free (ground (arith, ==_refl v, ==_refl w.model), λ u h. ground arith)
  ]

  write_all-Written :
      (before : Jobs) (fresh : List (ℕ × ℕ)) (jobs : List ClaimedJob) (q : Jobs)
      → All (IsReady before fresh) jobs
      → (r : WorkerStats × Jobs) × (write_all w digest before fresh jobs q ≡ some r)
        × IsWritten jobs q r
  unfolding write_all complete
  write_all-Written before fresh [] q ready = (_, refl, (tt, (ground arith), (λ v h. h)))
  write_all-Written before fresh (c ∷ cs) q (ready, all) =
      elim (Option-cases (vector_for w digest before fresh c)) [
        | inl missing ↦ absurd (ground arith)
        | inr (vector, found) ↦
            let saved =
              save_embedding w.model c.organization_id c.fact_version_id vector (digest c) q in
            let (there, kept) = save-Kept c.organization_id c.fact_version_id vector (digest c) q in
            let (r, e, (embedded, sum, kept')) =
              write_all-Written before fresh cs (complete c saved).1 all in
            (
              (
                record r.0 {
                  succeeded = (if (complete c saved).0 then 1 else 0) + r.0.succeeded;
                  lease_lost = (if (complete c saved).0 then 0 else 1) + r.0.lease_lost;
                  reused = (if is_none (cached w digest before c) then 0 else 1) + r.0.reused;
                },
                r.1,
              ),
              rw (found, write_all) (rw e refl),
              ((kept' c.fact_version_id there, embedded), ground arith, λ v h. kept' v (kept v h)),
            )
      ]

  record_failure-same :
      (error now : ℕ) (jobs : List ClaimedJob) (q : Jobs)
      → (record_failure w digest error now jobs q).1.embeddings ≡ q.embeddings
  unfolding record_failure fail
  record_failure-same error now [] q = refl
  record_failure-same error now (c ∷ cs) q =
      record_failure-same error now cs (fail c error (retry_in w digest c) now q)

  -- A text is at hand for every job, once all texts that are not cached are embedded.
  ready :
      (before : Jobs) (fresh : List (ℕ × ℕ)) (jobs : List ClaimedJob)
      → ((d : ℕ) → contains d (to_embed w digest before jobs) ≡ true → has_vector d fresh ≡ true)
      → (c : ClaimedJob) → Member c jobs
      → IsReady before fresh c
  unfolding to_embed vector_for
  ready before fresh jobs covers c m =
      let wanted =
        contains-unique_from (digest c) []
          (map digest (filter (λ i. is_none (cached w digest before i)) jobs)) in
      elim (Option-cases (cached w digest before c)) [
        | inl missing ↦
            let there =
              covers (digest c)
                (wanted (contains-wanted w digest before jobs c m (rw missing refl)) refl) in
            rw missing (ground (arith, there))
        | inr (v, found) ↦ rw found refl
      ]

  All-Member :
      (P : ClaimedJob → Type 0) (jobs : List ClaimedJob)
      → ((c : ClaimedJob) → Member c jobs → P c)
      → All P jobs
  All-Member P [] h = tt
  All-Member P (c ∷ cs) h = (h c (inl refl), All-Member P cs (λ d m. h d (inr m)))

module _ (w : Worker) (digest : ClaimedJob → ℕ) (provider : Provider) (error now : ℕ)
    (jobs : List ClaimedJob) (before q : Jobs) where
  -- What the provider gave for all texts of a batch.
  abbrev pub answer : Reply (List (ℕ × ℕ) × ℕ)
  answer =
      let texts = to_embed w digest before jobs in
      embed_all provider (chunks (length texts) w.max_batch_size texts)

  abbrev pub IsDone : Reply (List (ℕ × ℕ) × ℕ) → Type 0
  IsDone (done a) = Unit {0}
  IsDone refused = ⊥
  IsDone broken = ⊥

  -- The two ends of a batch: the provider raised its error on one of the lists of texts, no job is
  -- counted as succeeded, and no embedding changed; or it answered and the batch is written.
  abbrev pub IsEnded : WorkerStats × Jobs → Type 0
  IsEnded r =
      ((answer ≡ refused) × (r.0.succeeded ≡ 0) × (r.1.embeddings ≡ q.embeddings))
      ⊎ (IsDone answer × IsWritten w digest jobs q r)

  process_texts-IsEnded :
      1 ≤ w.max_batch_size
      → ((texts : List ℕ) → IsReply texts (provider texts))
      → (r : WorkerStats × Jobs) × (process_texts w digest provider error now jobs before q
          ≡ some r)
        × IsEnded r
  unfolding process_texts
  process_texts-IsEnded pos replies =
      let texts = to_embed w digest before jobs in
      let cs = chunks (length texts) w.max_batch_size texts in
      elim (Reply-cases (embed_all provider cs)) [
        | inr (inr raised) ↦ absurd (embed_all-kept provider cs replies raised)
        | inr (inl raised) ↦
            let (n, q') = record_failure w digest error now jobs q in
            (
              (record no_stats { failed = n }, q'),
              rw (raised, process_texts) refl,
              inl (raised, refl, record_failure-same w digest error now jobs q),
            )
        | inl ((fresh, tokens), e) ↦
            let covers : (d : ℕ) → contains d texts ≡ true → has_vector d fresh ≡ true = λ d h.
              embed_all-has_vector provider d cs fresh tokens e
              ∙ contains-chunks (length texts) w.max_batch_size d texts pos (omega arith)
              ∙ h in
            let (r, e', written) = write_all-Written w digest before fresh jobs q (
              All-Member w digest (IsReady w digest before fresh) jobs
                (ready w digest before fresh jobs covers)) in
            (
              (record r.0 { embedded = length texts; tokens = tokens }, r.1),
              rw (e, process_texts) (rw e' refl),
              inr (subst IsDone (sym e) tt, written),
            )
      ]

-- A job whose version is stored, with its fact and its entity.
abbrev pub HasDocument : (String → String → String → ℕ → ℕ) → Worker → Db → ClaimedJob → Type 0
HasDocument text w db c = is_none (hash_of w text db c) ≡ false

all_found :
    (text : String → String → String → ℕ → ℕ) (w : Worker) (db : Db) (jobs : List ClaimedJob)
    → All (HasDocument text w db) jobs
    → any (λ c. is_none (hash_of w text db c)) jobs ≡ false
all_found text w db [] all = refl
all_found text w db (c ∷ cs) (found, all) = ground (arith, all_found text w db cs all)

-- Suppose that every job of a batch has its document, and that the provider takes at least one text
-- at a time and answers each list with as many vectors or raises an `EmbeddingProviderError`. Then no
-- other exception leaves the batch. Either the provider raised on one of the lists of texts, no job is
-- counted as succeeded and no embedding changed; or it answered, every job of the batch has an
-- embedding of its version, each is counted as succeeded or as lost, and what was embedded before
-- still is.
pub process-total :
    (w : Worker) (text : String → String → String → ℕ → ℕ) (db : Db) (provider : Provider)
    (error now : ℕ) (jobs : List ClaimedJob) (before q : Jobs)
    → 1 ≤ w.max_batch_size
    → All (HasDocument text w db) jobs
    → ((texts : List ℕ) → IsReply texts (provider texts))
    → (r : WorkerStats × Jobs) × (process w text db provider error now jobs before q ≡ some r)
      × IsEnded w (hashes w text db) provider error now jobs before q r
unfolding process
process-total w text db provider error now jobs before q pos all replies =
    let (r, e, ended) =
      process_texts-IsEnded w (hashes w text db) provider error now jobs before q pos replies in
    (r, rw (all_found text w db jobs all) e, ended)
