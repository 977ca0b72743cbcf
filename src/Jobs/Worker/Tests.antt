-- ===== src/Jobs/Worker/Tests.antt =====
-- A batch of two jobs with different texts (backend/app/workers/embeddings.py).
use Prim.Native.String.{String}
use context_ledger.Base.{ℕ, ◌+◌, ◌*◌, ◌≡◌, refl, none, some, List, [], ◌∷◌, map, length, All, arith}
use context_ledger.Privacy.{internal}
use context_ledger.Versions.{FactVersion}
use context_ledger.Db.{Db}
use context_ledger.Recording.{get_fact}
use context_ledger.Jobs.{Jobs, ClaimedJob}
use context_ledger.Jobs.Worker.{
  Worker, WorkerStats, done, broken, Provider, chunks, to_embed, embed_all, document_of, hash_of,
  hashes, process_texts, process,
}
use context_ledger.Jobs.Worker.Written.{IsEnded, HasDocument, process-total}

abbrev worker : Worker
worker = record {
  model = 4;
  batch_size = 16;
  max_attempts = 3;
  lease = 600;
  retry_base = 30;
  retry_cap = 3600;
  to_microseconds = λ seconds. 1_000_000 * seconds;
  scope = none;
  max_batch_size = 1;
}

abbrev version : ℕ → FactVersion
version id = record {
  id = id;
  organization_id = 1;
  fact_id = 40;
  version = 1;
  value = id + 5;
  source_id = 20;
  valid_from = 900;
  valid_until = none;
  observed_at = 1200;
  recorded_at = 1210;
  valid_until_recorded_at = none;
  supersedes_id = none;
  authority = 50;
  confidence = 1000;
  privacy_scope = internal;
}

abbrev db : Db
db = record {
  users = [];
  organizations = [];
  memberships = [];
  sources = [];
  entities =
      record { id = 30; organization_id = 1; entity_type = "customer"; external_id = "c-1" } ∷ [];
  facts = record { id = 40; organization_id = 1; entity_id = 30; property = "status" } ∷ [];
  versions = version 107 ∷ version 108 ∷ [];
  evidence = [];
  links = [];
  contradictions = [];
  revocations = [];
  decisions = [];
  snapshots = [];
  snapshot_facts = [];
  decision_facts = [];
  impacts = [];
}

-- The hash of a text: here, its value.
abbrev text : String → String → String → ℕ → ℕ
text entity_type external_id property value = value

abbrev provider : Provider
provider texts = done (map (λ d. d * 2) texts, length texts)

abbrev batch : List ClaimedJob
batch =
    record {
      job_id = 7;
      organization_id = 1;
      fact_version_id = 107;
      lease_token = 1007;
      attempts = 1;
    }
    ∷ record {
      job_id = 8;
      organization_id = 1;
      fact_version_id = 108;
      lease_token = 1008;
      attempts = 1;
    }
    ∷ []

abbrev empty : Jobs
empty = record { jobs = []; embeddings = [] }

all_found : All (HasDocument text worker db) batch
unfolding hash_of document_of get_fact
all_found = (refl, (refl, tt))

same_length : (texts : List ℕ) → length (map (λ d. d * 2) texts) ≡ length texts
same_length [] = refl
same_length (t ∷ ts) = omega (arith, same_length ts)

process-total_example :
    (r : WorkerStats × Jobs) × (process worker text db provider 9 700 batch empty empty ≡ some r)
    × IsEnded worker (hashes worker text db) provider 9 700 batch empty empty r
process-total_example =
    process-total worker text db provider 9 700 batch empty empty (omega arith) all_found
      same_length

-- A job whose version is not there, and an exception of another class, leave the worker.
missing_document :
    process worker text (record db { versions = [] }) provider 9 700 batch empty empty ≡ none
unfolding process hash_of
missing_document = refl

other_exception : process worker text db (λ texts. broken) 9 700 batch empty empty ≡ none
unfolding process process_texts hash_of document_of get_fact to_embed chunks embed_all
    context_ledger.EvidenceLinks.unique_from context_ledger.Jobs.cached_vector
other_exception = refl
