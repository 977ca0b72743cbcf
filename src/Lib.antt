-- ===== src/Lib.antt =====
-- ContextLedger keeps versions of facts for many organizations. A version is appended, never edited;
-- it has a validity window, the time the database learned it, and the time it learned the window's
-- end, so that the ledger can answer what was true at T as it was known at K. Every operation runs
-- in one transaction on PostgreSQL. A model operation is a function from the database (a record of
-- lists of rows) to an error or a result with the database after it: a transaction that fails leaves
-- the database as it was. Instants are numbers of microseconds; identifiers, JSON values and
-- confidences (in thousandths) are numbers that are compared only; new identifiers and the clock of
-- the database are inputs.
--
-- Where a service locks a row (an organization for a change of members, a fact for a new version),
-- calls run one after another, and a sequence of calls is a list of requests. Loops over rows are
-- recursion on lists. The attempts of a consumer count down from `max_attempts`, as in the code.
-- The lists that a batch of texts is cut into are at most as many as its texts: that is the fuel of
-- `chunks`, and is proved to be enough. The loop of the relay's `drain` runs on fuel, one round more
-- than there are events being enough. Every other loop is recursion on a list.
--
-- Files, each with the code it is about:
--   Base            Boolean tests, list functions and sorting, with their lemmas
--   Errors          backend/app/domain/errors.py, with the result type of all operations
--   Privacy, Visibility  PrivacyScope of backend/app/domain/facts.py; the privacy rules of
--                   backend/app/domain/retrieval.py
--   Authority       validate_authority of backend/app/domain/validation.py
--   Roles           backend/app/domain/roles.py and backend/app/domain/tenancy.py
--   Facts           backend/app/domain/facts.py: windows, the plan of a new version
--   Versions, Db    the rows of backend/app/models
--   Temporal        backend/app/temporal/reference.py, the definitions of known and valid, and the SQL
--                   conditions of backend/app/repositories/temporal.py
--   Authorization   backend/app/services/authorization.py (require_permission)
--   Members         backend/app/services/memberships.py and backend/app/services/organizations.py
--   Contradictions  backend/app/domain/contradictions.py (value_conflict, preferred)
--   EvidenceLinks   link_evidence of backend/app/services/evidence.py
--   Recording       FactService.record_version of backend/app/services/facts.py with the queries of
--                   backend/app/repositories/facts.py, and TemporalService.history
--   Sources         the other operations of FactService: register_source, the reads
--   Revocations     backend/app/services/revocations.py
--   Resolution      backend/app/services/contradictions.py (get, resolve)
--   Consumer        backend/app/events/consumer.py, with claim of backend/app/repositories/events.py
--   Jobs            backend/app/repositories/embeddings.py (EmbeddingJobStore), with the backoff of
--                   backend/app/domain/embeddings.py; Jobs.Worker is backend/app/workers/embeddings.py
--   Queries         backend/app/services/temporal.py (facts_at, changes_between, lineage,
--                   entity_timeline) with the queries of backend/app/repositories/temporal.py
--   Receipts        backend/app/services/decisions.py (record_decision, receipt) with
--                   backend/app/repositories/decisions.py and backend/app/domain/decisions.py
--   Relay           backend/app/workers/event_relay.py, with EventOutboxRepository of
--                   backend/app/repositories/events.py, backend/app/events/messages.py and the topics
--                   of backend/app/events/schemas.py
--   Store           backend/app/cache/store.py (MemoryStore)
--   OauthState      backend/app/cache/oauth_state.py
--   RateLimit       backend/app/cache/rate_limit.py
--   Idempotency     backend/app/cache/idempotency.py
-- Children of a module hold the theorems about it, and Tests runs and instances at concrete data.
--
-- Recording uses Facts for the plan, Authorization for the caller's right, Contradictions for the
-- conflict that it stores, EvidenceLinks in the same transaction, and Temporal for what a reader sees
-- afterwards.
--
-- Receipts uses Temporal for a fact as it was known, Visibility for what a reader may see, and Recording
-- for what a later write does to the rows that a receipt joins.
--
-- RateLimit, Idempotency and OauthState are clients of Store; between two steps of one request the steps of
-- others may come, which are given as a list.
--
-- Not modelled: the HTTP and MCP layers, language models, metrics and tracing, migrations, the user
-- interface and deployment, which transport or measure and do not decide; token verification and the
-- ranking of retrieval, which no modelled operation calls. Texts are taken as their normalisation
-- leaves them, since that is regular expressions and Unicode of the Python library. The evidence that
-- a receipt lists beside a fact is left out of it, and the listing of members.
pub mod Base
pub mod Errors
pub mod Privacy
pub mod Roles
pub mod Facts
pub mod Versions
pub mod Temporal
pub mod Db
pub mod Authority
pub mod Authorization
pub mod Members
pub mod Visibility
pub mod Contradictions
pub mod EvidenceLinks
pub mod Recording
pub mod Revocations
pub mod Consumer
pub mod Resolution
pub mod Sources
pub mod Jobs
pub mod Queries
pub mod Receipts
pub mod Relay
pub mod Store
pub mod Idempotency
pub mod OauthState
pub mod RateLimit
