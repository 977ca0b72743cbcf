-- ===== src/Queries.antt =====
-- The other answers of `TemporalService`, backend/app/services/temporal.py, with the queries of
-- backend/app/repositories/temporal.py (`history` is in Recording). Names are taken normalised.
-- `rank` and `collation` stand for the order of strings in Python and in the database.
pub mod Split
mod Tests
use Prim.Native.String.{String}
use text.Mathlib.Text.{◌==◌ as str_eq}
use context_ledger.Base.{
  ℕ, Bool, true, false, ◌&&◌, Option, none, some, List, [], ◌∷◌, ◌++◌, map, filter, find?, ◌==◌,
  leb, ltb, if◌then◌else◌,
}
use context_ledger.Base.Sort.{sort_by, max_by}
use context_ledger.Errors.{
  Result, ok, raise_if, or_raise, not_found, validation_failed, invariant_violation, ◌>>=◌, ◌>>◌,
}
use context_ledger.Roles.{TenantContext, read_facts}
use context_ledger.Facts.{Stamp, aware, require_aware, require_aware_opt}
use context_ledger.Versions.{FactVersion, VersionSnapshot, to_snapshot}
use context_ledger.Db.{Db, Entity, Fact, FactRevocation}
use context_ledger.Authorization.{require_permission}
use context_ledger.Temporal.{Change, as_known, valid_at_condition, change_between}
use context_ledger.EvidenceLinks.{get_version}
use context_ledger.Recording.{list_versions, row_version}

pub record ResolvedFact : Type 0 where
  pub fact_id : ℕ
  pub entity_id : ℕ
  pub entity_type : String
  pub external_id : String
  pub property : String
  pub version : VersionSnapshot

pub record FactChange : Type 0 where
  pub fact_id : ℕ
  pub property : String
  pub before : Option VersionSnapshot
  pub after : Option VersionSnapshot
  pub transitions : List VersionSnapshot

pub record Lineage : Type 0 where
  pub version : VersionSnapshot
  pub ancestors : List VersionSnapshot
  pub descendants : List VersionSnapshot

pub record TimelineEntry : Type 0 where
  pub property : String
  pub version : VersionSnapshot

-- `TemporalRepository.get_entity`
unfoldable pub entity_named : Db → ℕ → String → String → Option Entity
entity_named db o entity_type external_id =
    find?
      (λ (e : Entity).
        e.organization_id == o
        && str_eq e.entity_type entity_type
        && str_eq e.external_id external_id)
      db.entities

abbrev pub facts_of : Db → ℕ → ℕ → List Fact
facts_of db o entity_id =
    filter (λ (f : Fact). f.organization_id == o && f.entity_id == entity_id) db.facts

abbrev pub fact_id_of : Fact → ℕ
fact_id_of f = f.id

abbrev pub revocation_times : Db → FactVersion → List ℕ
revocation_times db v =
    map (λ (r : FactRevocation). r.revoked_at)
      (filter
        (λ (r : FactRevocation).
          r.organization_id == v.organization_id && r.fact_version_id == v.id)
        db.revocations)

-- The rows of one fact that the condition selects.
abbrev pub rows_valid_at : Db → ℕ → ℕ → Option ℕ → Fact → List FactVersion
rows_valid_at db o valid_at known_at f =
    filter
      (λ (v : FactVersion).
        v.organization_id == o
        && v.fact_id == f.id
        && valid_at_condition (revocation_times db v) v valid_at known_at)
      db.versions

abbrev pub keep_best :
    Option FactVersion → String → List (FactVersion × String) → List (FactVersion × String)
keep_best none property rows = rows
keep_best (some v) property rows = (v, property) ∷ rows

-- `DISTINCT ON (fact_id) … ORDER BY fact_id, version DESC`: of each fact, the greatest version.
unfoldable pub best_of : Db → ℕ → ℕ → Option ℕ → List Fact → List (FactVersion × String)
best_of db o valid_at known_at [] = []
best_of db o valid_at known_at (f ∷ fs) =
    keep_best (max_by row_version (rows_valid_at db o valid_at known_at f)) f.property
      (best_of db o valid_at known_at fs)

unfoldable pub facts_valid_at : Db → ℕ → ℕ → ℕ → Option ℕ → List (FactVersion × String)
facts_valid_at db o entity_id valid_at known_at =
    best_of db o valid_at known_at (sort_by fact_id_of (facts_of db o entity_id))

abbrev pub resolved_fact : Entity → Option ℕ → FactVersion × String → ResolvedFact
resolved_fact entity known_at (v, property) = record {
  fact_id = v.fact_id;
  entity_id = entity.id;
  entity_type = entity.entity_type;
  external_id = entity.external_id;
  property = property;
  version = as_known (to_snapshot v) known_at;
}

-- `valid_at or self._clock()`
abbrev pub instant_or : Option Stamp → ℕ → Stamp
instant_or none clock = aware clock
instant_or (some s) clock = s

-- The versions of one fact that were recorded by then.
abbrev pub recorded_rows : Db → ℕ → Option ℕ → Fact → List (FactVersion × String)
recorded_rows db o none f = map (λ v. (v, f.property)) (list_versions o f.id db.versions)
recorded_rows db o (some k) f =
    map (λ v. (v, f.property))
      (filter (λ (v : FactVersion). leb v.recorded_at k) (list_versions o f.id db.versions))

unfoldable pub all_rows : Db → ℕ → Option ℕ → List Fact → List (FactVersion × String)
all_rows db o known_at [] = []
all_rows db o known_at (f ∷ fs) = recorded_rows db o known_at f ++ all_rows db o known_at fs

abbrev pub timeline_entry : Option ℕ → FactVersion × String → TimelineEntry
timeline_entry known_at (v, property) = record {
  property = property;
  version = as_known (to_snapshot v) known_at;
}

abbrev pub is_version_id : ℕ → VersionSnapshot → Bool
is_version_id version_id v = v.id == version_id

-- `next(…)` raises if there is none.
unfoldable pub split_chain : ℕ → List VersionSnapshot → Result Lineage
split_chain version_id chain = do
  current ← or_raise (find? (is_version_id version_id) chain) invariant_violation
  ok (record {
    version = current;
    ancestors = filter (λ (v : VersionSnapshot). ltb v.version current.version) chain;
    descendants = filter (λ (v : VersionSnapshot). ltb current.version v.version) chain;
  })

unfoldable pub lineage : Db → TenantContext → ℕ → Result Lineage
lineage db ctx version_id = do
  let o = ctx.organization_id
  role ← require_permission db ctx read_facts
  target ← or_raise (get_version db o version_id) not_found
  split_chain version_id (map to_snapshot (list_versions o target.fact_id db.versions))

module _ (rank collation : String → ℕ) where
  abbrev pub by_property : ResolvedFact → ℕ
  by_property r = rank r.property

  unfoldable pub facts_at :
      Db
      → TenantContext
      → ℕ
      → String
      → String
      → Option Stamp
      → Option Stamp
      → Result (List ResolvedFact)
  facts_at db ctx clock entity_type external_id valid_at known_at = do
    let o = ctx.organization_id
    instant ← require_aware (instant_or valid_at clock)
    k ← require_aware_opt known_at
    role ← require_permission db ctx read_facts
    entity ← or_raise (entity_named db o entity_type external_id) not_found
    ok (
        sort_by by_property
          (map (resolved_fact entity k) (facts_valid_at db o entity.id instant k)))

  abbrev pub fact_rank : Fact → ℕ
  fact_rank f = collation f.property

  -- A fact has one property, so its versions stay together, in order.
  unfoldable pub entity_versions : Db → ℕ → ℕ → Option ℕ → List (FactVersion × String)
  entity_versions db o entity_id known_at =
      all_rows db o known_at (sort_by fact_rank (facts_of db o entity_id))

  abbrev pub entry_version : TimelineEntry → ℕ
  entry_version e = e.version.version

  abbrev pub entry_rank : TimelineEntry → ℕ
  entry_rank e = rank e.property

  abbrev pub entry_start : TimelineEntry → ℕ
  entry_start e = e.version.valid_from

  -- Sorted by start, property and number: stable sorts, the last key first.
  unfoldable pub entity_timeline :
      Db → TenantContext → String → String → Option Stamp → Result (List TimelineEntry)
  entity_timeline db ctx entity_type external_id known_at = do
    let o = ctx.organization_id
    k ← require_aware_opt known_at
    role ← require_permission db ctx read_facts
    entity ← or_raise (entity_named db o entity_type external_id) not_found
    ok (
        sort_by entry_start (
          sort_by entry_rank
            (sort_by entry_version (map (timeline_entry k) (entity_versions db o entity.id k)))))

  abbrev pub row_snapshot : FactVersion × String → VersionSnapshot
  row_snapshot (v, property) = to_snapshot v

  -- A fact without rows is no key of the dictionary.
  abbrev pub change_of :
      Stamp → Stamp → Option Stamp → List (FactVersion × String) → Result (Option Change)
  change_of start end known_at [] = ok none
  change_of start end known_at (row ∷ rows) =
      change_between (map row_snapshot (row ∷ rows)) start end known_at

  abbrev pub keep_change : Fact → Option Change → List FactChange → List FactChange
  keep_change f none rest = rest
  keep_change f (some (before, after, transitions)) rest =
      record {
        fact_id = f.id;
        property = f.property;
        before = before;
        after = after;
        transitions = transitions;
      }
      ∷ rest

  unfoldable pub changes_of :
      Db → ℕ → Stamp → Stamp → Option Stamp → Option ℕ → List Fact → Result (List FactChange)
  changes_of db o start end known_at k [] = ok []
  changes_of db o start end known_at k (f ∷ fs) = do
    change ← change_of start end known_at (recorded_rows db o k f)
    rest ← changes_of db o start end known_at k fs
    ok (keep_change f change rest)

  abbrev pub change_rank : FactChange → ℕ
  change_rank c = rank c.property

  unfoldable pub changes_between :
      Db → TenantContext → String → String → Stamp → Stamp → Option Stamp → Result (List FactChange)
  changes_between db ctx entity_type external_id start end known_at = do
    let o = ctx.organization_id
    s ← require_aware start
    e ← require_aware end
    raise_if (leb e s) validation_failed
    k ← require_aware_opt known_at
    role ← require_permission db ctx read_facts
    entity ← or_raise (entity_named db o entity_type external_id) not_found
    changes ← changes_of db o start end known_at k (sort_by fact_rank (facts_of db o entity.id))
    ok (sort_by change_rank changes)
