-- ===== src/EvidenceLinks.antt =====
-- `link_evidence` of backend/app/services/evidence.py, with the queries of
-- backend/app/repositories/evidence.py and `FactRepository.get_version`.
pub mod Kept
mod Tests
use context_ledger.Base.{
  ℕ, ◌+◌, Bool, true, false, not, ◌&&◌, Option, none, some, List, [], ◌∷◌, find?, any, contains,
  ◌==◌, if◌then◌else◌,
}
use context_ledger.Errors.{Result, ok, err, not_found, conflict, raise_if, ◌>>=◌, ◌>>◌}
use context_ledger.Roles.{TenantContext}
use context_ledger.Versions.{FactVersion}
use context_ledger.Db.{Db, Evidence, EvidenceRelation, supports, contradicts, FactVersionEvidence}

-- `list(dict.fromkeys(ids))`: the first occurrence of each, in order.
unfoldable pub unique_from : List ℕ → List ℕ → List ℕ
unique_from seen [] = []
unique_from seen (i ∷ ids) =
    let kept = unique_from (i ∷ seen) ids in
    let skipped = unique_from seen ids in if contains i seen then skipped else i ∷ kept

abbrev pub same_relation : EvidenceRelation → EvidenceRelation → Bool
same_relation supports supports = true
same_relation contradicts contradicts = true
same_relation _ _ = false

-- `FactRepository.get_version`
unfoldable pub get_version : Db → ℕ → ℕ → Option FactVersion
get_version db organization_id version_id =
    find? (λ (v : FactVersion). v.organization_id == organization_id && v.id == version_id)
      db.versions

-- Whether `EvidenceRepository.get_many` returns a row with the id.
unfoldable pub has_evidence : Db → ℕ → ℕ → Bool
has_evidence db organization_id evidence_id =
    any (λ (e : Evidence). e.organization_id == organization_id && e.id == evidence_id) db.evidence

abbrev pub is_link : ℕ → ℕ → ℕ → FactVersionEvidence → Bool
is_link organization_id version_id evidence_id l =
    l.organization_id == organization_id
    && l.fact_version_id == version_id
    && l.evidence_id == evidence_id

unfoldable pub get_link : List FactVersionEvidence → ℕ → ℕ → ℕ → Option FactVersionEvidence
get_link links organization_id version_id evidence_id =
    find? (is_link organization_id version_id evidence_id) links

-- `EvidenceRepository.link`: insert, unless the version has a link to the evidence already.
unfoldable pub insert_link :
    List FactVersionEvidence → FactVersionEvidence → Bool × List FactVersionEvidence
insert_link links row =
    if any
      (λ (l : FactVersionEvidence).
        l.fact_version_id == row.fact_version_id && l.evidence_id == row.evidence_id)
      links
    then (false, links)
    else (true, row ∷ links)

-- One round of the loop: what an existing link means for a new one.
abbrev pub link_one :
    TenantContext
    → ℕ
    → EvidenceRelation
    → ℕ
    → List FactVersionEvidence
    → Result (ℕ × List FactVersionEvidence)
link_one ctx version_id relation i links = elim (get_link links ctx.organization_id version_id i) [
  | some existing ↦ if same_relation existing.relation relation then ok (0, links) else err conflict
  | none ↦
      let (inserted, links') = insert_link links (record {
        organization_id = ctx.organization_id;
        fact_version_id = version_id;
        evidence_id = i;
        relation = relation;
        linked_by_user_id = ctx.user_id;
      }) in
      ok (if inserted then 1 else 0, links')
]

unfoldable pub link_each :
    TenantContext
    → ℕ
    → EvidenceRelation
    → List ℕ
    → List FactVersionEvidence
    → Result (ℕ × List FactVersionEvidence)
link_each ctx version_id relation [] links = ok (0, links)
link_each ctx version_id relation (i ∷ ids) links = do
  (created, links1) ← link_one ctx version_id relation i links
  (more, links2) ← link_each ctx version_id relation ids links1
  ok (created + more, links2)

abbrev pub is_none {ℓ} : {A : Type ℓ} → Option A → Bool
is_none none = true
is_none (some a) = false

-- The part of the function behind its early return.
unfoldable pub link_unique : Db → TenantContext → ℕ → List ℕ → EvidenceRelation → Result (ℕ × Db)
link_unique db ctx version_id ids relation = do
  raise_if (is_none (get_version db ctx.organization_id version_id)) not_found
  raise_if (any (λ i. not (has_evidence db ctx.organization_id i)) ids) not_found
  (created, links) ← link_each ctx version_id relation ids db.links
  ok (created, record db { links = links })

-- The early return: nothing to link.
unfoldable pub link_some : Db → TenantContext → ℕ → List ℕ → EvidenceRelation → Result (ℕ × Db)
link_some db ctx version_id [] relation = ok (0, db)
link_some db ctx version_id (i ∷ ids) relation = link_unique db ctx version_id (i ∷ ids) relation

unfoldable pub link_evidence : Db → TenantContext → ℕ → List ℕ → EvidenceRelation → Result (ℕ × Db)
link_evidence db ctx version_id evidence_ids relation =
    link_some db ctx version_id (unique_from [] evidence_ids) relation
