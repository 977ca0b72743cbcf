-- ===== src/Recording/Tables.antt =====
-- The tables that recording a version leaves alone (backend/app/services/facts.py).
use Prim.Native.String.{String}
use context_ledger.Authority.{validate_authority}
use context_ledger.Base.{ℕ, ◌≡◌, ◌≢◌, ap, ◌∙◌, ◌&&◌, Option, List, find?, ◌==◌, arith}
use context_ledger.Errors.{ok, or_raise, not_found, >>=-elim}
use context_ledger.Roles.{TenantContext, write_facts}
use context_ledger.Facts.{ValidityWindow, make_window, require_aware}
use context_ledger.Versions.{FactVersion}
use context_ledger.Db.{Db, Entity, Fact, EvidenceRelation, supports}
use context_ledger.Authorization.{require_permission}
use context_ledger.EvidenceLinks.{link_evidence}
use context_ledger.EvidenceLinks.Kept.{link_evidence-Added}
use context_ledger.Recording.{
  Command, Supply, get_source, get_or_create_entity, get_or_create_fact, append_version,
  observed_or, authority_or, record_version,
}

abbrev pub entity_by : ℕ → ℕ → Db → Option Entity
entity_by o i db = find? (λ (e : Entity). e.organization_id == o && e.id == i) db.entities

abbrev pub fact_by : ℕ → ℕ → Db → Option Fact
fact_by o i db = find? (λ (f : Fact). f.organization_id == o && f.id == i) db.facts

-- Tables that are the same, and rows that are found as before under ids other than the new ones.
pub record Kept (entity_id fact_id : ℕ) (db db' : Db) : Type 0 where
  pub users : db'.users ≡ db.users
  pub memberships : db'.memberships ≡ db.memberships
  pub sources : db'.sources ≡ db.sources
  pub revocations : db'.revocations ≡ db.revocations
  pub decisions : db'.decisions ≡ db.decisions
  pub snapshots : db'.snapshots ≡ db.snapshots
  pub snapshot_facts : db'.snapshot_facts ≡ db.snapshot_facts
  pub decision_facts : db'.decision_facts ≡ db.decision_facts
  pub entities : (o i : ℕ) → i ≢ entity_id → entity_by o i db' ≡ entity_by o i db
  pub facts : (o i : ℕ) → i ≢ fact_id → fact_by o i db' ≡ fact_by o i db

Kept-trans :
    (entity_id fact_id : ℕ) (a b c : Db)
    → Kept entity_id fact_id a b
    → Kept entity_id fact_id b c
    → Kept entity_id fact_id a c
Kept-trans entity_id fact_id a b c f g = record {
  users = g.users ∙ f.users;
  memberships = g.memberships ∙ f.memberships;
  sources = g.sources ∙ f.sources;
  revocations = g.revocations ∙ f.revocations;
  decisions = g.decisions ∙ f.decisions;
  snapshots = g.snapshots ∙ f.snapshots;
  snapshot_facts = g.snapshot_facts ∙ f.snapshot_facts;
  decision_facts = g.decision_facts ∙ f.decision_facts;
  entities = λ o i h. g.entities o i h ∙ f.entities o i h;
  facts = λ o i h. g.facts o i h ∙ f.facts o i h;
}

entity-Kept :
    (db : Db) (i o fact_id : ℕ) (t x : String)
    → Kept i fact_id db (get_or_create_entity db i o t x).1
unfolding get_or_create_entity
entity-Kept db i o fact_id t x = record {
  users = ground arith;
  memberships = ground arith;
  sources = ground arith;
  revocations = ground arith;
  decisions = ground arith;
  snapshots = ground arith;
  snapshot_facts = ground arith;
  decision_facts = ground arith;
  entities = λ o' i' h. ground arith;
  facts = λ o' i' h. ground arith;
}

fact-Kept :
    (db : Db) (i o e entity_id : ℕ) (p : String)
    → Kept entity_id i db (get_or_create_fact db i o e p).1
unfolding get_or_create_fact
fact-Kept db i o e entity_id p = record {
  users = ground arith;
  memberships = ground arith;
  sources = ground arith;
  revocations = ground arith;
  decisions = ground arith;
  snapshots = ground arith;
  snapshot_facts = ground arith;
  decision_facts = ground arith;
  entities = λ o' i' h. ground arith;
  facts = λ o' i' h. ground arith;
}

append-Kept :
    (db db' : Db) (ctx : TenantContext) (s : Supply) (c : Command) (w : ValidityWindow) (obs a : ℕ)
    (e : Entity) (f : Fact) (row : FactVersion)
    → append_version db ctx s c w obs a e f ≡ ok (row, db')
    → Kept s.entity_id s.fact_id db db'
unfolding append_version
append-Kept db db' ctx s c w obs a e f row h =
    let entities_same : db'.entities ≡ db.entities = ground arith in
    let facts_same : db'.facts ≡ db.facts = ground arith in
    record {
      users = ground arith;
      memberships = ground arith;
      sources = ground arith;
      revocations = ground arith;
      decisions = ground arith;
      snapshots = ground arith;
      snapshot_facts = ground arith;
      decision_facts = ground arith;
      entities = λ o' i' k.
          ap (find? (λ (x : Entity). x.organization_id == o' && x.id == i')) entities_same;
      facts =
          λ o' i' k. ap (find? (λ (x : Fact). x.organization_id == o' && x.id == i')) facts_same;
    }

link-Kept :
    (entity_id fact_id : ℕ) (db db' : Db) (ctx : TenantContext) (v n : ℕ) (ids : List ℕ)
    (r : EvidenceRelation)
    → link_evidence db ctx v ids r ≡ ok (n, db')
    → Kept entity_id fact_id db db'
link-Kept entity_id fact_id db db' ctx v n ids r h =
    let (added, e) = link_evidence-Added db db' ctx v n ids r h in
    record {
      users = ap (λ (x : Db). x.users) e;
      memberships = ap (λ (x : Db). x.memberships) e;
      sources = ap (λ (x : Db). x.sources) e;
      revocations = ap (λ (x : Db). x.revocations) e;
      decisions = ap (λ (x : Db). x.decisions) e;
      snapshots = ap (λ (x : Db). x.snapshots) e;
      snapshot_facts = ap (λ (x : Db). x.snapshot_facts) e;
      decision_facts = ap (λ (x : Db). x.decision_facts) e;
      entities = λ o i k. ap (entity_by o i) e;
      facts = λ o i k. ap (fact_by o i) e;
    }

pub record_version-Kept :
    (db db' : Db) (ctx : TenantContext) (s : Supply) (c : Command) (row : FactVersion)
    → record_version db ctx s c ≡ ok (row, db')
    → Kept s.entity_id s.fact_id db db'
unfolding record_version
record_version-Kept db db' ctx s c row h0 =
    >>=-elim (make_window c.valid_from c.valid_until) _ h0 λ w ew h1.
      >>=-elim (require_aware (observed_or c.observed_at c.valid_from)) _ h1 λ obs eo h2.
        >>=-elim (require_permission db ctx write_facts) _ h2 λ role er h3.
          >>=-elim (or_raise (get_source db ctx.organization_id c.source_id) not_found) _ h3
            λ source es h4.
              >>=-elim (validate_authority (authority_or c.authority source.default_authority)) _ h4
                λ a ea h5.
                  let (entity, db1) =
                    get_or_create_entity db s.entity_id ctx.organization_id c.entity_type
                      c.external_id in
                  let (fact, db2) =
                    get_or_create_fact db1 s.fact_id ctx.organization_id entity.id c.property in
                  >>=-elim (append_version db2 ctx s c w obs a entity fact) _ h5
                    λ (row', db3) ev h6.
                      >>=-elim (link_evidence db3 ctx row'.id c.evidence_ids supports) _ h6
                        λ (n, db4) el h7.
                          let same_db : db4 ≡ db' = ground arith in
                          let first =
                            Kept-trans s.entity_id s.fact_id db db1 db2
                              (entity-Kept db s.entity_id ctx.organization_id s.fact_id
                                c.entity_type c.external_id)
                              (fact-Kept db1 s.fact_id ctx.organization_id entity.id s.entity_id
                                c.property) in
                          let second =
                            Kept-trans s.entity_id s.fact_id db2 db3 db4
                              (append-Kept db2 db3 ctx s c w obs a entity fact row' ev)
                              (link-Kept s.entity_id s.fact_id db3 db4 ctx row'.id n c.evidence_ids
                                supports el) in
                          rw same_db at (Kept-trans s.entity_id s.fact_id db db2 db4 first second)
