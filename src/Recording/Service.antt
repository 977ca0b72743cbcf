-- ===== src/Recording/Service.antt =====
-- `FactService.record_version` as a whole: its parts, and the table that it leaves.
use Prim.Native.String.{String}
use context_ledger.Authority.{validate_authority}
use context_ledger.Base.{ℕ, ◌≡◌, ◌∙◌, Bool, true, false, Option, none, some, List, [], ◌∷◌, arith}
use context_ledger.Errors.{ok, >>=-elim, or_raise, not_found}
use context_ledger.Roles.{TenantContext, write_facts}
use context_ledger.Facts.{
  Stamp, ValidityWindow, make_window, check_end, require_aware, require_aware_opt,
}
use context_ledger.Versions.{FactVersion}
use context_ledger.Db.{Db, Entity, Fact, EvidenceRelation, supports}
use context_ledger.Authorization.{require_permission}
use context_ledger.EvidenceLinks.{link_unique, link_some, link_evidence, unique_from}
use context_ledger.Recording.{
  Command, Supply, get_source, authority_or, observed_or, get_or_create_entity, get_or_create_fact,
  get_fact, append_version, record_version,
}
use context_ledger.Recording.Rows.{IsTable, IsWindow}
use context_ledger.Recording.Keeps.{IsFresh, append-IsTable}

make_window-IsWindow :
    (from : Stamp) (until : Option Stamp) (w : ValidityWindow)
    → make_window from until ≡ ok w
    → IsWindow w
unfolding make_window check_end require_aware require_aware_opt
make_window-IsWindow from until w h = ground arith

abbrev pub is_found {ℓ} : {A : Type ℓ} → Option A → Bool
is_found none = false
is_found (some a) = true

-- A fact that is found stays found.
abbrev StillFound : Db → Db → Type 0
StillFound db db' =
    (o i : ℕ) → is_found (get_fact db o i) ≡ true → is_found (get_fact db' o i) ≡ true

-- What recording leaves alone beside the versions.
pub record Frame (db db' : Db) : Type 0 where
  pub users : db'.users ≡ db.users
  pub memberships : db'.memberships ≡ db.memberships
  pub found : StillFound db db'

Frame-trans : (a b c : Db) → Frame a b → Frame b c → Frame a c
Frame-trans a b c f g = record {
  users = g.users ∙ f.users;
  memberships = g.memberships ∙ f.memberships;
  found = λ o i h. g.found o i (f.found o i h);
}

entity-Frame :
    (db : Db) (i o : ℕ) (t x : String)
    → let db' = (get_or_create_entity db i o t x).1 in
      Frame db db' × (db'.versions ≡ db.versions) × (db'.contradictions ≡ db.contradictions)
unfolding get_or_create_entity get_fact
entity-Frame db i o t x = (
  record { users = ground arith; memberships = ground arith; found = λ o' i' h. ground arith },
  ground arith,
  ground arith,
)

fact-Frame :
    (db : Db) (i o e : ℕ) (p : String)
    → let db' = (get_or_create_fact db i o e p).1 in
      Frame db db' × (db'.versions ≡ db.versions) × (db'.contradictions ≡ db.contradictions)
unfolding get_or_create_fact get_fact
fact-Frame db i o e p = (
  record { users = ground arith; memberships = ground arith; found = λ o' i' h. ground arith },
  ground arith,
  ground arith,
)

append-Frame :
    (db db' : Db) (ctx : TenantContext) (s : Supply) (c : Command) (w : ValidityWindow) (obs a : ℕ)
    (e : Entity) (f : Fact) (row : FactVersion)
    → append_version db ctx s c w obs a e f ≡ ok (row, db')
    → Frame db db'
unfolding append_version get_fact
append-Frame db db' ctx s c w obs a e f row h = record {
  users = ground arith;
  memberships = ground arith;
  found = λ o' i' k. ground arith;
}

link_unique-Frame :
    (db db' : Db) (ctx : TenantContext) (v n : ℕ) (ids : List ℕ) (r : EvidenceRelation)
    → link_unique db ctx v ids r ≡ ok (n, db')
    → Frame db db' × (db'.versions ≡ db.versions) × (db'.contradictions ≡ db.contradictions)
unfolding link_unique get_fact
link_unique-Frame db db' ctx v n ids r h = (
  record { users = ground arith; memberships = ground arith; found = λ o' i' k. ground arith },
  ground arith,
  ground arith,
)

link_some-Frame :
    (db db' : Db) (ctx : TenantContext) (v n : ℕ) (ids : List ℕ) (r : EvidenceRelation)
    → link_some db ctx v ids r ≡ ok (n, db')
    → Frame db db' × (db'.versions ≡ db.versions) × (db'.contradictions ≡ db.contradictions)
unfolding link_some get_fact
link_some-Frame db db' ctx v n [] r h = (
  record { users = ground arith; memberships = ground arith; found = λ o' i' k. ground arith },
  ground arith,
  ground arith,
)
link_some-Frame db db' ctx v n (i ∷ ids) r h = link_unique-Frame db db' ctx v n (i ∷ ids) r h

link_evidence-Frame :
    (db db' : Db) (ctx : TenantContext) (v n : ℕ) (ids : List ℕ) (r : EvidenceRelation)
    → link_evidence db ctx v ids r ≡ ok (n, db')
    → Frame db db' × (db'.versions ≡ db.versions) × (db'.contradictions ≡ db.contradictions)
unfolding link_evidence
link_evidence-Frame db db' ctx v n ids r h = link_some-Frame db db' ctx v n (unique_from [] ids) r h

-- A call that succeeds is one write to the table of versions.
pub record Recorded (db db' : Db) (ctx : TenantContext) (s : Supply) (c : Command)
    (row : FactVersion) : Type 0 where
  pub window : ValidityWindow
  pub window_fits : IsWindow window
  pub observed : ℕ
  pub authority : ℕ
  pub entity : Entity
  pub fact : Fact
  pub before : Db
  pub after : Db
  pub before_same : before.versions ≡ db.versions
  pub before_conflicts : before.contradictions ≡ db.contradictions
  pub written :
      append_version before ctx s c window observed authority entity fact ≡ ok (row, after)
  pub after_same : db'.versions ≡ after.versions
  pub after_conflicts : db'.contradictions ≡ after.contradictions
  pub frame : Frame db db'

pub record_version-Recorded :
    (db db' : Db) (ctx : TenantContext) (s : Supply) (c : Command) (row : FactVersion)
    → record_version db ctx s c ≡ ok (row, db')
    → Recorded db db' ctx s c row
unfolding record_version
record_version-Recorded db db' ctx s c row h0 =
    >>=-elim (make_window c.valid_from c.valid_until) _ h0 λ w ew h1.
      >>=-elim (require_aware (observed_or c.observed_at c.valid_from)) _ h1 λ obs eo h2.
        >>=-elim (require_permission db ctx write_facts) _ h2 λ role er h3.
          >>=-elim (or_raise (get_source db ctx.organization_id c.source_id) not_found) _ h3
            λ source es h4.
              >>=-elim (validate_authority (authority_or c.authority source.default_authority)) _ h4
                λ a ea h5.
                  let (entity, db1) =
                    get_or_create_entity db s.entity_id ctx.organization_id c.entity_type
                      c.external_id in
                  let (fact, db2) =
                    get_or_create_fact db1 s.fact_id ctx.organization_id entity.id c.property in
                  >>=-elim (append_version db2 ctx s c w obs a entity fact) _ h5
                    λ (row', db3) ev h6.
                      >>=-elim (link_evidence db3 ctx row'.id c.evidence_ids supports) _ h6
                        λ (n, db4) el h7.
                          let same_row : row' ≡ row = ground arith in
                          let same_db : db4 ≡ db' = ground arith in
                          let entity_frame =
                            entity-Frame db s.entity_id ctx.organization_id c.entity_type
                              c.external_id in
                          let fact_frame =
                            fact-Frame db1 s.fact_id ctx.organization_id entity.id c.property in
                          let link_frame =
                            link_evidence-Frame db3 db4 ctx row'.id n c.evidence_ids supports el in
                          let append_frame =
                            append-Frame db2 db3 ctx s c w obs a entity fact row' ev in
                          record {
                            window = w;
                            window_fits = make_window-IsWindow c.valid_from c.valid_until w ew;
                            observed = obs;
                            authority = a;
                            entity = entity;
                            fact = fact;
                            before = db2;
                            after = db3;
                            before_same = fact_frame.1 ∙ entity_frame.1;
                            before_conflicts = fact_frame.2 ∙ entity_frame.2;
                            written = rw same_row at ev;
                            after_same = rw same_db at link_frame.1;
                            after_conflicts = rw same_db at link_frame.2;
                            frame =
                                Frame-trans db db2 db'
                                  (Frame-trans db db1 db2 entity_frame.0 fact_frame.0)
                                  (rw same_db at
                                    (Frame-trans db2 db3 db4 append_frame link_frame.0));
                          }

-- If no two versions share an id and every fact's versions form a history (numbered from 1 without a
-- gap, each superseding the one before, with later starts, later transaction times, and every one
-- but the newest closed by the next one's start), then the same holds after a version was recorded
-- under a new id.
pub record_version-IsTable :
    (db db' : Db) (ctx : TenantContext) (s : Supply) (c : Command) (row : FactVersion)
    → IsTable db.versions
    → IsFresh s.version_id db.versions
    → record_version db ctx s c ≡ ok (row, db')
    → IsTable db'.versions
record_version-IsTable db db' ctx s c row table fresh h =
    let r = record_version-Recorded db db' ctx s c row h in
    rw r.after_same (
      append-IsTable r.before r.after ctx s c r.window r.observed r.authority r.entity r.fact row
        r.written r.window_fits (rw r.before_same table) (rw r.before_same fresh))
