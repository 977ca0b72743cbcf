-- ===== src/Revocations/Effect.antt =====
-- What a revocation does to later reads (backend/app/services/revocations.py).
use Prim.Native.String.{String}
use Prim.Native.String.{count as str_length}
use context_ledger.Base.{
  ℕ, ◌≡◌, subst, Bool, true, false, not, ◌&&◌, Option, none, some, List, [], ◌∷◌, any, ◌==◌, leb,
  ltb, ◌||◌, if◌then◌else◌, arith, refl,
}
use context_ledger.Errors.{
  ok, validation_failed, not_found, conflict, raise_if, or_raise, ◌>>◌, >>=-elim, >>-elim,
}
use context_ledger.Roles.{TenantContext, MembershipRole, write_facts, read_decisions}
use context_ledger.Privacy.{scope_in}
use context_ledger.Visibility.{visible_privacy_scopes}
use context_ledger.Authorization.{require_permission}
use context_ledger.Recording.{get_fact}
use context_ledger.Versions.{FactVersion}
use context_ledger.Db.{Db, Decision, FactRevocation, RevocationImpact}
use context_ledger.Temporal.{not_revoked_condition, valid_at_condition}
use context_ledger.Revocations.{
  target, max_reason_chars, ImpactedDecision, RevocationReport, is_stored, report, revokes,
  add_revocation, revoke,
}

-- When a version was revoked: what the subquery of `not_revoked_condition` reads.
unfoldable pub revoked_times : ℕ → ℕ → List FactRevocation → List ℕ
revoked_times o version_id [] = []
revoked_times o version_id (r ∷ rs) =
    let rest = revoked_times o version_id rs in
    if revokes o version_id r then r.revoked_at ∷ rest else rest

-- A decision that a report lists as recorded when the version was revoked.
abbrev pub recorded : Decision × Bool → ImpactedDecision
recorded (d, relied_on) = record {
  decision_id = d.id;
  snapshot_id = d.snapshot_id;
  decided_at = d.decided_at;
  relied_on = relied_on;
  recorded_at_revocation = true;
  decided_after_revocation = false;
}

-- The tables that a revocation adds to.
abbrev added : Db → List FactRevocation → List RevocationImpact → Db
added db rs is = record db { revocations = rs; impacts = is }

module _ (o revocation_id version_id : ℕ) where
  -- Whether a decision of a row is stored.
  abbrev StoredIn : List RevocationImpact → Decision × Bool → Type 0
  StoredIn impacts (d, flag) = is_stored o revocation_id d impacts ≡ true

-- A revocation that succeeded added one.
pub revoke-eq-add :
    (db db' : Db) (ctx : TenantContext) (new_id now fact_id : ℕ) (version_id : Option ℕ)
    (reason : String) (r : RevocationReport)
    → revoke db ctx new_id now fact_id version_id reason ≡ ok (r, db')
    → (i : ℕ) × (any (revokes ctx.organization_id i) db.revocations ≡ false)
      × (add_revocation db ctx new_id now i reason ≡ (r, db'))
unfolding revoke
revoke-eq-add db db' ctx new_id now fact_id version_id reason r h =
    let o = ctx.organization_id in
    >>-elim (str_length reason == 0 || ltb max_reason_chars (str_length reason)) validation_failed _
      h
      (λ reason_fits h1. >>=-elim (require_permission db ctx write_facts) _ h1 (λ role permitted h2.
        >>=-elim (require_permission db ctx read_decisions) _ h2 (λ also permitted2 h3.
          >>=-elim (or_raise (get_fact db o fact_id) not_found) _ h3 (λ fact found h4.
            >>=-elim (or_raise (target db o fact_id version_id) not_found) _ h4
              (λ version found2 h5. written version role h5)))))
  where
    written :
        (version : FactVersion) (role : MembershipRole)
        → (do
          raise_if
              (not (version.fact_id == fact_id)
                || not (
                    scope_in
                      (visible_privacy_scopes role (ctx.max_privacy_scope ∷ []))
                      version.privacy_scope))
              not_found
          raise_if (any (revokes ctx.organization_id version.id) db.revocations) conflict
          ok (add_revocation db ctx new_id now version.id reason))
          ≡ ok (r, db')
        → (i : ℕ) × (any (revokes ctx.organization_id i) db.revocations ≡ false)
          × (add_revocation db ctx new_id now i reason ≡ (r, db'))
    written version role h' = (version.id, ground arith, ground arith)

no_times :
    (o i : ℕ) (rs : List FactRevocation) → any (revokes o i) rs ≡ false → revoked_times o i rs ≡ []
unfolding revoked_times
no_times o i [] h = refl
no_times o i (r ∷ rs) h = ground (arith, no_times o i rs)

-- What is stored after a revocation: the version was not revoked, and its revocation is.
pub stored_revocation :
    (db db' : Db) (ctx : TenantContext) (new_id now fact_id : ℕ) (version_id : Option ℕ)
    (reason : String) (r : RevocationReport)
    → revoke db ctx new_id now fact_id version_id reason ≡ ok (r, db')
    → (any (revokes ctx.organization_id r.fact_version_id) db.revocations ≡ false)
      × (db'.revocations
          ≡ record {
            id = new_id;
            organization_id = ctx.organization_id;
            fact_version_id = r.fact_version_id;
            reason = reason;
            revoked_by_user_id = ctx.user_id;
            agent_client_id = ctx.agent_client_id;
            revoked_at = now;
          }
            ∷ db.revocations)
unfolding add_revocation report
stored_revocation db db' ctx new_id now fact_id version_id reason r h =
    let (i, fresh, e) = revoke-eq-add db db' ctx new_id now fact_id version_id reason r h in
    subst
      (λ (p : RevocationReport × Db).
        (any (revokes ctx.organization_id p.0.fact_version_id) db.revocations ≡ false)
        × (p.1.revocations
            ≡ record {
              id = new_id;
              organization_id = ctx.organization_id;
              fact_version_id = p.0.fact_version_id;
              reason = reason;
              revoked_by_user_id = ctx.user_id;
              agent_client_id = ctx.agent_client_id;
              revoked_at = now;
            }
              ∷ db.revocations))
      e (fresh, refl)

-- Whether the SQL condition selects a version, with the revocations of a database.
abbrev pub selected : Db → ℕ → FactVersion → ℕ → Option ℕ → Bool
selected db o v t known_at = valid_at_condition (revoked_times o v.id db.revocations) v t known_at

-- After a version was revoked, the SQL condition selects none of its rows as known now or at any
-- time from the revocation on; as known earlier it selects what it selected before, and for every
-- other version nothing changed.
pub revoke-valid_at :
    (db db' : Db) (ctx : TenantContext) (new_id now fact_id : ℕ) (version_id : Option ℕ)
    (reason : String) (r : RevocationReport) (v : FactVersion) (o t k : ℕ)
    → revoke db ctx new_id now fact_id version_id reason ≡ ok (r, db')
    → (selected db' o v t none ≡ (
        if ctx.organization_id == o && r.fact_version_id == v.id
        then false
        else selected db o v t none))
      × (selected db' o v t (some k) ≡ (
          if ctx.organization_id == o && r.fact_version_id == v.id && leb now k
          then false
          else selected db o v t (some k)))
unfolding valid_at_condition not_revoked_condition revoked_times
revoke-valid_at db db' ctx new_id now fact_id version_id reason r v o t k h =
    let (fresh, stored) = stored_revocation db db' ctx new_id now fact_id version_id reason r h in
    rw stored (ground (arith, no_times ctx.organization_id r.fact_version_id db.revocations fresh))
