-- ===== src/Revocations/Once.antt =====
-- A version is revoked once (backend/app/services/revocations.py).
use Prim.Native.String.{String}
use context_ledger.Base.{ℕ, ◌≡◌, ◌≢◌, refl, true, Option, List, [], ◌∷◌, any, arith}
use context_ledger.Errors.{Result, ok, err}
use context_ledger.Roles.{TenantContext}
use context_ledger.Db.{Db}
use context_ledger.Revocations.{RevocationReport, revokes, revoke}
use context_ledger.Revocations.Effect.{stored_revocation}

-- A request to revoke, with the id and the time that the database gives.
pub record Revoking : Type 0 where
  pub ctx : TenantContext
  pub new_id : ℕ
  pub now : ℕ
  pub fact_id : ℕ
  pub version_id : Option ℕ
  pub reason : String

-- What a request commits; one that is refused leaves the database as it was.
abbrev pub committed : Db → Result (RevocationReport × Db) → Db
committed db (err raised) = db
committed db (ok (r, db')) = db'

unfoldable pub revoke_all : List Revoking → Db → Db
revoke_all [] db = db
revoke_all (x ∷ xs) db =
    revoke_all xs (committed db (revoke db x.ctx x.new_id x.now x.fact_id x.version_id x.reason))

step-kept :
    (o i : ℕ) (db : Db) (x : Revoking) (result : Result (RevocationReport × Db))
    → revoke db x.ctx x.new_id x.now x.fact_id x.version_id x.reason ≡ result
    → any (revokes o i) db.revocations ≡ true
    → any (revokes o i) (committed db result).revocations ≡ true
step-kept o i db x (err raised) h there = there
step-kept o i db x (ok (r, db')) h there =
    let (fresh, stored) =
      stored_revocation db db' x.ctx x.new_id x.now x.fact_id x.version_id x.reason r h in
    rw stored (ground (arith, there))

all-kept :
    (o i : ℕ) (xs : List Revoking) (db : Db)
    → any (revokes o i) db.revocations ≡ true
    → any (revokes o i) (revoke_all xs db).revocations ≡ true
unfolding revoke_all
all-kept o i [] db there = there
all-kept o i (x ∷ xs) db there = all-kept o i xs _ (step-kept o i db x _ refl there)

-- A version that was revoked is never revoked again: after any further requests to revoke, whoever
-- made them and whether or not they were refused, a revocation in the organization that succeeds is
-- one of another version.
pub revoke_once :
    (db db' db'' : Db) (ctx ctx' : TenantContext) (new_id new_id' now now' fact_id fact_id' : ℕ)
    (version_id version_id' : Option ℕ) (reason reason' : String) (r r' : RevocationReport)
    (between : List Revoking)
    → revoke db ctx new_id now fact_id version_id reason ≡ ok (r, db')
    → ctx'.organization_id ≡ ctx.organization_id
    → revoke (revoke_all between db') ctx' new_id' now' fact_id' version_id' reason' ≡ ok (r', db'')
    → r'.fact_version_id ≢ r.fact_version_id
revoke_once db db' db'' ctx ctx' new_id new_id' now now' fact_id fact_id' version_id version_id'
      reason reason' r r' between h same h' =
    let (fresh, stored) = stored_revocation db db' ctx new_id now fact_id version_id reason r h in
    let there : any (revokes ctx.organization_id r.fact_version_id) db'.revocations ≡ true =
      rw stored (ground arith) in
    let kept = all-kept ctx.organization_id r.fact_version_id between db' there in
    let (fresh', stored') =
      stored_revocation (revoke_all between db') db'' ctx' new_id' now' fact_id' version_id' reason'
        r' h' in
    λ again. ground arith
