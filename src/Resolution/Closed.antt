-- ===== src/Resolution/Closed.antt =====
-- A contradiction is closed once (backend/app/services/contradictions.py).
use Prim.Native.String.{String}
use context_ledger.Base.{
  ℕ, ◌≡◌, refl, Bool, true, false, ◌&&◌, Option, none, some, List, [], ◌∷◌, any, find?, ◌==◌, ==→≡,
  if◌then◌else◌, Bool-cases, arith, inl, inr,
}
use context_ledger.Errors.{Result, ok, err, validation_failed, commit, >>=-elim, >>-elim}
use context_ledger.Privacy.{PrivacyScope}
use context_ledger.Roles.{TenantContext, write_facts}
use context_ledger.Db.{Db, Contradiction, ContradictionStatus}
use context_ledger.Resolution.{
  is_open, visible, is_wanted, find_row, close, store, resolve_locked, resolve_row, Closing,
  resolve_all,
}

-- The row of an identifier.
abbrev pub is_at : ℕ → ℕ → Contradiction → Bool
is_at o id c = c.organization_id == o && c.id == id

unfoldable pub row_of : ℕ → ℕ → List Contradiction → Option Contradiction
row_of o id cs = find? (is_at o id) cs

-- No two rows of an organization share an id.
abbrev pub UniqueRows : List Contradiction → Type 0
UniqueRows [] = Unit {0}
UniqueRows (c ∷ cs) = (any (is_at c.organization_id c.id) cs ≡ false) × UniqueRows cs

-- With unique ids, what `_row` finds is the row of the id.
no_row :
    (o id : ℕ) (scopes : List PrivacyScope) (cs : List Contradiction)
    → any (is_at o id) cs ≡ false
    → find? (is_wanted o id scopes) cs ≡ none
no_row o id scopes [] h = refl
no_row o id scopes (d ∷ ds) h = ground (arith, no_row o id scopes ds)

wanted-row :
    (o id : ℕ) (scopes : List PrivacyScope) (cs : List Contradiction) (c : Contradiction)
    → UniqueRows cs
    → find? (is_wanted o id scopes) cs ≡ some c
    → (row_of o id cs ≡ some c) × (c.organization_id ≡ o) × (c.id ≡ id)
unfolding row_of
wanted-row o id scopes [] c unique h = ground arith
wanted-row o id scopes (d ∷ ds) c (fresh, unique) h = elim (Bool-cases (is_at o id d)) [
  | inl here ↦
      ground (
        arith,
        ==→≡ d.organization_id o,
        ==→≡ d.id id,
        no_row d.organization_id d.id scopes ds fresh,
      )
  | inr away ↦ ground (arith, wanted-row o id scopes ds c unique)
]

any-store :
    (c : Contradiction) (o id : ℕ) (cs : List Contradiction)
    → any (is_at o id) (store c cs) ≡ any (is_at o id) cs
unfolding store
any-store c o id [] = refl
any-store c o id (d ∷ ds) =
    ground (arith, any-store c o id ds, ==→≡ d.organization_id c.organization_id, ==→≡ d.id c.id)

row_of-store :
    (c : Contradiction) (o id : ℕ) (cs : List Contradiction) (d : Contradiction)
    → row_of o id cs ≡ some d
    → row_of o id (store c cs) ≡ (if is_at o id c then some c else some d)
unfolding row_of store
row_of-store c o id [] d h = ground arith
row_of-store c o id (e ∷ es) d h =
    ground
      (arith, row_of-store c o id es d, ==→≡ e.organization_id c.organization_id, ==→≡ e.id c.id)

store-UniqueRows :
    (c : Contradiction) (cs : List Contradiction) → UniqueRows cs → UniqueRows (store c cs)
unfolding store
store-UniqueRows c [] unique = tt
store-UniqueRows c (d ∷ ds) (fresh, unique) = elim (Bool-cases (is_at c.organization_id c.id d)) [
  | inl same ↦ rw same (
    ground (
      arith,
      any-store c c.organization_id c.id ds,
      ==→≡ d.organization_id c.organization_id,
      ==→≡ d.id c.id,
    ),
    store-UniqueRows c ds unique,
  )
  | inr other ↦
      rw other (ground (arith, any-store c d.organization_id d.id ds), store-UniqueRows c ds unique)
]

-- What a closing that succeeded did.
closing-parts :
    (db db' : Db) (ctx : TenantContext) (id : ℕ) (status : ContradictionStatus)
    (note : Option String) (now : ℕ) (c : Contradiction)
    → UniqueRows db.contradictions
    → resolve_row db ctx id status note now ≡ ok (c, db')
    → (row : Contradiction) × (is_open status ≡ false)
      × (row_of ctx.organization_id id db.contradictions ≡ some row)
      × (row.organization_id ≡ ctx.organization_id)
      × (row.id ≡ id)
      × (is_open row.status ≡ true)
      × (c ≡ close ctx status note now row)
      × (db' ≡ record db { contradictions = store c db.contradictions })
unfolding resolve_row find_row resolve_locked
closing-parts db db' ctx id status note now c unique h =
    >>-elim (is_open status) validation_failed _ h (λ closing h1.
      >>=-elim (visible db ctx write_facts) _ h1 (λ scopes permitted h2.
        >>=-elim (find_row db ctx id scopes) _ h2
          (λ row found h3. closed scopes row found h3 closing)))
  where
    closed :
        (scopes : List PrivacyScope) (row : Contradiction)
        → find_row db ctx id scopes ≡ ok row
        → resolve_locked db ctx status note now row ≡ ok (c, db')
        → is_open status ≡ false
        → (row' : Contradiction) × (is_open status ≡ false)
          × (row_of ctx.organization_id id db.contradictions ≡ some row')
          × (row'.organization_id ≡ ctx.organization_id)
          × (row'.id ≡ id)
          × (is_open row'.status ≡ true)
          × (c ≡ close ctx status note now row')
          × (db' ≡ record db { contradictions = store c db.contradictions })
    closed scopes row found h' closing =
        let (at, org, same) =
          wanted-row ctx.organization_id id scopes db.contradictions row unique (ground arith) in
        (row, closing, at, org, same, ground arith, ground arith, ground arith)

-- A row that is closed stays as it is through any request.
closed-kept :
    (db : Db) (r : Closing) (o id : ℕ) (c : Contradiction)
    → UniqueRows db.contradictions
    → row_of o id db.contradictions ≡ some c
    → is_open c.status ≡ false
    → (result : Result (Contradiction × Db))
    → resolve_row db r.ctx r.id r.status r.note r.now ≡ result
    → (row_of o id (commit db result).contradictions ≡ some c)
      × UniqueRows (commit db result).contradictions
closed-kept db r o id c unique at closed (err e) h = (at, unique)
closed-kept db r o id c unique at closed (ok (c', db')) h =
    let (row, closing, found, org, same, was_open, written, stored) =
      closing-parts db db' r.ctx r.id r.status r.note r.now c' unique h in
    rw stored (
      ground (
        arith,
        row_of-store c' o id db.contradictions c at,
        ==→≡ c'.organization_id o,
        ==→≡ c'.id id,
      ),
      store-UniqueRows c' db.contradictions unique,
    )

all-kept :
    (rs : List Closing) (db : Db) (o id : ℕ) (c : Contradiction)
    → UniqueRows db.contradictions
    → row_of o id db.contradictions ≡ some c
    → is_open c.status ≡ false
    → row_of o id (resolve_all rs db).contradictions ≡ some c
unfolding resolve_all
all-kept [] db o id c unique at closed = at
all-kept (r ∷ rs) db o id c unique at closed =
    let (at', unique') = closed-kept db r o id c unique at closed _ refl in
    all-kept rs (commit db (resolve_row db r.ctx r.id r.status r.note r.now)) o id c unique' at'
      closed

-- If no two contradictions share an id, then a closing that succeeds closed an open contradiction
-- with the status, note, person and time given; and whatever requests follow, by whomever, the row
-- stays exactly as this closing left it: a contradiction is closed once.
pub resolve_row-final :
    (db db' : Db) (ctx : TenantContext) (id : ℕ) (status : ContradictionStatus)
    (note : Option String) (now : ℕ) (c : Contradiction) (rs : List Closing)
    → UniqueRows db.contradictions
    → resolve_row db ctx id status note now ≡ ok (c, db')
    → (row : Contradiction) × (row_of ctx.organization_id id db.contradictions ≡ some row)
      × (is_open row.status ≡ true)
      × (is_open status ≡ false)
      × (c ≡ close ctx status note now row)
      × (row_of ctx.organization_id id (resolve_all rs db').contradictions ≡ some c)
resolve_row-final db db' ctx id status note now c rs unique h =
    let (row, closing, found, org, same, was_open, written, stored) =
      closing-parts db db' ctx id status note now c unique h in
    (
      row,
      found,
      was_open,
      closing,
      written,
      rw stored (
          all-kept rs (record db { contradictions = store c db.contradictions }) ctx.organization_id
            id c (store-UniqueRows c db.contradictions unique)
            (ground (arith, row_of-store c ctx.organization_id id db.contradictions row found))
            (ground arith)),
    )
