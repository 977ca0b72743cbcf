-- ===== src/Sources/Names.antt =====
-- What registering keeps (backend/app/services/facts.py).
use context_ledger.Authority.{Authority, integer, boolean, pos, negsuc, validate_authority}
use context_ledger.Base.{
  ℕ, ◌≡◌, ◌≤◌, ◌⊎◌, inl, inr, refl, subst, false, List, [], ◌∷◌, any, All, arith,
}
use context_ledger.Base.Every.{Member}
use context_ledger.Errors.{Result, ok, err, conflict, commit, >>=-elim, >>-elim}
use context_ledger.Roles.{write_facts}
use context_ledger.Db.{Db, FactSource}
use context_ledger.Authorization.{require_permission}
use context_ledger.Sources.{has_name, register_source, Registration, register_all}

-- No two sources of an organization share a name, and every default authority is from 0 to 100.
abbrev pub AreSources : List FactSource → Type 0
AreSources [] = Unit {0}
AreSources (s ∷ ss) =
    (any (has_name s.organization_id s.name) ss ≡ false)
    × (s.default_authority ≤ 100)
    × AreSources ss

-- The source was there, or it is what one of the registrations asked for, with the integer that was
-- given as its default authority.
abbrev pub IsFrom : List Registration → List FactSource → FactSource → Type 0
IsFrom rs sources s =
    Member s sources
    ⊎ ((r : Registration) × Member r rs
        × (r.default_authority ≡ integer (pos s.default_authority))
        × (s.default_authority ≤ 100)
        × (s.organization_id ≡ r.ctx.organization_id)
        × (s.name ≡ r.name))

valid_authority :
    (given : Authority) (a : ℕ)
    → validate_authority given ≡ ok a
    → (given ≡ integer (pos a)) × (a ≤ 100)
unfolding validate_authority
valid_authority (boolean b) a h = absurd (ground arith)
valid_authority (integer (negsuc n)) a h = absurd (ground arith)
valid_authority (integer (pos n)) a h = (ground arith, ground arith)

-- What a registration that succeeded stored.
register-stored :
    (db db' : Db) (r : Registration) (source : FactSource)
    → register_source db r.ctx r.new_id r.name r.default_authority ≡ ok (source, db')
    → (db'.sources ≡ (source ∷ db.sources))
      × (any (has_name source.organization_id source.name) db.sources ≡ false)
      × (r.default_authority ≡ integer (pos source.default_authority))
      × (source.default_authority ≤ 100)
      × (source.organization_id ≡ r.ctx.organization_id)
      × (source.name ≡ r.name)
unfolding register_source
register-stored db db' r source h =
    >>=-elim (validate_authority r.default_authority) _ h (λ authority valid h1.
      >>=-elim (require_permission db r.ctx write_facts) _ h1 (λ role permitted h2.
        >>-elim (any (has_name r.ctx.organization_id r.name) db.sources) conflict _ h2 (λ fresh h3.
          let (given, most) = valid_authority r.default_authority authority valid in
          let is : source ≡ (record {
            id = r.new_id;
            organization_id = r.ctx.organization_id;
            name = r.name;
            default_authority = authority;
          }) =
            ground arith in
          rw is (ground arith, fresh, given, most, refl, refl))))

register-AreSources :
    (db : Db) (r : Registration)
    → AreSources db.sources
    → (result : Result (FactSource × Db))
    → register_source db r.ctx r.new_id r.name r.default_authority ≡ result
    → AreSources (commit db result).sources
register-AreSources db r names (err e) h = names
register-AreSources db r names (ok (source, db')) h =
    let (stored, fresh, given, most, org, name) = register-stored db db' r source h in
    rw stored (fresh, most, names)

-- Sources that are there after one registration, and the ones before it.
register-IsFrom :
    (db : Db) (r : Registration) (rs : List Registration) (result : Result (FactSource × Db))
    → register_source db r.ctx r.new_id r.name r.default_authority ≡ result
    → (s : FactSource) → IsFrom rs (commit db result).sources s
    → IsFrom (r ∷ rs) db.sources s
register-IsFrom db r rs result h s (inr (x, m, given, most, org, name)) =
    inr (x, inr m, given, most, org, name)
register-IsFrom db r rs (err e) h s (inl m) = inl m
register-IsFrom db r rs (ok (source, db')) h s (inl m) =
    let (stored, fresh, given, most, org, name) = register-stored db db' r source h in
    elim (subst (λ xs. Member s xs) stored m) [
      | inl is ↦
          let (given', most', org', name') =
            subst
              (λ (x : FactSource).
                (r.default_authority ≡ integer (pos x.default_authority))
                × (x.default_authority ≤ 100)
                × (x.organization_id ≡ r.ctx.organization_id)
                × (x.name ≡ r.name))
              is (given, most, org, name) in
          inr (r, inl refl, given', most', org', name')
      | inr old ↦ inl old
    ]

all-IsFrom :
    (rs : List Registration) (db : Db) (s : FactSource)
    → Member s (register_all rs db).sources
    → IsFrom rs db.sources s
unfolding register_all
all-IsFrom [] db s m = inl m
all-IsFrom (r ∷ rs) db s m = register-IsFrom db r rs _ refl s (all-IsFrom rs _ s m)

All-Member :
    (P : FactSource → Type 0) (xs : List FactSource)
    → ((s : FactSource) → Member s xs → P s)
    → All P xs
All-Member P [] h = tt
All-Member P (x ∷ xs) h = (h x (inl refl), All-Member P xs (λ s m. h s (inr m)))

all-AreSources :
    (rs : List Registration) (db : Db)
    → AreSources db.sources
    → AreSources (register_all rs db).sources
unfolding register_all
all-AreSources [] db names = names
all-AreSources (r ∷ rs) db names = all-AreSources rs _ (register-AreSources db r names _ refl)

-- If no two sources of an organization share a name and every default authority is at most 100, the
-- same holds after any registrations, refused ones included. Each source that is there then was there
-- before, or one of the registrations asked for it in its caller's organization, by that name, with
-- its default authority given as an integer from 0 to 100.
pub register_all-AreSources :
    (rs : List Registration) (db : Db)
    → AreSources db.sources
    → AreSources (register_all rs db).sources
      × All (IsFrom rs db.sources) (register_all rs db).sources
register_all-AreSources rs db names = (
  all-AreSources rs db names,
  All-Member (IsFrom rs db.sources) (register_all rs db).sources (λ s m. all-IsFrom rs db s m),
)
