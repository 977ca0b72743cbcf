-- ===== src/Recording/Knowledge.antt =====
-- The past is not rewritten: what `history` answers as known at a time before a write is the same
-- after the write (backend/app/services/facts.py, backend/app/services/temporal.py).
use context_ledger.Base.{
  ℕ, ◌<◌, ◌≡◌, refl, sym, ◌∙◌, ap, true, ◌&&◌, Option, none, some, List, [], ◌∷◌, map, filter, ◌==◌,
  arith, Bool-cases, inl, inr,
}
use context_ledger.Base.Sort.{insert_by, sort_by}
use context_ledger.Base.Sorted.{sort_by-IsSorted, sort_by-sorted}
use context_ledger.Errors.{ok}
use context_ledger.Roles.{TenantContext, Permission, read_facts}
use context_ledger.Facts.{aware}
use context_ledger.Versions.{FactVersion, to_snapshot}
use context_ledger.Temporal.{as_known, is_known, known_versions, history_as_known}
use context_ledger.Temporal.Resolve.{snapshots, version_of}
use context_ledger.Db.{Db}
use context_ledger.Authorization.{get_user, require_permission}
use context_ledger.Recording.{
  Command, Supply, of_fact, row_version, list_versions, get_fact, record_version, history,
}
use context_ledger.Recording.Rows.{IsTable}
use context_ledger.Recording.Keeps.{Written, append-Written}
use context_ledger.Recording.Service.{Frame, Recorded, record_version-Recorded, is_found}

insert-map :
    (x : FactVersion) (ys : List FactVersion)
    → map to_snapshot (insert_by row_version x ys)
      ≡ insert_by version_of (to_snapshot x) (map to_snapshot ys)
insert-map x [] = refl
insert-map x (y ∷ ys) = ground (arith, insert-map x ys)

sort-map :
    (xs : List FactVersion)
    → map to_snapshot (sort_by row_version xs) ≡ sort_by version_of (map to_snapshot xs)
sort-map [] = refl
sort-map (x ∷ xs) =
    insert-map x (sort_by row_version xs) ∙ ap (insert_by version_of (to_snapshot x)) (sort-map xs)

sort_again :
    (xs : List FactVersion)
    → sort_by version_of (map to_snapshot (sort_by row_version xs))
      ≡ sort_by version_of (map to_snapshot xs)
sort_again xs =
    ap (sort_by version_of) (sort-map xs)
    ∙ sort_by-sorted version_of _ (sort_by-IsSorted version_of (map to_snapshot xs))

-- `list_versions` sorts already, and sorting again changes nothing.
known-list_versions :
    (o f : ℕ) (vs : List FactVersion) (k : Option ℕ)
    → known_versions (map to_snapshot (list_versions o f vs)) k
      ≡ known_versions (snapshots (of_fact o f vs)) k
unfolding known_versions list_versions
known-list_versions o f vs k =
    ap (λ ys. map (λ v. as_known v k) (filter (λ v. is_known v k) ys)) (sort_again (of_fact o f vs))

require_permission-Frame :
    (db db' : Db) (ctx : TenantContext) (p : Permission)
    → Frame db db'
    → require_permission db' ctx p ≡ require_permission db ctx p
unfolding require_permission get_user
require_permission-Frame db db' ctx p f = rw (f.users, f.memberships)

found-some {ℓ} : {A : Type ℓ} (o : Option A) → is_found o ≡ true → (a : A) × (o ≡ some a)
found-some none h = cc
found-some (some a) h = (a, refl)

Written-past :
    (o f o' f' k : ℕ) (row : FactVersion) (vs vs' : List FactVersion)
    → Written o f row vs vs'
    → k < row.recorded_at
    → known_versions (snapshots (of_fact o' f' vs')) (some k)
      ≡ known_versions (snapshots (of_fact o' f' vs)) (some k)
Written-past o f o' f' k row vs vs' w lt = elim (Bool-cases (o' == o && f' == f)) [
  | inl same ↦
      let eo : o' ≡ o = ground arith in let ef : f' ≡ f = ground arith in rw (eo, ef) (w.past k lt)
  | inr other ↦ rw (w.at_other o' f' (ground arith))
]

versions-past :
    (db db' : Db) (ctx : TenantContext) (s : Supply) (c : Command) (row : FactVersion) (o f k : ℕ)
    → IsTable db.versions
    → Recorded db db' ctx s c row
    → k < row.recorded_at
    → history_as_known (map to_snapshot (list_versions o f db'.versions)) (some (aware k))
      ≡ history_as_known (map to_snapshot (list_versions o f db.versions)) (some (aware k))
unfolding history_as_known
versions-past db db' ctx s c row o f k table r lt =
    let w =
      append-Written r.before r.after ctx s c r.window r.observed r.authority r.entity r.fact row
        r.written r.window_fits (rw r.before_same table) in
    ap ok (
      known-list_versions o f db'.versions (some k)
      ∙ ap (λ vs. known_versions (snapshots (of_fact o f vs)) (some k)) r.after_same
      ∙ Written-past ctx.organization_id r.fact.id o f k row r.before.versions r.after.versions w lt
      ∙ ap (λ vs. known_versions (snapshots (of_fact o f vs)) (some k)) r.before_same
      ∙ sym (known-list_versions o f db.versions (some k)))

-- If the versions before were well formed (`IsTable`) and a version was recorded, then `history` of
-- every fact that existed, read by any caller as known at any time before the new version's
-- transaction time, answers what it answered before.
pub record_version-past :
    (db db' : Db) (ctx reader : TenantContext) (s : Supply) (c : Command) (row : FactVersion)
    (fact_id k : ℕ)
    → IsTable db.versions
    → record_version db ctx s c ≡ ok (row, db')
    → is_found (get_fact db reader.organization_id fact_id) ≡ true
    → k < row.recorded_at
    → history db' reader fact_id (some (aware k)) ≡ history db reader fact_id (some (aware k))
unfolding history
record_version-past db db' ctx reader s c row fact_id k table h found lt =
    let r = record_version-Recorded db db' ctx s c row h in
    let (f, ef) = found-some _ found in
    let (f', ef') = found-some _ (r.frame.found reader.organization_id fact_id found) in
    rw (require_permission-Frame db db' reader read_facts r.frame, ef, ef')
      (rw (versions-past db db' ctx s c row reader.organization_id fact_id k table r lt))
