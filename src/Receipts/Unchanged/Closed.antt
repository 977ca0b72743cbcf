-- ===== src/Receipts/Unchanged/Closed.antt =====
-- What recording a version does to the rows of others, seen from before
-- (backend/app/services/facts.py, backend/app/repositories/facts.py).
use context_ledger.Base.{
  ℕ, ◌<◌, ◌≡◌, refl, sym, ap, ◌∙◌, Option, none, some, List, [], ◌∷◌, map, arith, Option-cases, inl,
  inr,
}
use context_ledger.Errors.{ok, >>=-elim}
use context_ledger.Roles.{TenantContext}
use context_ledger.Facts.{ValidityWindow, plan_new_version}
use context_ledger.Versions.{FactVersion, to_snapshot}
use context_ledger.Temporal.{as_known}
use context_ledger.Db.{Db, Entity, Fact}
use context_ledger.EvidenceLinks.{is_none}
use context_ledger.Recording.{
  Command, Supply, close_row, close_version, close_previous, latest_version, latest_view,
  next_transaction_time, new_version, append_version,
}

-- The end of a version and the time it was learned are given together (a constraint of the table).
abbrev pub IsEndKnown : FactVersion → Type 0
IsEndKnown v = is_none v.valid_until ≡ is_none v.valid_until_recorded_at

-- A change of rows at a time `t` that leaves what was known before.
pub record IsClosing (t : ℕ) (g : FactVersion → FactVersion) : Type 0 where
  pub id : (v : FactVersion) → (g v).id ≡ v.id
  pub organization : (v : FactVersion) → (g v).organization_id ≡ v.organization_id
  pub fact : (v : FactVersion) → (g v).fact_id ≡ v.fact_id
  pub source : (v : FactVersion) → (g v).source_id ≡ v.source_id
  pub value : (v : FactVersion) → (g v).value ≡ v.value
  pub scope : (v : FactVersion) → (g v).privacy_scope ≡ v.privacy_scope
  pub past :
      (v : FactVersion) (k : ℕ)
      → IsEndKnown v
      → k < t
      → as_known (to_snapshot (g v)) (some k) ≡ as_known (to_snapshot v) (some k)

close_row-IsClosing : (o i u t : ℕ) → IsClosing t (close_row o i u t)
unfolding close_row
close_row-IsClosing o i u t = record {
  id = λ v. ground arith;
  organization = λ v. ground arith;
  fact = λ v. ground arith;
  source = λ v. ground arith;
  value = λ v. ground arith;
  scope = λ v. ground arith;
  past = λ v k known before. elim (Option-cases v.valid_until) [
    | inl e ↦ elim (Option-cases v.valid_until_recorded_at) [
      | inl e' ↦ ground arith
      | inr (l, e') ↦ ground arith
    ]
    | inr (w, e) ↦ ground arith
  ];
}

unchanged-IsClosing : (t : ℕ) → IsClosing t (λ v. v)
unchanged-IsClosing t = record {
  id = λ v. refl;
  organization = λ v. refl;
  fact = λ v. refl;
  source = λ v. refl;
  value = λ v. refl;
  scope = λ v. refl;
  past = λ v k known before. refl;
}

map-same : (vs : List FactVersion) → vs ≡ map (λ v. v) vs
map-same [] = refl
map-same (v ∷ vs) = ap (λ rest. v ∷ rest) (map-same vs)

close_previous-map :
    (o t : ℕ) (latest : Option FactVersion) (close_at : Option ℕ) (vs : List FactVersion)
    → (g : FactVersion → FactVersion) × IsClosing t g
      × (close_previous o latest close_at t vs ≡ map g vs)
unfolding close_previous close_version
close_previous-map o t none close_at vs = (_, unchanged-IsClosing t, map-same vs)
close_previous-map o t (some v) none vs = (_, unchanged-IsClosing t, map-same vs)
close_previous-map o t (some v) (some u) vs = (_, close_row-IsClosing o v.id u t, refl)

-- The versions after a write: the new one, and those before, of which some may be closed.
abbrev pub IsAppended : ℕ → FactVersion → List FactVersion → List FactVersion → Type 0
IsAppended new_id row vs vs' =
    (row.id ≡ new_id)
    × ((g : FactVersion → FactVersion) × IsClosing row.recorded_at g × (vs' ≡ row ∷ map g vs))

pub append-IsAppended :
    (db db' : Db) (ctx : TenantContext) (s : Supply) (c : Command) (w : ValidityWindow) (obs a : ℕ)
    (e : Entity) (f : Fact) (row : FactVersion)
    → append_version db ctx s c w obs a e f ≡ ok (row, db')
    → IsAppended s.version_id row db.versions db'.versions
unfolding append_version new_version
append-IsAppended db db' ctx s c w obs a e f row h0 =
    let latest = latest_version ctx.organization_id f.id db.versions in
    >>=-elim (latest_view latest) _ h0 λ view ev h1.
      >>=-elim (plan_new_version view w) _ h1 λ plan ep h2.
        let (g, closing, e') =
          close_previous-map ctx.organization_id row.recorded_at latest plan.close_previous_at
            db.versions in
        let o = ctx.organization_id in
        let t = next_transaction_time s.clock latest in
        let recorded : row.recorded_at ≡ t = ground arith in
        let all : db'.versions
            ≡ row ∷ close_previous o latest plan.close_previous_at t db.versions =
          ground arith in
        (
          ground arith,
          (
            g,
            closing,
            all
                ∙ ap (λ x. row ∷ close_previous o latest plan.close_previous_at x db.versions)
                    (sym recorded)
                ∙ ap (λ rest. row ∷ rest) e',
          ),
        )
