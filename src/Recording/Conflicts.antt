-- ===== src/Recording/Conflicts.antt =====
-- The contradictions that recording a version finds (backend/app/services/facts.py).
use context_ledger.Base.{
  ℕ, ◌≤◌, ◌≡◌, ◌⊎◌, refl, subst, Option, none, some, List, ◌∷◌, arith, Option-cases, inl, inr,
}
use context_ledger.Errors.{ok, >>=-elim}
use context_ledger.Privacy.{privacy_index}
use context_ledger.Roles.{TenantContext}
use context_ledger.Facts.{ValidityWindow, plan_new_version}
use context_ledger.Versions.{FactVersion}
use context_ledger.Contradictions.{VersionFacts, rule_view, value_conflict, preferred}
use context_ledger.Contradictions.Rules.{IsFlagged, value_conflict-IsFlagged}
use context_ledger.Db.{Db, Entity, Fact, Contradiction, open_status}
use context_ledger.Recording.Service.{record_version-Recorded}
use context_ledger.Recording.{
  Command, Supply, latest_version, latest_view, new_version, conflict_row, detect_value_conflict,
  append_version, record_version,
}

-- The row names both versions, prefers one of them, is open, and is at least as sensitive as both.
abbrev pub Describes : FactVersion → FactVersion → Contradiction → Type 0
Describes left right x =
    (x.left_version_id ≡ left.id)
    × (x.right_version_id ≡ right.id)
    × ((x.preferred_version_id ≡ some left.id) ⊎ (x.preferred_version_id ≡ some right.id))
    × (x.status ≡ open_status)
    × (privacy_index left.privacy_scope ≤ privacy_index x.privacy_scope)
    × (privacy_index right.privacy_scope ≤ privacy_index x.privacy_scope)

-- What recording `row` after `latest` does to the contradictions.
abbrev pub Detected :
    Option FactVersion → FactVersion → List Contradiction → List Contradiction → Type 0
Detected none row old new = new ≡ old
Detected (some latest) row old new =
    ((¬ IsFlagged (rule_view latest) (rule_view row)) × (new ≡ old))
    ⊎ (IsFlagged (rule_view latest) (rule_view row)
        × ((x : Contradiction) × (new ≡ x ∷ old) × Describes latest row x))

row-Describes :
    (o i e : ℕ) (latest row : FactVersion) → Describes latest row (conflict_row o i e latest row)
unfolding preferred
row-Describes o i e latest row = ground arith

no-IsFlagged : (p n : VersionFacts) → value_conflict p n ≡ none → ¬ IsFlagged p n
no-IsFlagged p n h c = cc (h, (value_conflict-IsFlagged p n _).1 (c, refl))

detect-Detected :
    (o i e : ℕ) (latest : Option FactVersion) (row : FactVersion) (old : List Contradiction)
    → Detected latest row old (detect_value_conflict o i e latest row old)
unfolding detect_value_conflict
detect-Detected o i e none row old = refl
detect-Detected o i e (some latest) row old =
    elim (Option-cases (value_conflict (rule_view latest) (rule_view row))) [
      | inl absent ↦ inl (no-IsFlagged _ _ absent, rw (absent, detect_value_conflict))
      | inr (r, found) ↦ inr (
        ((value_conflict-IsFlagged (rule_view latest) (rule_view row) r).0 found).0,
        (
          conflict_row o i e latest row,
          rw (found, detect_value_conflict),
          row-Describes o i e latest row,
        ),
      )
    ]

append-Detected :
    (db db' : Db) (ctx : TenantContext) (s : Supply) (c : Command) (w : ValidityWindow) (obs a : ℕ)
    (e : Entity) (f : Fact) (row : FactVersion)
    → append_version db ctx s c w obs a e f ≡ ok (row, db')
    → Detected
        (latest_version ctx.organization_id row.fact_id db.versions)
        row
        db.contradictions
        db'.contradictions
unfolding append_version new_version
append-Detected db db' ctx s c w obs a e f row h =
    let latest = latest_version ctx.organization_id f.id db.versions in
    >>=-elim (latest_view latest) _ h λ view ev h1.
      >>=-elim (plan_new_version view w) _ h1 λ plan ep h2.
        let same_fact : f.id ≡ row.fact_id = ground arith in
        let found : db'.contradictions
            ≡ detect_value_conflict ctx.organization_id s.contradiction_id e.id latest row
                db.contradictions =
          ground arith in
        subst
          (λ i.
            Detected (latest_version ctx.organization_id i db.versions) row db.contradictions
              db'.contradictions)
          same_fact
          (rw found (
            detect-Detected ctx.organization_id s.contradiction_id e.id latest row
              db.contradictions))

-- Recording a version leaves the stored contradictions alone if the fact had no version or the new
-- version is not flagged against the latest one as it was; otherwise it adds one open contradiction
-- that names both versions, prefers one of them and is at least as sensitive as each.
pub record_version-Detected :
    (db db' : Db) (ctx : TenantContext) (s : Supply) (c : Command) (row : FactVersion)
    → record_version db ctx s c ≡ ok (row, db')
    → Detected
        (latest_version ctx.organization_id row.fact_id db.versions)
        row
        db.contradictions
        db'.contradictions
record_version-Detected db db' ctx s c row h =
    let r = record_version-Recorded db db' ctx s c row h in
    let d =
      append-Detected r.before r.after ctx s c r.window r.observed r.authority r.entity r.fact row
        r.written in
    rw (r.after_conflicts, ← r.before_conflicts, ← r.before_same) d
