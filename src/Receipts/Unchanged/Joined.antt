-- ===== src/Receipts/Unchanged/Joined.antt =====
-- The rows of a snapshot after a version was recorded (backend/app/repositories/decisions.py).
use context_ledger.Base.{
  ℕ, ◌≡◌, ◌≢◌, refl, ap, subst, ◌∙◌, Bool, false, ◌&&◌, Option, none, some, List, [], ◌∷◌, map,
  find?, All, ◌==◌, arith, Bool-cases, Option-cases, inl, inr,
}
use context_ledger.Base.Sort.{insert_by, sort_by}
use context_ledger.Versions.{FactVersion}
use context_ledger.Db.{Db, Fact, ContextSnapshotFact}
use context_ledger.EvidenceLinks.{get_version}
use context_ledger.Recording.{get_fact, get_source}
use context_ledger.Recording.Tables.{Kept}
use context_ledger.Receipts.{SnapshotFactRow, get_entity, join_row, join_rows, position_of}
use context_ledger.Receipts.Unchanged.Closed.{IsClosing}

module _ {A : Type 0} (P : A → Type 0) where
  pub find?-All : (p : A → Bool) (xs : List A) (x : A) → find? p xs ≡ some x → All P xs → P x
  find?-All p [] x h all = cc
  find?-All p (y ∷ ys) x h (first, all) = elim (Bool-cases (p y)) [
    | inl yes_y ↦ let e : y ≡ x = ground (arith, h, yes_y) in subst P e first
    | inr no_y ↦ find?-All p ys x (ground (arith, h, no_y)) all
  ]

-- No row refers to an id that is given to a new one.
pub record IsUnused (version_id fact_id entity_id : ℕ) (db : Db) : Type 0 where
  pub versions : All (λ (f : ContextSnapshotFact). f.fact_version_id ≢ version_id) db.snapshot_facts
  pub facts : All (λ (v : FactVersion). v.fact_id ≢ fact_id) db.versions
  pub entities : All (λ (f : Fact). f.entity_id ≢ entity_id) db.facts

abbrev pub close_in : (FactVersion → FactVersion) → SnapshotFactRow → SnapshotFactRow
close_in g row = record row { version = g row.version }

abbrev pub opt : (FactVersion → FactVersion) → Option FactVersion → Option FactVersion
opt g none = none
opt g (some v) = some (g v)

abbrev pub close_opt : (FactVersion → FactVersion) → Option SnapshotFactRow → Option SnapshotFactRow
close_opt g none = none
close_opt g (some row) = some (close_in g row)

module _ (version_id fact_id entity_id t : ℕ) (db db' : Db) (row : FactVersion)
    (g : FactVersion → FactVersion) (closing : IsClosing t g) (row_id : row.id ≡ version_id)
    (written : db'.versions ≡ row ∷ map g db.versions) (kept : Kept entity_id fact_id db db')
    (unused : IsUnused version_id fact_id entity_id db) where
  abbrev is_version : ℕ → ℕ → FactVersion → Bool
  is_version o i v = v.organization_id == o && v.id == i

  find-closed :
      (o i : ℕ) (vs : List FactVersion)
      → find? (is_version o i) (map g vs) ≡ opt g (find? (is_version o i) vs)
  find-closed o i [] = refl
  find-closed o i (v ∷ vs) =
      ground (arith, closing.organization v, closing.id v, find-closed o i vs)

  version-later : (o i : ℕ) → i ≢ version_id → get_version db' o i ≡ opt g (get_version db o i)
  unfolding get_version
  version-later o i differ =
      let other : (row.id == i) ≡ false = ground (arith, row_id, differ) in
      rw written (ground (arith, other, find-closed o i db.versions))

  fact-later :
      (f : ContextSnapshotFact) (v : FactVersion)
      → get_version db f.organization_id f.fact_version_id ≡ some v
      → get_fact db' (g v).organization_id (g v).fact_id ≡ get_fact db v.organization_id v.fact_id
  unfolding get_version get_fact
  fact-later f v found =
      let old =
        find?-All (λ (x : FactVersion). x.fact_id ≢ fact_id) _ db.versions v found unused.facts in
      rw (closing.organization v) (rw (closing.fact v) (kept.facts v.organization_id v.fact_id old))

  entity-later :
      (v : FactVersion) (fact : Fact)
      → get_fact db v.organization_id v.fact_id ≡ some fact
      → get_entity db' fact.organization_id fact.entity_id
        ≡ get_entity db fact.organization_id fact.entity_id
  unfolding get_fact get_entity
  entity-later v fact found =
      let old =
        find?-All (λ (x : Fact). x.entity_id ≢ entity_id) _ db.facts fact found unused.entities in
      kept.entities fact.organization_id fact.entity_id old

  source-later :
      (v : FactVersion)
      → get_source db' (g v).organization_id (g v).source_id
        ≡ get_source db v.organization_id v.source_id
  unfolding get_source
  source-later v = rw (closing.organization v) (rw (closing.source v) (rw kept.sources refl))

  join-later :
      (f : ContextSnapshotFact)
      → f.fact_version_id ≢ version_id
      → join_row db' f ≡ close_opt g (join_row db f)
  unfolding join_row
  join-later f differ =
      let later = version-later f.organization_id f.fact_version_id differ in
      elim (Option-cases (get_version db f.organization_id f.fact_version_id)) [
        | inl no_version ↦ rw later (rw no_version refl)
        | inr (v, ev) ↦ rw later (
            rw ev (
              rw (fact-later f v ev)
                (elim (Option-cases (get_fact db v.organization_id v.fact_id)) [
                  | inl no_fact ↦ rw no_fact refl
                  | inr (fact, ef) ↦ rw ef (
                      rw (entity-later v fact ef)
                        (elim (Option-cases (get_entity db fact.organization_id fact.entity_id)) [
                          | inl no_entity ↦ rw no_entity refl
                          | inr (entity, ee) ↦ rw ee (
                              rw (source-later v)
                                (elim (Option-cases (get_source db v.organization_id v.source_id)) [
                                  | inl no_source ↦ rw no_source refl
                                  | inr (source, es) ↦ rw es refl
                                ]))
                        ]))
                ])))
      ]

  pub joined-later :
      (fs : List ContextSnapshotFact)
      → All (λ (f : ContextSnapshotFact). f.fact_version_id ≢ version_id) fs
      → join_rows db' fs ≡ map (close_in g) (join_rows db fs)
  unfolding join_rows
  joined-later [] all = refl
  joined-later (f ∷ fs) (differ, all) = rw (join-later f differ) (
      rw (joined-later fs all) (elim (Option-cases (join_row db f)) [
        | inl missing ↦ rw missing refl
        | inr (r, e) ↦ rw e refl
      ]))

  insert-closed :
      (r : SnapshotFactRow) (rows : List SnapshotFactRow)
      → insert_by position_of (close_in g r) (map (close_in g) rows)
        ≡ map (close_in g) (insert_by position_of r rows)
  insert-closed r [] = refl
  insert-closed r (x ∷ xs) = ground (arith, insert-closed r xs)

  pub sorted-closed :
      (rows : List SnapshotFactRow)
      → sort_by position_of (map (close_in g) rows) ≡ map (close_in g) (sort_by position_of rows)
  sorted-closed [] = refl
  sorted-closed (r ∷ rows) =
      ap (insert_by position_of (close_in g r)) (sorted-closed rows)
      ∙ insert-closed r (sort_by position_of rows)

-- The versions of joined rows are rows of their table.
module _ (P : FactVersion → Type 0) (db : Db) (all : All P db.versions) where
  join_row-All :
      (f : ContextSnapshotFact) (r : SnapshotFactRow) → join_row db f ≡ some r → P r.version
  unfolding join_row get_version
  join_row-All f r h = elim (Option-cases (get_version db f.organization_id f.fact_version_id)) [
    | inl no_version ↦ absurd (ground (arith, h))
    | inr (v, ev) ↦
        let p = find?-All P _ db.versions v ev all in
        elim (Option-cases (get_fact db v.organization_id v.fact_id)) [
          | inl no_fact ↦ absurd (ground (arith, h, ev))
          | inr (fact, ef) ↦
              elim (Option-cases (get_entity db fact.organization_id fact.entity_id)) [
                | inl no_entity ↦ absurd (ground (arith, h, ev, ef))
                | inr (entity, ee) ↦
                    elim (Option-cases (get_source db v.organization_id v.source_id)) [
                      | inl no_source ↦ absurd (ground (arith, h, ev, ef, ee))
                      | inr (source, es) ↦
                          let same : v ≡ r.version = ground (arith, h, ev, ef, ee, es) in
                          subst P same p
                    ]
              ]
        ]
  ]

  pub join_rows-All :
      (fs : List ContextSnapshotFact) → All (λ (r : SnapshotFactRow). P r.version) (join_rows db fs)
  unfolding join_rows
  join_rows-All [] = tt
  join_rows-All (f ∷ fs) = elim (Option-cases (join_row db f)) [
    | inl missing ↦ rw missing (join_rows-All fs)
    | inr (r, e) ↦ rw e (join_row-All f r e, join_rows-All fs)
  ]
