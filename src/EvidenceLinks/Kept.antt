-- ===== src/EvidenceLinks/Kept.antt =====
-- Links are only added (backend/app/services/evidence.py).
use context_ledger.Base.{
  ℕ, ◌≡◌, sym, ap, ◌∙◌, refl, not, List, [], ◌∷◌, ◌++◌, length, length-append, All, any, ◌==◌, ◌&&◌,
  Bool-cases, Option-cases, arith, inl, inr,
}
use context_ledger.Errors.{ok, >>=-elim, >>-elim, not_found}
use context_ledger.Roles.{TenantContext}
use context_ledger.Db.{Db, EvidenceRelation, FactVersionEvidence}
use context_ledger.EvidenceLinks.{
  is_none, get_version, has_evidence, get_link, insert_link, link_one, link_each, link_unique,
  link_some, link_evidence, unique_from,
}

-- A link of the version that this caller made with this relation.
abbrev pub IsNew : TenantContext → ℕ → EvidenceRelation → FactVersionEvidence → Type 0
IsNew ctx version_id relation l =
    (l.organization_id ≡ ctx.organization_id)
    × (l.fact_version_id ≡ version_id)
    × (l.relation ≡ relation)
    × (l.linked_by_user_id ≡ ctx.user_id)

-- The links after, with the number reported: as many new ones in front of those before.
abbrev pub Added :
    TenantContext
    → ℕ
    → EvidenceRelation
    → ℕ
    → List FactVersionEvidence
    → List FactVersionEvidence
    → Type 0
Added ctx version_id relation n before after =
    (new : List FactVersionEvidence) × (after ≡ new ++ before)
    × (length new ≡ n)
    × All (IsNew ctx version_id relation) new

module _ (ctx : TenantContext) (version_id : ℕ) (relation : EvidenceRelation) where
  link_one-Added :
      (i n : ℕ) (links links' : List FactVersionEvidence)
      → link_one ctx version_id relation i links ≡ ok (n, links')
      → Added ctx version_id relation n links links'
  unfolding insert_link
  link_one-Added i n links links' h =
      let row : FactVersionEvidence = record {
        organization_id = ctx.organization_id;
        fact_version_id = version_id;
        evidence_id = i;
        relation = relation;
        linked_by_user_id = ctx.user_id;
      } in
      elim (Option-cases (get_link links ctx.organization_id version_id i)) [
        | inr (l, e) ↦ ([], ground arith, ground arith, tt)
        | inl e ↦
            elim (Bool-cases (
              any
                (λ (l : FactVersionEvidence). l.fact_version_id == version_id && l.evidence_id == i)
                links)) [
                  | inl there ↦ ([], ground arith, ground arith, tt)
                  | inr free ↦
                      (row ∷ [], ground arith, ground arith, ((refl, refl, refl, refl), tt))
                ]
      ]

  All-append :
      (xs ys : List FactVersionEvidence)
      → All (IsNew ctx version_id relation) xs
      → All (IsNew ctx version_id relation) ys
      → All (IsNew ctx version_id relation) (xs ++ ys)
  All-append [] ys all_xs all_ys = all_ys
  All-append (x ∷ xs) ys (first, all_xs) all_ys = (first, All-append xs ys all_xs all_ys)

  append_assoc : (xs ys zs : List FactVersionEvidence) → (xs ++ ys) ++ zs ≡ xs ++ (ys ++ zs)
  append_assoc [] ys zs = refl
  append_assoc (x ∷ xs) ys zs = rw (append_assoc xs ys zs) refl

  link_each-Added :
      (ids : List ℕ) (n : ℕ) (links links' : List FactVersionEvidence)
      → link_each ctx version_id relation ids links ≡ ok (n, links')
      → Added ctx version_id relation n links links'
  unfolding link_each
  link_each-Added [] n links links' h = ([], ground arith, ground arith, tt)
  link_each-Added (i ∷ ids) n links links' h =
      >>=-elim (link_one ctx version_id relation i links) _ h (λ p one h1.
        >>=-elim (link_each ctx version_id relation ids p.1) _ h1 (λ q more h2.
          let the_links : links' ≡ q.1 = ground arith in
          let (new1, e1, n1, all1) = link_one-Added i p.0 links p.1 one in
          let (new2, e2, n2, all2) = link_each-Added ids q.0 p.1 q.1 more in
          (
            new2 ++ new1,
            the_links ∙ e2 ∙ ap (λ xs. new2 ++ xs) e1 ∙ sym (append_assoc new2 new1 links),
            length-append new2 new1 ∙ ground arith,
            All-append new2 new1 all2 all1,
          )))

-- If linking evidence succeeds, the links before are all kept as they are, behind as many new ones
-- as it reports, each of the version, with the relation and the caller given; nothing else of the
-- database changes.
pub link_evidence-Added :
    (db db' : Db) (ctx : TenantContext) (version_id n : ℕ) (ids : List ℕ)
    (relation : EvidenceRelation)
    → link_evidence db ctx version_id ids relation ≡ ok (n, db')
    → Added ctx version_id relation n db.links db'.links × (db' ≡ record db { links = db'.links })
unfolding link_evidence link_some link_unique
link_evidence-Added db db' ctx version_id n ids relation h = some_ids (unique_from [] ids) h
  where
    some_ids :
        (unique : List ℕ)
        → link_some db ctx version_id unique relation ≡ ok (n, db')
        → Added ctx version_id relation n db.links db'.links
          × (db' ≡ record db { links = db'.links })
    some_ids [] h' = (([], ground arith, ground arith, tt), ground arith)
    some_ids (i ∷ rest) h' =
        >>-elim (is_none (get_version db ctx.organization_id version_id)) not_found _ h'
          (λ found h1.
            >>-elim (any (λ j. not (has_evidence db ctx.organization_id j)) (i ∷ rest)) not_found _
              h1
              (λ present h2.
                >>=-elim (link_each ctx version_id relation (i ∷ rest) db.links) _ h2 (λ q each h3.
                  let same : db' ≡ record db { links = q.1 } = ground arith in
                  rw same (
                    link_each-Added ctx version_id relation (i ∷ rest) n db.links q.1
                        (ground arith),
                    refl,
                  ))))
