-- ===== src/Recording/Keeps.antt =====
-- Recording a version keeps the table of versions well formed (backend/app/services/facts.py).
use context_ledger.Base.{
  ℕ, ◌<◌, ◌≡◌, ◌≢◌, refl, ◌∙◌, ap, ◌&&◌, Option, none, some, List, [], ◌∷◌, ◌==◌, ◌⊎◌, All, arith,
  Bool-cases, inl, inr,
}
use context_ledger.Errors.{ok, >>=-eq-ok}
use context_ledger.Roles.{TenantContext}
use context_ledger.Facts.{ValidityWindow, LatestVersion, VersionPlan, check_end, plan_new_version}
use context_ledger.Versions.{FactVersion}
use context_ledger.Temporal.{known_versions}
use context_ledger.Temporal.Resolve.{snapshots}
use context_ledger.Db.{Db, Entity, Fact}
use context_ledger.Recording.{
  Command, Supply, of_fact, latest_version, close_previous, latest_view, next_transaction_time,
  new_version, append_version,
}
use context_ledger.Recording.Steps.{
  UniqueIds, All-of_fact, All-close, close-UniqueIds, latest-chain, close-other,
}
use context_ledger.Recording.Past.{past_first, past_next}
use context_ledger.Recording.Rows.{
  IsHistory, IsTable, IsWindow, of_fact-new, of_fact-new_other, of_fact-close_previous,
  first-IsHistory, next-IsHistory, append_parts,
}

-- The id is no row's.
abbrev pub IsFresh : ℕ → List FactVersion → Type 0
IsFresh i vs = All (λ (w : FactVersion). w.id ≢ i) vs

latest-none : (o f : ℕ) (vs : List FactVersion) → of_fact o f vs ≡ [] → latest_version o f vs ≡ none
unfolding latest_version
latest-none o f vs e = rw e

close_previous-IsFresh :
    (o t i : ℕ) (latest : Option FactVersion) (close_at : Option ℕ) (vs : List FactVersion)
    → IsFresh i vs
    → IsFresh i (close_previous o latest close_at t vs)
unfolding close_previous
close_previous-IsFresh o t i none close_at vs h = h
close_previous-IsFresh o t i (some v) none vs h = h
close_previous-IsFresh o t i (some v) (some u) vs h = All-close i o v.id u t vs h

close_previous-UniqueIds :
    (o t : ℕ) (latest : Option FactVersion) (close_at : Option ℕ) (vs : List FactVersion)
    → UniqueIds vs
    → UniqueIds (close_previous o latest close_at t vs)
unfolding close_previous
close_previous-UniqueIds o t none close_at vs h = h
close_previous-UniqueIds o t (some v) none vs h = h
close_previous-UniqueIds o t (some v) (some u) vs h = close-UniqueIds o v.id u t vs h

close_previous-other :
    (o f o' f' t : ℕ) (close_at : Option ℕ) (w : FactVersion) (older vs : List FactVersion)
    → UniqueIds vs
    → of_fact o f vs ≡ w ∷ older
    → (o' ≢ o) ⊎ (f' ≢ f)
    → of_fact o' f' (close_previous o (some w) close_at t vs) ≡ of_fact o' f' vs
unfolding close_previous
close_previous-other o f o' f' t none w older vs h e ne = refl
close_previous-other o f o' f' t (some u) w older vs h e ne =
    close-other o f o' f' u t w older vs h e ne

-- The versions of the fact and of any other fact after a write.
pub record Written (o f : ℕ) (row : FactVersion) (vs vs' : List FactVersion) : Type 0 where
  pub at_fact : IsHistory (of_fact o f vs')
  pub at_other : (o' f' : ℕ) → (o' ≢ o) ⊎ (f' ≢ f) → of_fact o' f' vs' ≡ of_fact o' f' vs
  pub past :
      (k : ℕ)
      → k < row.recorded_at
      → known_versions (snapshots (of_fact o f vs')) (some k)
        ≡ known_versions (snapshots (of_fact o f vs)) (some k)

Written-IsHistory :
    (o f : ℕ) (row : FactVersion) (vs vs' : List FactVersion)
    → Written o f row vs vs'
    → IsTable vs
    → (o' f' : ℕ) → IsHistory (of_fact o' f' vs')
Written-IsHistory o f row vs vs' wr table o' f' = elim (Bool-cases (o' == o && f' == f)) [
  | inl same ↦
      let eo : o' ≡ o = ground arith in let ef : f' ≡ f = ground arith in rw (eo, ef) wr.at_fact
  | inr other ↦ rw (wr.at_other o' f' (ground arith)) (table.histories o' f')
]

view_some :
    (v : FactVersion) (view : Option LatestVersion)
    → latest_view (some v) ≡ ok view
    → (l : LatestVersion) × (view ≡ some l)
unfolding latest_view
view_some v none h = absurd (ground (arith, >>=-eq-ok (check_end v.valid_from v.valid_until) _ h))
view_some v (some l) h = (l, refl)

view_none : (view : Option LatestVersion) → latest_view none ≡ ok view → view ≡ none
unfolding latest_view
view_none view h = ground arith

module _ (o f : ℕ) (s : Supply) (c : Command) (w : ValidityWindow) (obs a : ℕ)
    (vs : List FactVersion) (plan : VersionPlan) (window : IsWindow w) (unique : UniqueIds vs) where
  -- The new row after the latest version, and the table with it.
  abbrev row_after : Option FactVersion → FactVersion
  row_after latest =
      new_version o s.version_id f c w obs plan.version a latest
        (next_transaction_time s.clock latest)

  abbrev table_after : Option FactVersion → List FactVersion
  table_after latest =
      row_after latest
      ∷ close_previous o latest plan.close_previous_at (next_transaction_time s.clock latest) vs

  first-Written :
      of_fact o f vs ≡ []
      → plan_new_version none w ≡ ok plan
      → Written o f (row_after none) vs (table_after none)
  first-Written e p = record {
    at_fact = rw of_fact-new (
        unfold close_previous in rw e (first-IsHistory o f s.version_id c w obs a _ plan p window));
    at_other = λ o' f' ne.
        unfold close_previous in
        of_fact-new_other o f o' f' s.version_id c w obs plan.version a none _ _ ne;
    past =
        λ k lt. rw of_fact-new (unfold close_previous in rw e (past_first k (row_after none) lt));
  }

  next-Written :
      (v : FactVersion) (older : List FactVersion) (l : LatestVersion)
      → of_fact o f vs ≡ v ∷ older
      → IsHistory (v ∷ older)
      → latest_view (some v) ≡ ok (some l)
      → plan_new_version (some l) w ≡ ok plan
      → Written o f (row_after (some v)) vs (table_after (some v))
  next-Written v older l e h lv p =
      let t = next_transaction_time s.clock (some v) in
      let here : All (λ (x : FactVersion). (x.organization_id ≡ o) × (x.fact_id ≡ f)) (v ∷ older) =
        rw e at (All-of_fact o f vs) in
      let closed = of_fact-close_previous o f t plan.close_previous_at v older vs e h.1 in
      let hist =
        next-IsHistory o f s.version_id c w obs a s.clock plan l v older h here.0.0 lv p window in
      record {
        at_fact = rw of_fact-new (rw closed hist);
        at_other = λ o' f' ne.
            of_fact-new_other o f o' f' s.version_id c w obs plan.version a (some v) _ _ ne
            ∙ close_previous-other o f o' f' t plan.close_previous_at v older vs unique e ne;
        past = λ k lt. rw of_fact-new (
            rw (closed, e)
              (unfold new_version in
                past_next o k plan.close_previous_at (row_after (some v)) v older h.1
                  (unfold new_version in hist.1) lt));
      }

  pub any-Written :
      (xs : List FactVersion) (view : Option LatestVersion)
      → of_fact o f vs ≡ xs
      → IsHistory xs
      → latest_view (latest_version o f vs) ≡ ok view
      → plan_new_version view w ≡ ok plan
      → Written o f (row_after (latest_version o f vs)) vs (table_after (latest_version o f vs))
  any-Written [] view e h ev ep =
      let n = latest-none o f vs e in
      let ev' : latest_view none ≡ ok view = rw n at ev in
      rw n (first-Written e (rw (view_none view ev') at ep))
  any-Written (v ∷ older) view e h ev ep =
      let n = latest-chain o f v older vs e h.1 in
      let ev' : latest_view (some v) ≡ ok view = rw n at ev in
      let (l, el) = view_some v view ev' in
      rw n (next-Written v older l e h (ev' ∙ ap ok el) (rw el at ep))

module _ (db db' : Db) (ctx : TenantContext) (s : Supply) (c : Command) (w : ValidityWindow)
    (obs a : ℕ) (e : Entity) (f : Fact) (row : FactVersion)
    (done : append_version db ctx s c w obs a e f ≡ ok (row, db')) (window : IsWindow w)
    (table : IsTable db.versions) where
  pub append-Written : Written ctx.organization_id f.id row db.versions db'.versions
  append-Written =
      let (view, plan, ev, ep, er, ed) = append_parts db db' ctx s c w obs a e f row done in
      let o = ctx.organization_id in
      rw (ed, er)
        (any-Written o f.id s c w obs a db.versions plan window table.unique
          (of_fact o f.id db.versions) view refl (table.histories o f.id) ev ep)

  pub append-IsTable : IsFresh s.version_id db.versions → IsTable db'.versions
  append-IsTable fresh =
      let (view, plan, ev, ep, er, ed) = append_parts db db' ctx s c w obs a e f row done in
      let o = ctx.organization_id in
      record {
        unique =
            rw (ed, er)
              (unfold new_version in
                (
                  close_previous-IsFresh o _ _ _ _ db.versions fresh,
                  close_previous-UniqueIds o _ _ _ db.versions table.unique,
                ));
        histories = Written-IsHistory o f.id row db.versions db'.versions append-Written table;
      }
