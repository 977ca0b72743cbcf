-- ===== src/Recording/Rows.antt =====
-- The row that `record_version` inserts, and the row that it closes (backend/app/services/facts.py).
use context_ledger.Base.{
  ℕ, ◌+◌, ◌<◌, ◌≡◌, ◌≢◌, sym, ◌∙◌, ap, Option, none, some, List, [], ◌∷◌, ◌⊎◌, arith, Option-cases,
  inl, inr,
}
use context_ledger.Errors.{ok, >>=-eq-ok}
use context_ledger.Roles.{TenantContext}
use context_ledger.Db.{Db, Entity, Fact}
use context_ledger.Facts.{ValidityWindow, LatestVersion, VersionPlan, check_end, plan_new_version}
use context_ledger.Versions.{FactVersion}
use context_ledger.Temporal.Chain.{IsChain, Follows, EndFits, ClosedBy}
use context_ledger.Recording.{
  Command, Supply, of_fact, latest_version, close_row, close_version, close_previous, latest_view,
  next_transaction_time, new_version, append_version,
}
use context_ledger.Recording.Steps.{UniqueIds, of_fact-close, close-older}

-- An end that the newest version has was learned when that version was recorded.
abbrev pub OwnEnd : ℕ → Option ℕ → Option ℕ → Type 0
OwnEnd recorded (some u) (some r) = r ≡ recorded
OwnEnd recorded none none = Unit
OwnEnd recorded _ _ = ⊥

abbrev pub IsHistory : List FactVersion → Type 0
IsHistory [] = Unit
IsHistory (v ∷ older) =
    OwnEnd v.recorded_at v.valid_until v.valid_until_recorded_at × IsChain (v ∷ older)

-- No id twice, and the versions of every fact form a history.
pub record IsTable (vs : List FactVersion) : Type 0 where
  pub unique : UniqueIds vs
  pub histories : (o f : ℕ) → IsHistory (of_fact o f vs)

-- The end of a window lies after its start.
abbrev pub IsWindow : ValidityWindow → Type 0
IsWindow w = EndFits w.valid_from 0 w.valid_until w.valid_until

pub of_fact-new :
    (o f id : ℕ) (c : Command) (w : ValidityWindow) (obs n a : ℕ) (latest : Option FactVersion)
    (t : ℕ) (vs : List FactVersion)
    → of_fact o f (new_version o id f c w obs n a latest t ∷ vs)
      ≡ new_version o id f c w obs n a latest t ∷ of_fact o f vs
unfolding of_fact new_version
of_fact-new o f id c w obs n a latest t vs = ground arith

pub of_fact-new_other :
    (o f o' f' id : ℕ) (c : Command) (w : ValidityWindow) (obs n a : ℕ)
    (latest : Option FactVersion) (t : ℕ) (vs : List FactVersion)
    → (o' ≢ o) ⊎ (f' ≢ f)
    → of_fact o' f' (new_version o id f c w obs n a latest t ∷ vs) ≡ of_fact o' f' vs
unfolding of_fact new_version
of_fact-new_other o f o' f' id c w obs n a latest t vs ne = ground arith

-- The newest version once its end, if the plan sets one, is written.
unfoldable pub close_head : ℕ → Option ℕ → ℕ → FactVersion → FactVersion
close_head o none t v = v
close_head o (some u) t v = close_row o v.id u t v

pub of_fact-close_previous :
    (o f t : ℕ) (close_at : Option ℕ) (v : FactVersion) (older vs : List FactVersion)
    → of_fact o f vs ≡ v ∷ older
    → IsChain (v ∷ older)
    → of_fact o f (close_previous o (some v) close_at t vs) ≡ close_head o close_at t v ∷ older
unfolding close_previous close_head
of_fact-close_previous o f t none v older vs e h = e
of_fact-close_previous o f t (some u) v older vs e h =
    of_fact-close o f o v.id u t vs
    ∙ rw e (
        unfold close_version in
        ap (λ r. close_row o v.id u t v ∷ r)
          (unfold close_version in close-older v older o v.id u t h))

pub first-IsHistory :
    (o f id : ℕ) (c : Command) (w : ValidityWindow) (obs a t : ℕ) (plan : VersionPlan)
    → plan_new_version none w ≡ ok plan
    → IsWindow w
    → IsHistory (new_version o id f c w obs plan.version a none t ∷ [])
unfolding new_version plan_new_version
first-IsHistory o f id c w obs a t plan p ww = ground arith

Follows-close_head :
    (o : ℕ) (close_at : Option ℕ) (t : ℕ) (v : FactVersion) (older : List FactVersion)
    → Follows v older
    → Follows (close_head o close_at t v) older
unfolding close_head close_row
Follows-close_head o none t v older h = h
Follows-close_head o (some u) t v [] h = ground arith
Follows-close_head o (some u) t v (w ∷ older) h = ground arith

time_later : (clock : ℕ) (v : FactVersion) → v.recorded_at < next_transaction_time clock (some v)
unfolding next_transaction_time
time_later clock v = ground arith

-- What the plan makes of the newest version.
closed_head :
    (o t : ℕ) (w : ValidityWindow) (plan : VersionPlan) (l : LatestVersion) (v : FactVersion)
    → OwnEnd v.recorded_at v.valid_until v.valid_until_recorded_at
    → EndFits v.valid_from v.recorded_at v.valid_until v.valid_until_recorded_at
    → v.organization_id ≡ o
    → latest_view (some v) ≡ ok (some l)
    → plan_new_version (some l) w ≡ ok plan
    → v.recorded_at < t
    → let v' = close_head o plan.close_previous_at t v in
      (plan.version ≡ v'.version + 1)
      × (v'.id ≡ v.id)
      × (v'.valid_from < w.valid_from)
      × (v'.recorded_at < t)
      × ClosedBy w.valid_from t v'.valid_until v'.valid_until_recorded_at
      × EndFits v'.valid_from v'.recorded_at v'.valid_until v'.valid_until_recorded_at
unfolding plan_new_version latest_view check_end close_head close_row
closed_head o t w plan l v own fits at lv p later = elim (Option-cases v.valid_until) [
  | inl e ↦ ground arith
  | inr (u, e) ↦ ground arith
]

new-fits :
    (o f id : ℕ) (c : Command) (w : ValidityWindow) (obs n a : ℕ) (latest : Option FactVersion)
    (t : ℕ)
    → IsWindow w
    → let r = new_version o id f c w obs n a latest t in
      OwnEnd r.recorded_at r.valid_until r.valid_until_recorded_at
      × EndFits r.valid_from r.recorded_at r.valid_until r.valid_until_recorded_at
unfolding new_version
new-fits o f id c w obs n a latest t ww = elim (Option-cases w.valid_until) [
  | inl e ↦ ground arith
  | inr (u, e) ↦ ground arith
]

pub next-IsHistory :
    (o f id : ℕ) (c : Command) (w : ValidityWindow) (obs a clock : ℕ) (plan : VersionPlan)
    (l : LatestVersion) (v : FactVersion) (older : List FactVersion)
    → IsHistory (v ∷ older)
    → v.organization_id ≡ o
    → latest_view (some v) ≡ ok (some l)
    → plan_new_version (some l) w ≡ ok plan
    → IsWindow w
    → let t = next_transaction_time clock (some v) in
      IsHistory (
        new_version o id f c w obs plan.version a (some v) t
        ∷ close_head o plan.close_previous_at t v
        ∷ older)
next-IsHistory o f id c w obs a clock plan l v older (own, (fits, follows, rest)) at lv p ww =
    let t = next_transaction_time clock (some v) in
    let (own', fits') = new-fits o f id c w obs plan.version a (some v) t ww in
    let (number, same, starts, recorded, closed, ends) =
      closed_head o t w plan l v own fits at lv p (time_later clock v) in
    (
      own',
      (
        fits',
        unfold new_version in (number, ap some (sym same), starts, recorded, closed),
        (ends, Follows-close_head o plan.close_previous_at t v older follows, rest),
      ),
    )

module _ (db db' : Db) (ctx : TenantContext) (s : Supply) (c : Command) (w : ValidityWindow)
    (obs a : ℕ) (e : Entity) (f : Fact) (row : FactVersion)
    (done : append_version db ctx s c w obs a e f ≡ ok (row, db')) where
  -- The parts of a write that succeeded.
  abbrev pub latest : Option FactVersion
  latest = latest_version ctx.organization_id f.id db.versions

  abbrev pub time : ℕ
  time = next_transaction_time s.clock latest

  pub append_parts :
      (view : Option LatestVersion) × (plan : VersionPlan) × (latest_view latest ≡ ok view)
      × (plan_new_version view w ≡ ok plan)
      × (row ≡ new_version ctx.organization_id s.version_id f.id c w obs plan.version a latest time)
      × (db'.versions
          ≡ row ∷ close_previous ctx.organization_id latest plan.close_previous_at time db.versions)
  unfolding append_version
  append_parts =
      let (view, ev, rest) = >>=-eq-ok (latest_view latest) _ done in
      let (plan, ep, last) = >>=-eq-ok (plan_new_version view w) _ rest in
      (view, plan, ev, ep, ground arith, ground arith)
