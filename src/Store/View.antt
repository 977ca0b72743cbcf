-- ===== src/Store/View.antt =====
-- What a reader of the store sees at a time, and what each operation does to it
-- (backend/app/cache/store.py).
use context_ledger.Base.{
  ℕ, ◌+◌, ◌*◌, ◌≤◌, ◌≡◌, true, Option, none, some, [], ◌∷◌, not, ◌&&◌, ◌==◌, ==→≡, ltb, leb,
  if◌then◌else◌, Option-cases, arith, inl, inr,
}
use context_ledger.Store.{
  Entry, Data, lookup, pop, put, live, value_of, set, set_if_absent, is_live, get_and_delete,
}

module _ {Bytes : Type 0} where
  -- The entry of a key that has not expired at a time.
  abbrev pub unexpired : ℕ → Option (Entry Bytes) → Option (Entry Bytes)
  unexpired t none = none
  unexpired t (some e) = if leb e.expires t then none else some e

  -- What a key is bound to at a time.
  unfoldable pub view : ℕ → ℕ → Data Bytes → Option (Entry Bytes)
  view t key d = unexpired t (lookup key d)

  pub lookup-pop :
      (key other : ℕ) (d : Data Bytes)
      → lookup other (pop key d) ≡ (if key == other then none else lookup other d)
  unfolding lookup pop
  lookup-pop key other [] = ground arith
  lookup-pop key other ((k, e) ∷ rest) = ground (arith, lookup-pop key other rest)

  pub view-pop :
      (t key other : ℕ) (d : Data Bytes)
      → view t other (pop key d) ≡ (if key == other then none else view t other d)
  unfolding view
  view-pop t key other d = rw (lookup-pop key other d) (ground arith)

  pub view-put :
      (t key other : ℕ) (e : Entry Bytes) (d : Data Bytes)
      → view t other (put key e d) ≡ (if key == other then unexpired t (some e) else view t other d)
  unfolding view put lookup
  view-put t key other e d = rw (lookup-pop key other d) (ground arith)

  -- `_live` answers the view, and what it drops had expired.
  pub live-eq-view : (now key : ℕ) (d : Data Bytes) → (live now key d).0 ≡ view now key d
  unfolding live view
  live-eq-view now key d = elim (Option-cases (lookup key d)) [
    | inl e ↦ ground arith
    | inr (u, e) ↦ ground arith
  ]

  pub view-live :
      (now t key other : ℕ) (d : Data Bytes)
      → now ≤ t
      → view t other (live now key d).1 ≡ view t other d
  unfolding live view
  view-live now t key other d le = elim (Option-cases (lookup key d)) [
    | inl e ↦ ground arith
    | inr (u, e) ↦ ground (arith, lookup-pop key other d)
  ]

  -- An unexpired entry survives every `_live` before its time.
  pub lookup-live :
      (now key other : ℕ) (d : Data Bytes) (e : Entry Bytes)
      → lookup other d ≡ some e
      → ltb now e.expires ≡ true
      → lookup other (live now key d).1 ≡ some e
  unfolding live
  lookup-live now key other d e held before = elim (Option-cases (lookup key d)) [
    | inl none_found ↦ ground arith
    | inr (u, found) ↦ ground (arith, lookup-pop key other d)
  ]

  pub live-lookup :
      (now key : ℕ) (d : Data Bytes) (e : Entry Bytes)
      → lookup key d ≡ some e
      → ltb now e.expires ≡ true
      → (live now key d).0 ≡ some e
  unfolding live
  live-lookup now key d e held before = ground arith

  pub live-held :
      (now key other : ℕ) (d : Data Bytes) (e : Entry Bytes)
      → lookup other d ≡ some e
      → ltb now e.expires ≡ true
      → (key == other) ≡ true
      → is_live (live now key d).0 ≡ true
  unfolding live
  live-held now key other d e held before same = ground (arith, ==→≡ key other same)

  pub lookup-put :
      (key other : ℕ) (e : Entry Bytes) (d : Data Bytes)
      → lookup other (put key e d) ≡ (if key == other then some e else lookup other d)
  unfolding lookup put
  lookup-put key other e d = ground (arith, lookup-pop key other d)

  -- Reserving a key: it is written exactly if it was not bound, and no other key is touched.
  pub set_if_absent-view :
      (now t key other ttl : ℕ) (value : Bytes) (d : Data Bytes)
      → now ≤ t
      → ((set_if_absent now key value ttl d).0 ≡ not (is_live (view now key d)))
        × (view t other (set_if_absent now key value ttl d).1 ≡ (
            if key == other && not (is_live (view now key d))
            then unexpired t (some (record { value = value; expires = now + 1000 * ttl }))
            else view t other d))
  unfolding set_if_absent set
  set_if_absent-view now t key other ttl value d le = ground (
    arith,
    live-eq-view now key d,
    view-live now t key other d le,
    view-put t key other (record { value = value; expires = now + 1000 * ttl }) (live now key d).1,
  )

  -- A single-use value: taken, it is gone for every later reader, and no other key is touched.
  pub get_and_delete-view :
      (now t key other : ℕ) (d : Data Bytes)
      → now ≤ t
      → ((get_and_delete now key d).0 ≡ value_of (view now key d))
        × (view t other (get_and_delete now key d).1
            ≡ (if key == other then none else view t other d))
  unfolding get_and_delete
  get_and_delete-view now t key other d le = ground (
    arith,
    live-eq-view now key d,
    view-live now t key other d le,
    view-pop t key other (live now key d).1,
  )
