-- ===== src/Store.antt =====
-- backend/app/cache/store.py: `MemoryStore`, which has the semantics of the Redis store in one process.
-- A key is a number, a value what the clients encode; the clock reads milliseconds, and each call
-- takes its reading. The lock makes a call one step.
pub mod View
use context_ledger.Base.{
  ℕ, ◌+◌, ◌*◌, ◌-◌, Bool, true, false, Option, none, some, List, [], ◌∷◌, ◌==◌, leb, if◌then◌else◌,
}

-- A value with the time it expires at.
pub record Entry (Bytes : Type 0) : Type 0 where
  pub value : Bytes
  pub expires : ℕ

pub record Counter : Type 0 where
  pub value : ℕ
  pub ttl_ms : ℕ

-- The dictionary: no key stands in it twice.
abbrev pub Data : Type 0 → Type 0
Data Bytes = List (ℕ × Entry Bytes)

module _ {Bytes : Type 0} where
  -- `self._data.get(key)`
  unfoldable pub lookup : ℕ → Data Bytes → Option (Entry Bytes)
  lookup key [] = none
  lookup key ((k, e) ∷ rest) = let found = lookup key rest in if k == key then some e else found

  -- `self._data.pop(key, None)`
  unfoldable pub pop : ℕ → Data Bytes → Data Bytes
  pop key [] = []
  pop key ((k, e) ∷ rest) = let kept = pop key rest in if k == key then kept else (k, e) ∷ kept

  -- `self._data[key] = …`
  unfoldable pub put : ℕ → Entry Bytes → Data Bytes → Data Bytes
  put key e d = (key, e) ∷ pop key d

  unfoldable pub live : ℕ → ℕ → Data Bytes → Option (Entry Bytes) × Data Bytes
  live now key d = elim (lookup key d) [
    | none ↦ (none, d)
    | some e ↦ if leb e.expires now then (none, pop key d) else (some e, d)
  ]

  abbrev pub value_of : Option (Entry Bytes) → Option Bytes
  value_of none = none
  value_of (some e) = some e.value

  unfoldable pub get : ℕ → ℕ → Data Bytes → Option Bytes × Data Bytes
  get now key d = let (entry, d1) = live now key d in (value_of entry, d1)

  abbrev pub is_live : Option (Entry Bytes) → Bool
  is_live none = false
  is_live (some e) = true

  -- `set`, without `only_if_absent`.
  unfoldable pub set : ℕ → ℕ → Bytes → ℕ → Data Bytes → Data Bytes
  set now key value ttl_seconds d =
      put key (record { value = value; expires = now + 1000 * ttl_seconds }) d

  -- `set` with `only_if_absent`: whether the value was written.
  unfoldable pub set_if_absent : ℕ → ℕ → Bytes → ℕ → Data Bytes → Bool × Data Bytes
  set_if_absent now key value ttl_seconds d =
      let (entry, d1) = live now key d in
      if is_live entry then (false, d1) else (true, set now key value ttl_seconds d1)

  unfoldable pub get_and_delete : ℕ → ℕ → Data Bytes → Option Bytes × Data Bytes
  get_and_delete now key d = let (entry, d1) = live now key d in (value_of entry, pop key d1)

  unfoldable pub delete : ℕ → Data Bytes → Data Bytes
  delete key d = pop key d

  -- `increment`, with `str` and `int` of the Python library as arguments.
  unfoldable pub increment :
      (ℕ → Bytes) → (Bytes → ℕ) → ℕ → ℕ → ℕ → Data Bytes → Counter × Data Bytes
  increment str int now key ttl_seconds d =
      let (entry, d1) = live now key d in
      elim entry [
        | none ↦
            let expires = now + 1000 * ttl_seconds in
            (
              record { value = 1; ttl_ms = expires - now },
              put key (record { value = str 1; expires = expires }) d1,
            )
        | some e ↦
            let value = int e.value + 1 in
            (
              record { value = value; ttl_ms = e.expires - now },
              put key (record { value = str value; expires = e.expires }) d1,
            )
      ]
