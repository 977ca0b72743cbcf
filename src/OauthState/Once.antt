-- ===== src/OauthState/Once.antt =====
-- A state is good once (backend/app/cache/oauth_state.py).
use Prim.Native.String.{String}
use Prim.Native.String.{count as str_length}
use context_ledger.Base.{
  ℕ, ◌+◌, ◌*◌, ◌<◌, ◌≡◌, ◌≢◌, refl, ◌∙◌, false, ◌||◌, none, some, List, [], ◌∷◌, All, ◌==◌, ==_refl,
  ==→≡, ltb, arith, Option-cases, inl, inr,
}
use context_ledger.Store.{Data, Entry, lookup, put, live, set, get_and_delete}
use context_ledger.Store.View.{lookup-pop, lookup-put, live-lookup}
use context_ledger.OauthState.{max_state, issue, consume}

-- What others do in between.
pub data StateStep (Payload : Type 0) : Type 0 where
  issues : (now : ℕ) (state : String) (payload : Payload) → StateStep Payload
  consumes : (now : ℕ) (state : String) → StateStep Payload

module _ {Payload : Type 0} (key_of : String → ℕ) (ttl_seconds : ℕ) where
  unfoldable pub state_step : StateStep Payload → Data Payload → Data Payload
  state_step (issues now state payload) d = issue key_of ttl_seconds now state payload d
  state_step (consumes now state) d = (consume key_of ttl_seconds now state d).1

  unfoldable pub state_steps : List (StateStep Payload) → Data Payload → Data Payload
  state_steps [] d = d
  state_steps (s ∷ ss) d = state_steps ss (state_step s d)

  -- The step does not issue a state of this key.
  abbrev pub IsOther : ℕ → StateStep Payload → Type 0
  IsOther key (issues now state payload) = key_of state ≢ key
  IsOther key (consumes now state) = Unit {0}

  -- The step neither issues nor consumes a state of this key.
  abbrev pub IsApart : ℕ → StateStep Payload → Type 0
  IsApart key (issues now state payload) = key_of state ≢ key
  IsApart key (consumes now state) = key_of state ≢ key

  live-apart :
      (now key other : ℕ) (d : Data Payload)
      → other ≢ key
      → lookup key (live now other d).1 ≡ lookup key d
  unfolding live
  live-apart now key other d differ = elim (Option-cases (lookup other d)) [
    | inl e ↦ ground arith
    | inr (x, e) ↦ ground (arith, lookup-pop other key d, ==→≡ other key)
  ]

  step-apart :
      (key : ℕ) (s : StateStep Payload) (d : Data Payload)
      → IsApart key s
      → lookup key (state_step s d) ≡ lookup key d
  unfolding state_step issue consume set get_and_delete
  step-apart key (issues now state payload) d differ = ground (
    arith,
    differ,
    ==→≡ (key_of state) key,
    lookup-put (key_of state) key (record { value = payload; expires = now + 1000 * ttl_seconds })
        d,
  )
  step-apart key (consumes now state) d differ = ground (
    arith,
    differ,
    ==→≡ (key_of state) key,
    live-apart now key (key_of state) d differ,
    lookup-pop (key_of state) key (live now (key_of state) d).1,
  )

  steps-apart :
      (key : ℕ) (ss : List (StateStep Payload)) (d : Data Payload)
      → All (IsApart key) ss
      → lookup key (state_steps ss d) ≡ lookup key d
  unfolding state_steps
  steps-apart key [] d all = refl
  steps-apart key (s ∷ ss) d (apart, all) =
      steps-apart key ss (state_step s d) all ∙ step-apart key s d apart

  -- Nothing under the key can be consumed.
  live-absent :
      (now key other : ℕ) (d : Data Payload)
      → lookup key d ≡ none
      → lookup key (live now other d).1 ≡ none
  unfolding live
  live-absent now key other d gone = elim (Option-cases (lookup other d)) [
    | inl e ↦ ground (arith, gone)
    | inr (x, e) ↦ ground (arith, gone, lookup-pop other key d)
  ]

  step-absent :
      (key : ℕ) (s : StateStep Payload) (d : Data Payload)
      → IsOther key s
      → lookup key d ≡ none
      → lookup key (state_step s d) ≡ none
  unfolding state_step issue consume set get_and_delete
  step-absent key (issues now state payload) d differ gone = ground (
    arith,
    gone,
    differ,
    ==→≡ (key_of state) key,
    lookup-put (key_of state) key (record { value = payload; expires = now + 1000 * ttl_seconds })
        d,
  )
  step-absent key (consumes now state) d other gone = ground (
    arith,
    gone,
    live-absent now key (key_of state) d gone,
    lookup-pop (key_of state) key (live now (key_of state) d).1,
  )

  steps-absent :
      (key : ℕ) (ss : List (StateStep Payload)) (d : Data Payload)
      → All (IsOther key) ss
      → lookup key d ≡ none
      → lookup key (state_steps ss d) ≡ none
  unfolding state_steps
  steps-absent key [] d others gone = gone
  steps-absent key (s ∷ ss) d (other, others) gone =
      steps-absent key ss (state_step s d) others (step-absent key s d other gone)

  consume-absent :
      (now : ℕ) (state : String) (d : Data Payload)
      → lookup (key_of state) d ≡ none
      → (consume key_of ttl_seconds now state d).0 ≡ none
  unfolding consume get_and_delete live
  consume-absent now state d gone = ground (arith, gone)

  consumed-gone :
      (now : ℕ) (state : String) (d : Data Payload)
      → (str_length state == 0 || ltb max_state (str_length state)) ≡ false
      → lookup (key_of state) (consume key_of ttl_seconds now state d).1 ≡ none
  unfolding consume get_and_delete
  consumed-gone now state d fits = rw fits (
      rw (lookup-pop (key_of state) (key_of state) (live now (key_of state) d).1)
        (rw (==_refl (key_of state)) refl))

  issued :
      (now then_now : ℕ) (state : String) (payload : Payload) (d : Data Payload)
      → (str_length state == 0 || ltb max_state (str_length state)) ≡ false
      → then_now < now + 1000 * ttl_seconds
      → (ss : List (StateStep Payload)) → All (IsApart (key_of state)) ss
      → let d1 = state_steps ss (issue key_of ttl_seconds now state payload d) in
        (consume key_of ttl_seconds then_now state d1).0 ≡ some payload
  unfolding consume issue set get_and_delete
  issued now then_now state payload d fits early ss apart =
      let e : Entry Payload = record { value = payload; expires = now + 1000 * ttl_seconds } in
      let put_it = put (key_of state) e d in
      let found =
        live-lookup then_now (key_of state) (state_steps ss put_it) e
          (steps-apart (key_of state) ss put_it apart
            ∙ rw (lookup-put (key_of state) (key_of state) e d) (rw (==_refl (key_of state)) refl))
          (ground arith) in
      rw fits (rw found refl)

-- A state of 1 to 512 characters that was issued with a payload gives it to the first who consumes it
-- before it expires, whatever was issued or consumed under other keys since, and then to nobody:
-- whatever is issued or consumed afterwards, at whatever times, other than issuing under the same key
-- again, consuming it once more gives nothing.
pub consume_once :
    {Payload : Type 0} (key_of : String → ℕ) (ttl_seconds now then_now last : ℕ) (state : String)
    (payload : Payload) (d : Data Payload) (before ss : List (StateStep Payload))
    → (str_length state == 0 || ltb max_state (str_length state)) ≡ false
    → then_now < now + 1000 * ttl_seconds
    → All (IsApart key_of ttl_seconds (key_of state)) before
    → All (IsOther key_of ttl_seconds (key_of state)) ss
    → let d1 =
        state_steps key_of ttl_seconds before (issue key_of ttl_seconds now state payload d) in
      let (given, d2) = consume key_of ttl_seconds then_now state d1 in
      (given ≡ some payload)
      × ((consume key_of ttl_seconds last state (state_steps key_of ttl_seconds ss d2)).0 ≡ none)
consume_once key_of ttl_seconds now then_now last state payload d before ss fits early apart
      others =
    let d1 = state_steps key_of ttl_seconds before (issue key_of ttl_seconds now state payload d) in
    let d2 = (consume key_of ttl_seconds then_now state d1).1 in
    (
      issued key_of ttl_seconds now then_now state payload d fits early before apart,
      consume-absent key_of ttl_seconds last state (state_steps key_of ttl_seconds ss d2) (
          steps-absent key_of ttl_seconds (key_of state) ss d2 others
            (consumed-gone key_of ttl_seconds then_now state d1 fits)),
    )
