-- ===== src/OauthState/Tests.antt =====
-- A state that is issued, consumed and tried again (backend/app/cache/oauth_state.py).
use Prim.Native.String.{String}
use Prim.Native.String.{count as str_length}
use context_ledger.Base.{ℕ, ◌≡◌, refl, none, some, List, [], ◌∷◌, All, arith}
use context_ledger.OauthState.{issue, consume}
use context_ledger.OauthState.Once.{
  StateStep, issues, consumes, state_steps, IsOther, IsApart, consume_once,
}

abbrev key_of : String → ℕ
key_of s = str_length s

abbrev between : List (StateStep ℕ)
between = issues 20 "abcd" 8 ∷ consumes 30 "abc" ∷ []

abbrev meanwhile : List (StateStep ℕ)
meanwhile = issues 15 "abcde" 9 ∷ consumes 16 "abcde" ∷ []

apart : All (IsApart key_of 600 3) meanwhile
apart = (omega arith, (omega arith, tt))

others : All (IsOther key_of 600 3) between
others = (omega arith, (tt, tt))

consume_once_example :
    let d1 = state_steps key_of 600 meanwhile (issue {Payload = ℕ} key_of 600 10 "abc" 7 []) in
    let (given, d2) = consume key_of 600 50 "abc" d1 in
    (given ≡ some 7) × ((consume key_of 600 90 "abc" (state_steps key_of 600 between d2)).0 ≡ none)
consume_once_example =
    consume_once key_of 600 10 50 90 "abc" 7 [] meanwhile between refl (omega arith) apart others
