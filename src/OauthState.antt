-- ===== src/OauthState.antt =====
-- backend/app/cache/oauth_state.py (`OAuthStateStore`) over a store. `key_of` stands for the key, a
-- SHA-256 of the state; a payload is stored as it is, in place of its JSON. A store that is
-- unavailable raises from either operation and is left out.
pub mod Once
mod Tests
use Prim.Native.String.{String}
use Prim.Native.String.{count as str_length}
use context_ledger.Base.{ℕ, Bool, true, false, ◌||◌, Option, none, some, ◌==◌, ltb, if◌then◌else◌}
use context_ledger.Store.{Data, set, get_and_delete}

abbrev pub max_state : ℕ
max_state = 512

module _ {Payload : Type 0} (key_of : String → ℕ) (ttl_seconds : ℕ) where
  -- `state` is the token that the library drew.
  unfoldable pub issue : ℕ → String → Payload → Data Payload → Data Payload
  issue now state payload d = set now (key_of state) payload ttl_seconds d

  unfoldable pub consume : ℕ → String → Data Payload → Option Payload × Data Payload
  consume now state d =
      if str_length state == 0 || ltb max_state (str_length state)
      then (none, d)
      else get_and_delete now (key_of state) d
