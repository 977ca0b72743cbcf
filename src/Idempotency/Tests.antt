-- ===== src/Idempotency/Tests.antt =====
-- A request that is retried (backend/app/cache/idempotency.py), where the store holds the records
-- themselves and a key of a caller is numbered by both.
use context_ledger.Base.{ℕ, ◌+◌, ◌*◌, ◌≡◌, refl, true, false, some, List, [], ◌∷◌, arith, ltb→lt}
use context_ledger.Store.{Data, lookup, pop, put, live, get, set, set_if_absent, delete}
use context_ledger.Idempotency.{
  Request, Response, Saved, pending, Deployment, executed, problem, replayed, answer_existing,
  capture, reserve, protect, call, release, save, finish, Step, arrives, ends, reads, step, steps,
}
use context_ledger.Idempotency.Held.{IsKeyed}
use context_ledger.Idempotency.Once.{call-executed_once}

abbrev direct : Deployment Saved
direct = record {
  dumps = λ s. s;
  loads = λ s. s;
  store_key = λ subject raw_key. 1000 * subject + raw_key;
  lock_seconds = 60;
  ttl_seconds = 86400;
}

abbrev posted : ℕ → ℕ → Request
posted subject fingerprint = record {
  is_post = true;
  is_excluded = false;
  raw_key = some 7;
  key_valid = true;
  subject = some subject;
  fingerprint = fingerprint;
}

abbrev created : Response
created = record {
  status = 201;
  headers = ("content-type", "application/json") ∷ ("date", "now") ∷ [];
  chunks = (1 ∷ 2 ∷ []) ∷ (3 ∷ []) ∷ [];
}

-- Another caller uses the same key, and ends.
abbrev between : List Step
between =
    arrives (posted 6 40) true 2000 2000
    ∷ ends 6007 40 (some created) true 3000
    ∷ arrives (posted 5 41) true 4000 4001
    ∷ []

abbrev meanwhile : List Step
meanwhile = reads 5007 6000 ∷ []

abbrev reserved : Data Saved
reserved = (5007, record { value = pending 40; expires = 61000 }) ∷ []

first_executed : call direct (posted 5 40) true 1000 1000 (λ d. d) [] ≡ (executed 5007, reserved)
unfolding call protect reserve set_if_absent live lookup set put pop
first_executed = refl

replayed_once :
    (call direct
      (posted 5 40)
      true
      6000
      6000
      (steps direct meanwhile)
      (steps direct between (finish direct 5007 40 (some created) true 5000 reserved))).0
    ≡ replayed 201
        (("content-type", "application/json") ∷ ("idempotent-replayed", "true") ∷ [])
        (1 ∷ 2 ∷ 3 ∷ [])
unfolding call protect reserve set_if_absent live lookup set put pop steps step finish save release
    delete capture get answer_existing
replayed_once = refl

abbrev keyed : (fingerprint : ℕ) → IsKeyed direct 5007 (posted 5 fingerprint)
keyed fingerprint = record {
  raw_key = 7;
  subject = 5;
  post = refl;
  included = refl;
  valid = refl;
  raw_key_given = refl;
  subject_known = refl;
  stored_under = refl;
}

call-executed_once_example :
    (call direct
      (posted 5 41)
      true
      6000
      6001
      (steps direct meanwhile)
      (steps direct between reserved)).0
    ≡ problem 422
call-executed_once_example =
    call-executed_once direct (posted 5 40) (posted 5 41) 5007 1000 1000 6000 6001 (λ d. d) []
      reserved between meanwhile (λ s. refl) first_executed
      ((ltb→lt _ _ refl, ltb→lt _ _ refl), (ground arith, ((ltb→lt _ _ refl, ltb→lt _ _ refl), tt)))
      (ltb→lt _ _ refl, tt) (keyed 41) (ltb→lt _ _ refl) (ltb→lt _ _ refl)
