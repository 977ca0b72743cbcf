-- ===== src/Errors.antt =====
-- backend/app/domain/errors.py: what a service may raise. The messages are not modelled. A service
-- call runs in one transaction (`async with session.begin()`): an exception rolls it back, so a
-- call that raises returns no new database, and `commit` keeps the old one.
use context_ledger.Base.{Bool, true, false, Option, none, some, ◌≡◌, ◌⊎◌, inl, inr, refl}

pub data DomainError : Type 0 where
  validation_failed not_found conflict permission_denied invariant_violation : DomainError

-- What a call returns, or the exception that it raises.
pub data Result {ℓ} (Returned : Type ℓ) : Type ℓ where
  err : (raised : DomainError) → Result Returned
  ok : (returned : Returned) → Result Returned

-- `if c: raise e`
abbrev pub raise_if : (c : Bool) (e : DomainError) → Result (Unit {0})
raise_if false e = ok tt
raise_if true e = err e

infixl 5 ◌>>=◌
-- One statement after another, up to the first that raises.
abbrev pub ◌>>=◌ {ℓ κ} :
    {Returned : Type ℓ} {Next : Type κ} → Result Returned → (Returned → Result Next) → Result Next
err raised >>= then_do = err raised
ok returned >>= then_do = then_do returned

-- `if x is None: raise e`
abbrev pub or_raise {ℓ} : {A : Type ℓ} → Option A → DomainError → Result A
or_raise (some a) e = ok a
or_raise none e = err e

infixl 5 ◌>>◌
abbrev pub ◌>>◌ {ℓ} : {Next : Type ℓ} → Result (Unit {0}) → Result Next → Result Next
err raised >> next = err raised
ok done >> next = next

-- The database after a transaction.
abbrev pub commit {ℓ κ} : {A : Type ℓ} {S : Type κ} → S → Result (A × S) → S
commit s (ok (a, s')) = s'
commit s (err e) = s

-- A call that returned: its first statement returned, and the rest did with what that gave.
pub >>=-elim {ℓ κ λ'} :
    {Returned : Type ℓ} {Next : Type κ} {Goal : Type λ'} (m : Result Returned)
    (then_do : Returned → Result Next) {next : Next}
    → (m >>= then_do) ≡ ok next
    → ((returned : Returned) → m ≡ ok returned → then_do returned ≡ ok next → Goal)
    → Goal
>>=-elim (err raised) then_do h k = cc
>>=-elim (ok returned) then_do h k = k returned refl h

-- The parts of such a call, as a tuple.
pub >>=-eq-ok {ℓ κ} :
    {Returned : Type ℓ} {Next : Type κ} (m : Result Returned) (then_do : Returned → Result Next)
    {next : Next}
    → (m >>= then_do) ≡ ok next
    → (returned : Returned) × (m ≡ ok returned) × (then_do returned ≡ ok next)
>>=-eq-ok m then_do h = >>=-elim m then_do h (λ returned e rest. (returned, e, rest))

-- A call that returned took no `raise` that it guards.
pub >>-elim {ℓ κ} :
    {Next : Type ℓ} {Goal : Type κ} (c : Bool) (e : DomainError) (m : Result Next) {next : Next}
    → (raise_if c e >> m) ≡ ok next
    → (c ≡ false → m ≡ ok next → Goal)
    → Goal
>>-elim true e m h k = cc
>>-elim false e m h k = k refl h

-- A row that was found.
pub or_raise-eq-ok {ℓ} :
    {A : Type ℓ} (o : Option A) (e : DomainError) {a : A} → or_raise o e ≡ ok a → o ≡ some a
or_raise-eq-ok none e h = cc
or_raise-eq-ok (some b) e h = cc

pub Result-cases {ℓ} :
    {Returned : Type ℓ} (m : Result Returned)
    → ((e : DomainError) × (m ≡ err e)) ⊎ ((r : Returned) × (m ≡ ok r))
Result-cases (err e) = inl (e, refl)
Result-cases (ok r) = inr (r, refl)
